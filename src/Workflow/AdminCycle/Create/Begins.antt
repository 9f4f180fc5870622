-- ===== src/Workflow/AdminCycle/Create/Begins.antt =====
-- A review cycle that `createCycle` has begun is one that its reviewers can bring to its end.
use sgd_backend.Base.{
  ℕ, suc, ◌≡◌, refl, sym, ap, subst, ◌∙◌, Bool, true, false, some, none, List, [], ◌∷◌, ◌++◌, map,
  length, length-map, length-sort, map-sort, find_if-passes, All, Memᴰ, find_if, sort, select,
  ==_refl, ◌==◌, if◌then◌else◌, arith,
}
use sgd_backend.Workflow.Enums.{AdminStepStatus}
use sgd_backend.Workflow.Entities.{Workflow, AdminCycle, AdminStep}
use sgd_backend.Workflow.Errors.{ok}
use sgd_backend.Workflow.Store.{Db, Env, find_in_org}
use sgd_backend.Workflow.StepOrders.{check_orders, count_from}
use sgd_backend.Workflow.StepOrders.Laws.{check_orders_iff}
use sgd_backend.Workflow.AdminCycle.{in_cycle, find_cycle, admin_steps_of}
use sgd_backend.Workflow.AdminCycle.Create.{
  AdminStepInput, CreateCycleDto, input_order, step_rows, may_create, in_cycle_with, commit_create,
  create_cycle,
}
use sgd_backend.Workflow.AdminCycle.Create.Rows.{
  select-step_rows, step_rows-Fits, step_rows-orders, step_rows-ids,
}
use sgd_backend.Workflow.AdminCycle.Complete.Turns.{in_org, of_workflow, find_in_org-updated}
use sgd_backend.Workflow.AdminCycle.Complete.Queue.{IsQueue, Fits}
use sgd_backend.Workflow.AdminCycle.Complete.Rounds.{IsReview}

-- A row added to a table in which nothing passes the test is what a lookup finds.
find_if-append {ℓ} :
    {A : Type ℓ} (p : A → Bool) (xs : List A) (new : A)
    → All (λ x. p x ≡ false) xs
    → p new ≡ true
    → find_if p (xs ++ new ∷ []) ≡ some new
unfolding find_if
find_if-append p [] new h t = rw t refl
find_if-append p (x ∷ xs) new h t = rw h.0 (find_if-append p xs new h.1 t)

find_in_org-id : (id org : ℕ) (db : Db) {w : Workflow} → find_in_org id org db ≡ some w → w.id ≡ id
unfolding find_in_org
find_in_org-id id org db {w} e =
    let passes = find_if-passes (in_org id org) db.workflows e in ground arith

-- Accepted inputs are numbered from 1 in the order of their steps.
numbered :
    (dto : CreateCycleDto)
    → check_orders (map input_order dto.steps) ≡ ok tt
    → map input_order (sort input_order dto.steps)
      ≡ count_from 1 (length (sort input_order dto.steps))
numbered dto h =
    map-sort input_order dto.steps
    ∙ ((check_orders_iff (map input_order dto.steps)).0 h).1
    ∙ ap (count_from 1) (length-map input_order dto.steps ∙ sym (length-sort input_order dto.steps))

no_inputs : (ss : List AdminStepInput) → length ss ≡ 0 → map input_order ss ≡ []
no_inputs [] e = refl
no_inputs (s ∷ ss) e = absurd (omega (arith, e))

-- The row of the first step.
abbrev first_row : Env → (cycle workflow saved : ℕ) → AdminStepInput → AdminStep
first_row env cycle workflow saved s = record {
  id = env.uuid saved;
  cycle_id = cycle;
  workflow_id = workflow;
  user_id = s.user_id;
  step_order = s.step_order;
  status = if s.step_order == 1 then AdminStepStatus.active else AdminStepStatus.idle;
  is_optional = false;
  inserted_by_step_id = none;
  completed_at = none;
}

step_rows-IsQueue :
    (env : Env) (cycle workflow saved : ℕ) (first : AdminStepInput) (rest : List AdminStepInput)
    → ((i j : ℕ) → env.uuid i ≡ env.uuid j → i ≡ j)
    → map input_order (first ∷ rest) ≡ count_from 1 (length (first ∷ rest))
    → IsQueue
        (step_rows env.uuid saved cycle workflow (first ∷ rest))
        (first_row env cycle workflow saved first)
unfolding step_rows
step_rows-IsQueue env cycle workflow saved first rest unique orders =
    let one : first.step_order ≡ 1 = cc in
    record {
      listed = Memᴰ.head refl;
      fits =
          subst (λ k. All (Fits k) (step_rows env.uuid saved cycle workflow (first ∷ rest)))
            (sym one) (step_rows-Fits env.uuid cycle workflow saved 0 (first ∷ rest) orders);
      ids = step_rows-ids env.uuid cycle workflow unique saved (first ∷ rest);
      orders = step_rows-orders env.uuid cycle workflow saved 1 (first ∷ rest) orders;
    }

module _ (env : Env) (id user org : ℕ) (dto : CreateCycleDto) (db : Db) (w : Workflow)
    (found : find_in_org id org db ≡ some w) (unique : (i j : ℕ) → env.uuid i ≡ env.uuid j → i ≡ j)
    (new_cycle : All (λ c. of_workflow (env.uuid db.saved) id c ≡ false) db.cycles)
    (new_steps : All (λ r. in_cycle (env.uuid db.saved) r ≡ false) db.admin_steps) where
  commit_create-IsReview :
      (first : AdminStepInput) (rest : List AdminStepInput)
      → sort input_order dto.steps ≡ first ∷ rest
      → map input_order (first ∷ rest) ≡ count_from 1 (length (first ∷ rest))
      → (w' : Workflow) × (c : AdminCycle) × (s : AdminStep) × IsReview id
          (env.uuid db.saved)
          org
          (commit_create env user dto first w db)
          w'
          c
          s
        × (c.initiated_by ≡ user)
        × (s.step_order ≡ 1)
  unfolding commit_create find_in_org find_cycle admin_steps_of step_rows
  commit_create-IsReview first rest sorted orders =
      let cycle = env.uuid db.saved in
      let rows =
        select-step_rows env.uuid cycle w.id (suc db.saved) (first ∷ rest) db.admin_steps
          new_steps in
      let one : first.step_order ≡ 1 = cc in
      (
        in_cycle_with cycle first.user_id w,
        _,
        first_row env cycle w.id (suc db.saved) first,
        record {
          found =
              find_in_org-updated id org db _ (in_cycle_with cycle first.user_id) (λ x. refl) found
                refl;
          status = refl;
          assigned = refl;
          cycle_found =
              find_if-append (of_workflow cycle id) db.cycles _ new_cycle
                (rw (==_refl cycle, find_in_org-id id org db found, ==_refl id) refl);
          running = refl;
          queue =
              subst (λ l. IsQueue l (first_row env cycle w.id (suc db.saved) first))
                (sym (
                  ap
                    (λ ss.
                      select (in_cycle cycle)
                        (db.admin_steps ++ step_rows env.uuid (suc db.saved) cycle w.id ss))
                    sorted
                  ∙ rows))
                (step_rows-IsQueue env cycle w.id (suc db.saved) first rest unique orders);
        },
        refl,
        one,
      )

  Begins : Type 0
  Begins =
      (db' : Db) × (w' : Workflow) × (c : AdminCycle) × (s : AdminStep) × (create_cycle env id user
          org dto db
        ≡ ok db')
      × IsReview id (env.uuid db.saved) org db' w' c s
      × (c.initiated_by ≡ user)
      × (s.step_order ≡ 1)

  create_cycle_with :
      (ss : List AdminStepInput)
      → sort input_order dto.steps ≡ ss
      → may_create user w ≡ ok tt
      → check_orders (map input_order dto.steps) ≡ ok tt
      → Begins
  unfolding Begins create_cycle
  create_cycle_with [] sorted may checked = absurd (
      ((check_orders_iff (map input_order dto.steps)).0 checked).0
        (no_inputs dto.steps (sym (length-sort input_order dto.steps) ∙ ap length sorted)))
  create_cycle_with (first ∷ rest) sorted may checked =
      let orders =
        subst (λ ss. map input_order ss ≡ count_from 1 (length ss)) sorted (numbered dto checked) in
      let (w', c, s, review, initiated, one) = commit_create-IsReview first rest sorted orders in
      (
        commit_create env user dto first w db,
        w',
        c,
        s,
        rw (checked, sorted, found, may) refl,
        review,
        initiated,
        one,
      )

  -- A final user begins a cycle: the workflow is found in the organisation, is in a status from
  -- which a cycle may begin, has its review cycle enabled and none active, and the step orders are
  -- accepted; the ids that the database gives are distinct and new. Then the cycle is created, and
  -- the workflow waits for the reviewer of its step with order 1, from which the reviewers can bring
  -- it to its end.
  pub create_cycle-IsReview :
      may_create user w ≡ ok tt
      → check_orders (map input_order dto.steps) ≡ ok tt
      → (db' : Db) × (w' : Workflow) × (c : AdminCycle) × (s : AdminStep) × (create_cycle env id
            user org dto db
          ≡ ok db')
        × IsReview id (env.uuid db.saved) org db' w' c s
        × (c.initiated_by ≡ user)
        × (s.step_order ≡ 1)
  unfolding Begins
  create_cycle-IsReview may checked =
      create_cycle_with (sort input_order dto.steps) refl may checked
