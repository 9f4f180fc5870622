-- ===== src/Workflow/AdminCycle/Forward/Orders.antt =====
-- After `forwardStep` the orders of the steps of the cycle are distinct again.
use sgd_backend.Base.{
  ℕ, suc, ◌≡◌, refl, sym, subst, true, List, [], ◌∷◌, ◌++◌, All, All-append, All-zip, Distinct,
  Distinct-update_where, select, select-passes, select-append, select-update_where, update_where,
  All-update_where, if◌then◌else◌, arith,
}
use sgd_backend.Workflow.Entities.{AdminCycle, AdminStep, Workflow}
use sgd_backend.Workflow.Errors.{ok}
use sgd_backend.Workflow.Store.{Db, Env}
use sgd_backend.Workflow.AdminCycle.{StepInput, in_cycle, is_admin_step, by_admin_order}
use sgd_backend.Workflow.AdminCycle.Reads.{leave_input-keeps, find_own_step-cycle, find_cycle-id}
use sgd_backend.Workflow.AdminCycle.Complete.{done_at}
use sgd_backend.Workflow.AdminCycle.Forward.{
  one_later, is_shifted, shift_rows, inserted_step, commit_forward, forward_step,
}
use sgd_backend.Workflow.AdminCycle.Forward.Steps.{with_input, forward_step-ok}
use sgd_backend.Workflow.AdminCycle.Forward.Shift.{UniqueOrders, shift_rows_lem}

module _ (cycle order : ℕ) where
  shifted : AdminStep → AdminStep
  shifted r = if is_shifted cycle order r then one_later r else r

  Distinct-shifted :
      (new : AdminStep) (rows : List AdminStep)
      → new.step_order ≡ order
      → All (λ r. in_cycle cycle r ≡ true) rows
      → Distinct by_admin_order rows
      → Distinct by_admin_order (update_where (is_shifted cycle order) one_later rows ++ new ∷ [])
  unfolding update_where
  Distinct-shifted new [] e inside d = (tt, tt)
  Distinct-shifted new (r ∷ rs) e inside d = (
    All-append _ _ (new ∷ [])
        (All-update_where _ _ (is_shifted cycle order) one_later
          (λ y both. let t = inside.0 in let u = both.0 in let n = both.1 in ground arith) rs
          (All-zip _ _ rs inside.1 d.0))
        (let t = inside.0 in ground arith, tt),
    Distinct-shifted new rs e inside.1 d.1,
  )

  -- The rows of the cycle once the new row has the order from which on the others were shifted.
  inserted-UniqueOrders :
      (new : AdminStep) (rows : List AdminStep)
      → new.step_order ≡ order
      → in_cycle cycle new ≡ true
      → UniqueOrders cycle rows
      → UniqueOrders cycle (update_where (is_shifted cycle order) one_later rows ++ new ∷ [])
  unfolding select
  inserted-UniqueOrders new rows e t d =
      let split =
        select-append (in_cycle cycle) (update_where (is_shifted cycle order) one_later rows)
          (new ∷ []) in
      let swap =
        select-update_where (in_cycle cycle) (is_shifted cycle order) one_later (λ x. refl) rows in
      subst (Distinct by_admin_order) (sym split) (
        rw (swap, t)
          (Distinct-shifted new (select (in_cycle cycle) rows) e
            (select-passes (in_cycle cycle) rows) d))

  shift_rows-ok :
      (rows rows' : List AdminStep)
      → UniqueOrders cycle rows
      → shift_rows cycle order [] rows ≡ ok rows'
      → rows' ≡ update_where (is_shifted cycle order) one_later rows
  shift_rows-ok rows rows' d h = let result = shift_rows_lem cycle order rows d in ground arith

commit_forward-UniqueOrders :
    (env : Env) (cycle user : ℕ) (dto : StepInput) (reviewer : ℕ) (w : Workflow) (c : AdminCycle)
    (s : AdminStep) (rows shifted : List AdminStep) (db : Db)
    → c.id ≡ cycle
    → shifted ≡ update_where (is_shifted cycle (suc s.step_order)) one_later rows
    → UniqueOrders cycle rows
    → UniqueOrders cycle (commit_forward env user dto reviewer w c s shifted db).admin_steps
unfolding commit_forward
commit_forward-UniqueOrders env cycle user dto reviewer w c s rows shifted db same moved d =
    let new = inserted_step (env.uuid db.saved) reviewer w c s in
    let all = shifted ++ new ∷ [] in
    subst (Distinct by_admin_order)
      (sym (
        select-update_where (in_cycle cycle) (is_admin_step s.id) (done_at env.now) (λ x. refl)
          all))
      (Distinct-update_where by_admin_order (is_admin_step s.id) (done_at env.now) (λ x. refl) _
        (subst (λ rows. UniqueOrders cycle (rows ++ new ∷ [])) (sym moved)
          (inserted-UniqueOrders cycle (suc s.step_order) new rows refl (ground (arith, same)) d)))

-- When `forwardStep` succeeds on a cycle whose steps have distinct orders, the orders are distinct
-- again afterwards, with the steps that it moved and the step that it inserted.
pub forward_step-UniqueOrders :
    (env : Env) (id cycle step user org : ℕ) (dto : StepInput) (reviewer : ℕ) (db db' : Db)
    → UniqueOrders cycle db.admin_steps
    → forward_step env id cycle step user org dto reviewer db ≡ ok db'
    → UniqueOrders cycle db'.admin_steps
forward_step-UniqueOrders env id cycle step user org dto reviewer db db' d h =
    let f = forward_step-ok env id cycle step user org dto reviewer db db' h in
    let before = with_input env user dto f.workflow f.own_cycle f.own_step db in
    let rows : before.admin_steps ≡ db.admin_steps =
      (leave_input-keeps env f.workflow.id f.own_cycle.id f.own_step.id user dto db).2 in
    let same : f.own_cycle.id ≡ cycle =
      find_cycle-id cycle id db (find_own_step-cycle id cycle step user db _ _ f.owned) in
    let unique = subst (UniqueOrders cycle) (sym rows) d in
    let moved =
      shift_rows-ok cycle (suc f.own_step.step_order) before.admin_steps f.shifted unique f.room in
    subst (λ x. UniqueOrders cycle x.admin_steps) f.result
      (commit_forward-UniqueOrders env cycle user dto reviewer f.workflow f.own_cycle f.own_step _ _
        before same moved unique)
