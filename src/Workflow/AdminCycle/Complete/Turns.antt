-- ===== src/Workflow/AdminCycle/Complete/Turns.antt =====
-- What one call of `completeStep` does to the workflow, to the cycle and to its steps.
use sgd_backend.Base.{
  ℕ, ◌≡◌, refl, ap, ◌∙◌, some, none, List, find_if, find_if-update_where, select,
  select-update_where, update_where, ◌==◌, ◌&&◌, ==_refl, Bool,
}
use sgd_backend.Workflow.Enums.{admin_cycle_in_progress, available_for_final_users}
use sgd_backend.Workflow.Entities.{Workflow, AdminCycle, AdminStep}
use sgd_backend.Workflow.Errors.{ok}
use sgd_backend.Workflow.Store.{Db, Env, has_id, is_live, find_in_org}
use sgd_backend.Workflow.StateMachine.{can_go, assert_valid_transition}
use sgd_backend.Workflow.AdminCycle.{
  StepInput, is_cycle, in_cycle, is_admin_step, find_cycle, admin_steps_of,
}
use sgd_backend.Workflow.AdminCycle.Reads.{leave_input-keeps, find_own_step-cycle}
use sgd_backend.Workflow.AdminCycle.Complete.{
  next_admin_step, find_own_step, done_at, activate, cycle_done_at, returned_to, commit_last_step,
  commit_next_step, complete_step,
}

abbrev pub in_org : ℕ → ℕ → Workflow → Bool
in_org id org w = is_live id w && w.org_id == org

pub find_in_org-updated :
    (id org : ℕ) (db : Db) (rows : List Workflow) (f : Workflow → Workflow)
    → ((x : Workflow) → in_org id org (f x) ≡ in_org id org x)
    → {w : Workflow} → find_in_org id org db ≡ some w
    → rows ≡ update_where (has_id w.id) f db.workflows
    → find_if (in_org id org) rows ≡ some (f w)
unfolding find_in_org
find_in_org-updated id org db rows f same {w} e new = rw new (
    find_if-update_where (in_org id org) (has_id w.id) f same db.workflows
    ∙ rw e (rw (==_refl w.id)))

abbrev pub of_workflow : ℕ → ℕ → AdminCycle → Bool
of_workflow cycle id c = is_cycle cycle c && c.workflow_id == id

find_cycle-updated :
    (cycle id : ℕ) (db : Db) (rows : List AdminCycle) (f : AdminCycle → AdminCycle)
    → ((x : AdminCycle) → of_workflow cycle id (f x) ≡ of_workflow cycle id x)
    → {c : AdminCycle} → find_cycle cycle id db ≡ some c
    → rows ≡ update_where (is_cycle c.id) f db.cycles
    → find_if (of_workflow cycle id) rows ≡ some (f c)
unfolding find_cycle
find_cycle-updated cycle id db rows f same {c} e new = rw new (
    find_if-update_where (of_workflow cycle id) (is_cycle c.id) f same db.cycles
    ∙ rw e (rw (==_refl c.id)))

module _ (env : Env) (id cycle step user org : ℕ) (dto : StepInput) (db : Db) (w : Workflow)
    (c : AdminCycle) (s : AdminStep) (found : find_in_org id org db ≡ some w)
    (status : w.status ≡ admin_cycle_in_progress)
    (own : find_own_step id cycle step user db ≡ ok (c, s)) where
  may_complete : assert_valid_transition w.status available_for_final_users ≡ ok tt
  unfolding assert_valid_transition can_go
  may_complete = rw status refl

  reads_cycle : find_cycle cycle id db ≡ some c
  reads_cycle = find_own_step-cycle id cycle step user db c s own

  -- The step is the only one to change, to completed.
  steps_done :
      (rows : List AdminStep)
      → rows ≡ db.admin_steps
      → select (in_cycle cycle) (update_where (is_admin_step s.id) (done_at env.now) rows)
        ≡ update_where (is_admin_step s.id) (done_at env.now) (admin_steps_of cycle db)
  unfolding admin_steps_of
  steps_done rows same = rw same (
      select-update_where (in_cycle cycle) (is_admin_step s.id) (done_at env.now) (λ x. refl)
        db.admin_steps)

  -- A user completes an own pending step of a cycle in progress, and the workflow is in
  -- ADMIN_CYCLE_IN_PROGRESS. If no step of the cycle comes later in order, the cycle ends: the step
  -- and the cycle are completed, no other step changes, and the workflow is available to its final
  -- users again, assigned to the one who began the cycle and without an active cycle.
  pub complete_step-last :
      next_admin_step s.step_order (admin_steps_of cycle db) ≡ none
      → (db' : Db) × (complete_step env id cycle step user org dto db ≡ ok db')
        × (find_in_org id org db' ≡ some (returned_to c.initiated_by w))
        × (find_cycle cycle id db' ≡ some (cycle_done_at env.now c))
        × (admin_steps_of cycle db'
            ≡ update_where (is_admin_step s.id) (done_at env.now) (admin_steps_of cycle db))
  unfolding complete_step
  complete_step-last e =
      let (same_workflows, same_cycles, same_steps) =
        leave_input-keeps env w.id c.id s.id user dto db in
      (
        commit_last_step env user dto w c s db,
        rw (found, may_complete, own, e) refl,
        unfold find_in_org commit_last_step in
            find_in_org-updated id org db _ (returned_to c.initiated_by) (λ x. refl) found
              (ap (update_where (has_id w.id) (returned_to c.initiated_by)) same_workflows),
        unfold find_cycle commit_last_step in
            find_cycle-updated cycle id db _ (cycle_done_at env.now) (λ x. refl) reads_cycle
              (ap (update_where (is_cycle c.id) (cycle_done_at env.now)) same_cycles),
        unfold admin_steps_of commit_last_step in steps_done _ same_steps,
      )

  -- A user completes an own pending step of a cycle in progress, and the workflow is in
  -- ADMIN_CYCLE_IN_PROGRESS. If steps of the cycle come later in order, the first of them is next:
  -- the step is completed, the next one becomes pending, no other step changes, the cycle points to
  -- the next order and the workflow is assigned to the next reviewer.
  pub complete_step-next :
      (n : AdminStep)
      → next_admin_step s.step_order (admin_steps_of cycle db) ≡ some n
      → (db' : Db) × (complete_step env id cycle step user org dto db ≡ ok db')
        × (find_in_org id org db' ≡ some (record w { current_assigned_user_id = some n.user_id }))
        × (find_cycle cycle id db' ≡ some (record c { current_step_order = some n.step_order }))
        × (admin_steps_of cycle db'
            ≡ update_where
                (is_admin_step n.id)
                activate
                (update_where (is_admin_step s.id) (done_at env.now) (admin_steps_of cycle db)))
  unfolding complete_step
  complete_step-next n e =
      let (same_workflows, same_cycles, same_steps) =
        leave_input-keeps env w.id c.id s.id user dto db in
      (
        commit_next_step env user dto w c s n db,
        rw (found, may_complete, own, e) refl,
        unfold find_in_org commit_next_step in
            find_in_org-updated id org db _
              (λ v. record v { current_assigned_user_id = some n.user_id }) (λ x. refl) found
              (ap (update_where (has_id w.id) _) same_workflows),
        unfold find_cycle commit_next_step in
            find_cycle-updated cycle id db _
              (λ d. record d { current_step_order = some n.step_order }) (λ x. refl) reads_cycle
              (ap (update_where (is_cycle c.id) _) same_cycles),
        unfold admin_steps_of commit_next_step in
            select-update_where (in_cycle cycle) (is_admin_step n.id) activate (λ x. refl) _
            ∙ ap (update_where (is_admin_step n.id) activate) (steps_done _ same_steps),
      )
