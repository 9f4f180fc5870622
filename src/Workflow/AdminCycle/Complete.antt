-- ===== src/Workflow/AdminCycle/Complete.antt =====
-- `completeStep` of services/workflow-service/src/workflows/workflow-admin-cycle.service.ts
pub mod Turns
pub mod InOrder
pub mod Queue
pub mod Rounds
use sgd_backend.Base.{ℕ, true, false, Option, none, some, List, [], ◌∷◌, find_if, sort, ltb, ◌==◌}
use sgd_backend.Workflow.Enums.{
  available_for_final_users, CycleStatus, AdminStepStatus, EventType, is_active, is_in_progress,
}
use sgd_backend.Workflow.Entities.{Workflow, AdminCycle, AdminStep}
use sgd_backend.Workflow.Errors.{
  Result, ok, ◌>>=◌, ◌>>◌, guard, or_fail, forbidden, not_found, conflict, workflow_not_found,
  cycle_not_found, cycle_not_in_progress, step_not_found, not_assigned, step_not_pending,
}
use sgd_backend.Workflow.Store.{
  Db, Env, Details, Message, NotificationType, find_in_org, update_workflow, emit, record_event,
}
use sgd_backend.Workflow.Events.{notify, event_of}
use sgd_backend.Workflow.StateMachine.{assert_valid_transition}
use sgd_backend.Workflow.AdminCycle.{
  StepInput, has_notes, has_attachments, leave_input, find_cycle, admin_steps_of, is_admin_step,
  by_admin_order, update_cycle, update_admin_step,
}

-- The first step above the order `k`.
unfoldable pub next_admin_step : ℕ → List AdminStep → Option AdminStep
next_admin_step k steps = find_if (λ s. ltb k s.step_order) (sort by_admin_order steps)

-- The pending step of the user in a cycle in progress; `forwardStep` makes the same checks.
unfoldable pub find_own_step : (id cycle step user : ℕ) → Db → Result (AdminCycle × AdminStep)
find_own_step id cycle step user db = do
  c ← or_fail (find_cycle cycle id db) (not_found cycle_not_found)
  guard (is_in_progress c.status) (conflict cycle_not_in_progress)
  s ← or_fail (find_if (is_admin_step step) (admin_steps_of cycle db)) (not_found step_not_found)
  guard (s.user_id == user) (forbidden not_assigned)
  guard (is_active s.status) (conflict (step_not_pending s.status))
  ok (c, s)

abbrev pub done_at : ℕ → AdminStep → AdminStep
done_at now s = record s { status = AdminStepStatus.done; completed_at = some now }

abbrev pub activate : AdminStep → AdminStep
activate s = record s { status = AdminStepStatus.active }

abbrev pub cycle_done_at : ℕ → AdminCycle → AdminCycle
cycle_done_at now c = record c {
  status = CycleStatus.completed;
  current_step_order = none;
  completed_at = some now;
}

-- The workflow goes back to the final user who began the cycle.
abbrev pub returned_to : ℕ → Workflow → Workflow
returned_to user w = record w {
  status = available_for_final_users;
  active_admin_cycle_id = none;
  current_assigned_user_id = some user;
}

-- The branch `isLast`.
unfoldable pub commit_last_step :
    Env → (user : ℕ) → StepInput → Workflow → AdminCycle → AdminStep → Db → Db
commit_last_step env user dto w c s db =
    let db = leave_input env w.id c.id s.id user dto db in
    let db = update_admin_step s.id (done_at env.now) db in
    let db = update_cycle c.id (cycle_done_at env.now) db in
    let db = update_workflow w.id (returned_to c.initiated_by) db in
    let db =
      record_event
        (event_of EventType.admin_step_completed user (some c.initiated_by) w (
          Details.admin_step_done c.id s.id s.step_order (has_notes dto) (has_attachments dto)
            true))
        db in
    let db =
      record_event
        (event_of EventType.admin_cycle_completed user (some c.initiated_by) w
          (Details.cycle_completed c.id c.cycle_number))
        db in
    let db =
      emit
        (Message.admin_cycle_step_completed w.id c.id s.id user none (has_notes dto)
          (has_attachments dto))
        db in
    let db = emit (Message.admin_cycle_completed w.id c.id c.cycle_number c.initiated_by) db in
    notify NotificationType.admin_cycle_done (c.initiated_by ∷ []) w db

-- The branch with a next step.
unfoldable pub commit_next_step :
    Env → (user : ℕ) → StepInput → Workflow → AdminCycle → (s next : AdminStep) → Db → Db
commit_next_step env user dto w c s next db =
    let db = leave_input env w.id c.id s.id user dto db in
    let db = update_admin_step s.id (done_at env.now) db in
    let db = update_admin_step next.id activate db in
    let db = update_cycle c.id (λ c. record c { current_step_order = some next.step_order }) db in
    let db =
      update_workflow w.id (λ w. record w { current_assigned_user_id = some next.user_id }) db in
    let db =
      record_event
        (event_of EventType.admin_step_completed user (some next.user_id) w (
          Details.admin_step_done c.id s.id s.step_order (has_notes dto) (has_attachments dto)
            false))
        db in
    let db =
      emit
        (Message.admin_cycle_step_completed w.id c.id s.id user (some next.user_id) (has_notes dto)
          (has_attachments dto))
        db in
    notify NotificationType.admin_cycle_task (next.user_id ∷ []) w db

unfoldable pub complete_step : Env → (id cycle step user org : ℕ) → StepInput → Db → Result Db
complete_step env id cycle step user org dto db = do
  w ← or_fail (find_in_org id org db) (not_found workflow_not_found)
  assert_valid_transition w.status available_for_final_users
  (c, s) ← find_own_step id cycle step user db
  ok (elim (next_admin_step s.step_order (admin_steps_of cycle db)) [
    | none ↦ commit_last_step env user dto w c s db
    | some next ↦ commit_next_step env user dto w c s next db
  ])
