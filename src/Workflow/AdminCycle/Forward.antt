-- ===== src/Workflow/AdminCycle/Forward.antt =====
-- `forwardStep` of services/workflow-service/src/workflows/workflow-admin-cycle.service.ts
--
-- Its bulk UPDATE runs under the constraint UQ_workflow_admin_steps_cycle_order of
-- services/workflow-service/src/migrations/1714300000000-InitialWorkflowSchema.ts, which is not
-- declared DEFERRABLE: PostgreSQL checks it for each row as it is written. The table's list is the
-- order in which the rows are visited.
pub mod Shift
pub mod Steps
pub mod Orders
use sgd_backend.Base.{
  ℕ, suc, Bool, true, false, not, ◌&&◌, ◌||◌, Option, none, some, List, [], ◌∷◌, ◌++◌, includes,
  find_if, leb, ◌==◌, if◌then◌else◌,
}
use sgd_backend.Workflow.Enums.{admin_cycle_in_progress, same_status, AdminStepStatus, EventType}
use sgd_backend.Workflow.Entities.{Workflow, AdminCycle, AdminStep}
use sgd_backend.Workflow.Errors.{
  Result, ok, err, ◌>>=◌, ◌>>◌, guard, or_fail, bad_request, not_found, conflict, internal,
  workflow_not_found, wrong_status, optional_cannot_forward, reviewer_not_allowed,
  next_reviewer_is_same, unique_violation,
}
use sgd_backend.Workflow.Store.{
  Db, Env, Details, NotificationType, find_in_org, update_workflow, record_event,
}
use sgd_backend.Workflow.Events.{notify, event_of}
use sgd_backend.Workflow.AdminCycle.{
  StepInput, has_notes, has_attachments, leave_input, in_cycle, admin_steps_of, update_cycle,
  update_admin_step,
}
use sgd_backend.Workflow.AdminCycle.Complete.{find_own_step, done_at}

-- Some row of the cycle has this order.
unfoldable pub is_taken : ℕ → ℕ → List AdminStep → Bool
is_taken cycle order [] = false
is_taken cycle order (r ∷ rs) =
    (in_cycle cycle r && r.step_order == order) || is_taken cycle order rs

abbrev pub one_later : AdminStep → AdminStep
one_later r = record r { step_order = suc r.step_order }

-- `WHERE cycle_id = :cycleId AND step_order >= :insertOrder`
abbrev pub is_shifted : ℕ → ℕ → AdminStep → Bool
is_shifted cycle order r = in_cycle cycle r && leb order r.step_order

-- `SET step_order = step_order + 1`, row by row: the rows already visited, and those to come.
unfoldable pub shift_rows :
    (cycle order : ℕ) → (visited rest : List AdminStep) → Result (List AdminStep)
unfolding is_taken
shift_rows cycle order visited [] = ok visited
shift_rows cycle order visited (r ∷ rs) =
    let moved = shift_rows cycle order (visited ++ one_later r ∷ []) rs in
    let kept = shift_rows cycle order (visited ++ r ∷ []) rs in
    if is_shifted cycle order r
    then (if is_taken cycle (suc r.step_order) (visited ++ rs)
        then err (internal unique_violation)
        else moved)
    else kept

-- `nextStep && nextStep.userId === dto.optionalReviewerId`
abbrev pub is_followed_by : ℕ → AdminStep → List AdminStep → Bool
is_followed_by reviewer s steps = elim (find_if (λ t. t.step_order == suc s.step_order) steps) [
  | none ↦ false
  | some t ↦ t.user_id == reviewer
]

-- The step of the optional reviewer.
abbrev pub inserted_step : ℕ → ℕ → (w : Workflow) → AdminCycle → AdminStep → AdminStep
inserted_step id reviewer w c s = record {
  id = id;
  cycle_id = c.id;
  workflow_id = w.id;
  user_id = reviewer;
  step_order = suc s.step_order;
  status = AdminStepStatus.active;
  is_optional = true;
  inserted_by_step_id = some s.id;
  completed_at = none;
}

-- The writes after the shift of the rows; the new row takes the next id of the database.
unfoldable pub commit_forward :
    Env
    → (user : ℕ) → StepInput
    → (reviewer : ℕ) → Workflow
    → AdminCycle
    → AdminStep
    → List AdminStep
    → Db
    → Db
commit_forward env user dto reviewer w c s shifted db =
    let new = env.uuid db.saved in
    let db = record db {
      admin_steps = shifted ++ inserted_step new reviewer w c s ∷ [];
      saved = suc db.saved;
    } in
    let db = update_admin_step s.id (done_at env.now) db in
    let db =
      update_cycle c.id (λ c. record c { current_step_order = some (suc s.step_order) }) db in
    let db = update_workflow w.id (λ w. record w { current_assigned_user_id = some reviewer }) db in
    let db =
      record_event
        (event_of EventType.admin_step_completed user (some reviewer) w (
          Details.forwarded c.id s.id s.step_order reviewer new (has_notes dto)
            (has_attachments dto)))
        db in
    notify NotificationType.admin_cycle_task (reviewer ∷ []) w db

unfoldable pub forward_step :
    Env → (id cycle step user org : ℕ) → StepInput → (reviewer : ℕ) → Db → Result Db
forward_step env id cycle step user org dto reviewer db = do
  w ← or_fail (find_in_org id org db) (not_found workflow_not_found)
  guard (same_status w.status admin_cycle_in_progress) (conflict (wrong_status w.status))
  (c, s) ← find_own_step id cycle step user db
  guard (not s.is_optional) (bad_request optional_cannot_forward)
  guard (includes c.allowed_optional_reviewer_ids reviewer) (bad_request reviewer_not_allowed)
  guard (not (is_followed_by reviewer s (admin_steps_of cycle db)))
      (bad_request next_reviewer_is_same)
  let db = leave_input env w.id c.id s.id user dto db
  shifted ← shift_rows cycle (suc s.step_order) [] db.admin_steps
  ok (commit_forward env user dto reviewer w c s shifted db)
