-- ===== src/Workflow/AdminCycle/Create.antt =====
-- `createCycle` of services/workflow-service/src/workflows/workflow-admin-cycle.service.ts
pub mod Rows
pub mod Begins
use sgd_backend.Base.{
  ℕ, suc, ◌+◌, false, not, Option, none, some, is_some, List, [], ◌∷◌, ◌++◌, map, length, head?,
  get_or, sort, select, max_of, ◌==◌, if◌then◌else◌,
}
use sgd_backend.Workflow.Enums.{admin_cycle_in_progress, CycleStatus, AdminStepStatus, EventType}
use sgd_backend.Workflow.Entities.{Workflow, AdminCycle, AdminStep}
use sgd_backend.Workflow.Errors.{
  Result, ok, ◌>>=◌, ◌>>◌, guard, or_fail, bad_request, forbidden, not_found, conflict,
  workflow_not_found, orders_not_consecutive, review_cycle_disabled, active_cycle_exists,
  not_a_final_user,
}
use sgd_backend.Workflow.Store.{
  Db, Env, Details, Message, NotificationType, find_in_org, update_workflow, emit, record_event,
}
use sgd_backend.Workflow.Events.{notify, event_of}
use sgd_backend.Workflow.StateMachine.{assert_valid_transition}
use sgd_backend.Workflow.StepOrders.{check_orders}
use sgd_backend.Workflow.AdminCycle.{is_final_user}

-- `AdminStepInputDto` and `CreateAdminCycleDto`
pub record AdminStepInput : Type 0 where
  pub user_id : ℕ
  pub step_order : ℕ

pub record CreateCycleDto : Type 0 where
  pub steps : List AdminStepInput
  pub allowed_optional_reviewer_ids : Option (List ℕ)

abbrev pub input_order : AdminStepInput → ℕ
input_order s = s.step_order

-- The number of the last cycle of the workflow, 0 if there was none.
unfoldable pub last_cycle_number : ℕ → Db → ℕ
last_cycle_number workflow db =
    max_of
      (map (λ (c : AdminCycle). c.cycle_number) (select (λ c. c.workflow_id == workflow) db.cycles))

-- The rows of the steps; their ids are the next that the database gives, from the `k`-th on.
unfoldable pub step_rows : (ℕ → ℕ) → ℕ → ℕ → ℕ → List AdminStepInput → List AdminStep
step_rows uuid k cycle workflow [] = []
step_rows uuid k cycle workflow (s ∷ ss) =
    record {
      id = uuid k;
      cycle_id = cycle;
      workflow_id = workflow;
      user_id = s.user_id;
      step_order = s.step_order;
      status = if s.step_order == 1 then AdminStepStatus.active else AdminStepStatus.idle;
      is_optional = false;
      inserted_by_step_id = none;
      completed_at = none;
    }
    ∷ step_rows uuid (suc k) cycle workflow ss

-- What has to hold of the workflow: `[RN-11]`, `[RN-17]`, `[RN-12]` and `[RN-15]`.
unfoldable pub may_create : ℕ → Workflow → Result (Unit {0})
unfolding assert_valid_transition
may_create user w = do
  assert_valid_transition w.status admin_cycle_in_progress
  guard w.review_cycle_enabled (forbidden review_cycle_disabled)
  guard (not (is_some w.active_admin_cycle_id)) (conflict active_cycle_exists)
  guard (is_final_user user w) (forbidden not_a_final_user)

-- The workflow once the cycle has begun.
abbrev pub in_cycle_with : ℕ → ℕ → Workflow → Workflow
in_cycle_with cycle first_user w = record w {
  status = admin_cycle_in_progress;
  active_admin_cycle_id = some cycle;
  current_assigned_user_id = some first_user;
}

unfoldable pub commit_create : Env → ℕ → CreateCycleDto → AdminStepInput → Workflow → Db → Db
commit_create env user dto first w db =
    let cycle = env.uuid db.saved in
    let number = suc (last_cycle_number w.id db) in
    let sorted = sort input_order dto.steps in
    let db = record db {
      cycles =
          db.cycles
          ++ record {
            id = cycle;
            workflow_id = w.id;
            cycle_number = number;
            initiated_by = user;
            status = CycleStatus.in_progress;
            current_step_order = some 1;
            completed_at = none;
            allowed_optional_reviewer_ids = get_or dto.allowed_optional_reviewer_ids [];
          }
            ∷ [];
      admin_steps = db.admin_steps ++ step_rows env.uuid (suc db.saved) cycle w.id sorted;
      saved = suc db.saved + length sorted;
    } in
    let db = update_workflow w.id (in_cycle_with cycle first.user_id) db in
    let db =
      record_event
        (event_of EventType.admin_cycle_started user (some first.user_id) w
          (Details.cycle_started cycle number first.user_id))
        db in
    let db = emit (Message.admin_cycle_started w.id cycle number user first.user_id) db in
    notify NotificationType.admin_cycle_task (first.user_id ∷ []) w db

-- The second line answers `sorted[0]`, which `check_orders` has made sure of.
unfoldable pub create_cycle : Env → ℕ → ℕ → ℕ → CreateCycleDto → Db → Result Db
create_cycle env id user org dto db = do
  check_orders (map input_order dto.steps)
  first ← or_fail (head? (sort input_order dto.steps)) (bad_request orders_not_consecutive)
  w ← or_fail (find_in_org id org db) (not_found workflow_not_found)
  may_create user w
  ok (commit_create env user dto first w db)
