-- ===== src/Workflow/Approval.antt =====
-- services/workflow-service/src/workflows/workflow-approval.service.ts
--
-- `start_approval`, `approve`, `reject` and `resubmit` first read the database with no lock, check,
-- and then write in a transaction: `read_…` is what comes before the transaction, `commit_…` the
-- transaction and the messages after it. An error leaves the database as it was. The row that the
-- methods read again at the end is left out.
pub mod Approve
pub mod Reject
pub mod Chain
pub mod Turns
pub mod Start
pub mod Rounds
pub mod Rejection
use sgd_backend.Base.{ℕ, some, List, [], ◌∷◌, head?, ◌==◌, sort}
use sgd_backend.Workflow.Enums.{pending_approval, StepStatus, EventType}
use sgd_backend.Workflow.Entities.{Workflow, ApprovalStep}
use sgd_backend.Workflow.Errors.{
  Result, ok, ◌>>=◌, ◌>>◌, guard, or_fail, bad_request, forbidden, workflow_not_found,
  not_the_creator, no_approvers, document_not_validated,
}
use sgd_backend.Workflow.Store.{
  Db, Details, Message, NotificationType, find_workflow, steps_of, update_workflow, update_step,
  emit, record_event,
}
use sgd_backend.Workflow.Events.{notify, event_of}
use sgd_backend.Workflow.StateMachine.{assert_valid_transition}

-- `[…steps].sort((a, b) => a.stepOrder - b.stepOrder)`
abbrev pub by_order : ApprovalStep → ℕ
by_order s = s.step_order

abbrev pub with_status : StepStatus → ApprovalStep → ApprovalStep
with_status t s = record s { status = t }

-- The new assignee of the workflow and the order of that step.
abbrev pub assigned_to : ApprovalStep → Workflow → Workflow
assigned_to s w = record w {
  current_approval_step_order = some s.step_order;
  current_assigned_user_id = some s.user_id;
}

-- `startApproval`, before the transaction.
unfoldable pub read_start : ℕ → ℕ → Db → Result (Workflow × ApprovalStep)
read_start id user db = do
  w ← or_fail (find_workflow id db) (bad_request workflow_not_found)
  guard (w.created_by == user) (forbidden not_the_creator)
  assert_valid_transition w.status pending_approval
  first ← or_fail (head? (sort by_order (steps_of id db))) (bad_request no_approvers)
  guard w.main_document_validated (bad_request document_not_validated)
  ok (w, first)

unfoldable pub commit_start : ℕ → Workflow → ApprovalStep → Db → Db
commit_start user w first db =
    let db = update_step first.id (with_status StepStatus.pending) db in
    let db =
      update_workflow w.id (λ v. record (assigned_to first v) { status = pending_approval }) db in
    let db =
      record_event
        (event_of EventType.approval_started user (some first.user_id) w
          (Details.started first.user_id first.step_order))
        db in
    let db = emit (Message.approval_started w.id w.org_id first.user_id w.created_by) db in
    notify NotificationType.task_assigned (first.user_id ∷ []) w db

unfoldable pub start_approval : ℕ → ℕ → Db → Result Db
start_approval id user db = do (w, first) ← read_start id user db; ok (commit_start user w first db)
