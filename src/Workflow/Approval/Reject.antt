-- ===== src/Workflow/Approval/Reject.antt =====
-- `reject` and `resubmit` of services/workflow-service/src/workflows/workflow-approval.service.ts
use sgd_backend.Base.{
  ℕ, suc, String, false, Option, none, some, is_some, [], ◌∷◌, given, get_or, some_eq, ◌==◌,
  find_if, unique,
}
use sgd_backend.Workflow.Enums.{
  pending_approval, returned_to_creator, rejected, same_status, StepStatus, ActionType, EventType,
}
use sgd_backend.Workflow.Entities.{Workflow, ApprovalStep}
use sgd_backend.Workflow.Errors.{
  Result, ok, ◌>>=◌, ◌>>◌, guard, or_fail, bad_request, forbidden, conflict, workflow_not_found,
  not_the_creator, not_current_approver, current_step_not_found, rejected_step_missing,
  rejected_step_not_found, invalid_transition,
}
use sgd_backend.Workflow.Store.{
  Db, Details, Message, NotificationType, find_workflow, steps_of, is_step, update_workflow,
  update_step, save_action, count_actions, emit, record_event,
}
use sgd_backend.Workflow.Events.{notify, event_of}
use sgd_backend.Workflow.StateMachine.{assert_valid_transition}
use sgd_backend.Workflow.Approval.{assigned_to, with_status}
use sgd_backend.Workflow.Approval.Approve.{current_step}

-- What `reject` has read when its transaction begins.
pub record RejectReading : Type 0 where
  pub workflow : Workflow
  pub step : ApprovalStep
  pub earlier_actions : ℕ

unfoldable pub read_reject : ℕ → ℕ → Db → Result RejectReading
read_reject id user db = do
  w ← or_fail (find_workflow id db) (bad_request workflow_not_found)
  assert_valid_transition w.status rejected
  guard (some_eq w.current_assigned_user_id user) (forbidden not_current_approver)
  s ← or_fail (current_step w (steps_of id db)) (bad_request current_step_not_found)
  ok (record { workflow = w; step = s; earlier_actions = count_actions s.id db })

-- The workflow after a rejection.
abbrev pub turned_down : ℕ → Workflow → Workflow
turned_down step w = record w {
  status = rejected;
  rejected_at_step_id = some step;
  current_assigned_user_id = none;
}

-- `observations` is the text of `RejectWorkflowDto`.
unfoldable pub commit_reject : ℕ → String → RejectReading → Db → Db
commit_reject user observations r db =
    let w = r.workflow in
    let s = r.step in
    let db =
      save_action
        (record {
          workflow_id = w.id;
          step_id = s.id;
          user_id = user;
          action = ActionType.refusal;
          observations = some observations;
          attempt_number = suc r.earlier_actions;
          attachments = [];
        })
        db in
    let db = update_step s.id (with_status StepStatus.refused) db in
    let db = update_workflow w.id (turned_down s.id) db in
    let db =
      record_event
        (event_of EventType.step_rejected user (some w.created_by) w
          (Details.refused s.step_order observations user))
        db in
    let db =
      emit
        (Message.approval_rejected w.id w.org_id user s.step_order observations
          (suc r.earlier_actions))
        db in
    notify NotificationType.workflow_rejected (unique (w.created_by ∷ get_or w.final_user_ids [])) w
      db

unfoldable pub reject : ℕ → ℕ → String → Db → Result Db
reject id user observations db = do
  r ← read_reject id user db
  ok (commit_reject user observations r db)

-- `ResubmitWorkflowDto`; the service does not read `newAttachmentIds`.
pub record ResubmitDto : Type 0 where
  pub observations : Option String
  pub updated_main_document_id : Option String

unfoldable pub read_resubmit : ℕ → ℕ → Db → Result (Workflow × ApprovalStep)
read_resubmit id user db = do
  w ← or_fail (find_workflow id db) (bad_request workflow_not_found)
  guard (same_status w.status returned_to_creator)
      (conflict (invalid_transition w.status pending_approval))
  assert_valid_transition w.status pending_approval
  guard (w.created_by == user) (forbidden not_the_creator)
  rejected_id ← or_fail w.rejected_at_step_id (bad_request rejected_step_missing)
  s ← or_fail (find_if (is_step rejected_id) (steps_of id db)) (bad_request rejected_step_not_found)
  ok (w, s)

-- A replaced main document has to be validated again.
abbrev pub with_document : Option String → Workflow → Workflow
with_document none w = w
with_document (some doc) w = record w {
  main_document_id = some doc;
  main_document_validated = false;
  main_document_metadata = none;
}

-- The workflow after it was sent in again.
abbrev pub sent_again : ApprovalStep → ResubmitDto → Workflow → Workflow
sent_again s dto w =
    with_document (given dto.updated_main_document_id)
      (record (assigned_to s w) { status = pending_approval; rejected_at_step_id = none })

unfoldable pub commit_resubmit : ℕ → ResubmitDto → Workflow → ApprovalStep → Db → Db
commit_resubmit user dto w s db =
    let db = update_workflow w.id (sent_again s dto) db in
    let db =
      update_step s.id (λ t. record t { status = StepStatus.pending; completed_at = none }) db in
    let db =
      record_event
        (event_of EventType.workflow_resubmitted user (some s.user_id) w (
          Details.resubmitted s.step_order dto.observations
            (is_some (given dto.updated_main_document_id))))
        db in
    let db = emit (Message.workflow_resubmitted w.id w.org_id user s.user_id) db in
    notify NotificationType.task_assigned (s.user_id ∷ []) w db

unfoldable pub resubmit : ℕ → ℕ → ResubmitDto → Db → Result Db
resubmit id user dto db = do (w, s) ← read_resubmit id user db; ok (commit_resubmit user dto w s db)
