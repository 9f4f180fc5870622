-- ===== src/Workflow/Approval/Approve.antt =====
-- `approve` of services/workflow-service/src/workflows/workflow-approval.service.ts
use sgd_backend.Base.{
  ℕ, suc, String, Bool, true, false, ◌&&◌, Option, none, some, is_some, List, [], ◌∷◌, length,
  head?, is_empty, get_or, some_eq, ltb, if◌then◌else◌, find_if, sort,
}
use sgd_backend.Workflow.Enums.{
  pending_review_cycle, available_for_final_users, is_pending, StepStatus, ActionType, EventType,
}
use sgd_backend.Workflow.Entities.{FileInfo, Workflow, ApprovalStep}
use sgd_backend.Workflow.Errors.{
  Result, ok, err, ◌>>=◌, ◌>>◌, guard, or_fail, bad_request, forbidden, internal,
  workflow_not_found, not_current_approver, current_step_not_found, final_users_unresolved,
  service_failure,
}
use sgd_backend.Base.Actions.{answer, missing, failed}
use sgd_backend.Workflow.Store.{
  Db, Env, Details, Message, NotificationType, find_workflow, steps_of, update_workflow,
  update_step, save_action, count_actions, emit, record_event,
}
use sgd_backend.Workflow.Events.{notify, event_of}
use sgd_backend.Workflow.StateMachine.{assert_valid_transition}
use sgd_backend.Workflow.Approval.{by_order, with_status, assigned_to}

-- `ApproveWorkflowDto`
pub record ApproveDto : Type 0 where
  pub observations : Option String
  pub attachments : Option (List FileInfo)

-- `resolveReviewCycleEnabledForFinalApproval`
unfoldable pub resolve_review_cycle : Env → Workflow → Result Bool
resolve_review_cycle env w = elim (env.review_cycle_enabled w.org_id w.typology_id) [
  | answer b ↦ ok b
  | missing ↦ ok w.review_cycle_enabled
  | failed ↦ err (internal service_failure)
]

-- `resolveFinalUsers`
unfoldable pub resolve_final_users : Env → Workflow → Result (List ℕ)
resolve_final_users env w = elim w.main_document_metadata [
  | none ↦ ok []
  | some m ↦ elim m.typology_org_structure [
    | none ↦ ok []
    | some position ↦ elim (env.users_by_position w.org_id position) [
      | answer users ↦ ok users
      | missing ↦ err (internal final_users_unresolved)
      | failed ↦ err (internal final_users_unresolved)
    ]
  ]
]

-- The final users chosen at creation, or those of the typology.
abbrev chosen_or : Option (List ℕ) → Result (List ℕ) → Result (List ℕ)
chosen_or none resolved = resolved
chosen_or (some []) resolved = resolved
chosen_or (some (u ∷ us)) resolved = ok (u ∷ us)

unfoldable pub final_users : Env → Workflow → Result (List ℕ)
unfolding resolve_final_users
final_users env w = chosen_or w.final_user_ids (resolve_final_users env w)

-- The step whose turn it is.
abbrev pub is_current : Workflow → ApprovalStep → Bool
is_current w s = some_eq w.current_approval_step_order s.step_order && is_pending s.status

unfoldable pub current_step : Workflow → List ApprovalStep → Option ApprovalStep
current_step w steps = find_if (is_current w) steps

-- The first step above the order `k`.
unfoldable pub next_step : ℕ → List ApprovalStep → Option ApprovalStep
next_step k steps = find_if (λ s. ltb k s.step_order) (sort by_order steps)

-- What `approve` has read when its transaction begins.
pub record Reading : Type 0 where
  pub workflow : Workflow
  pub step : ApprovalStep
  pub earlier_actions : ℕ
  pub next : Option ApprovalStep
  pub review_cycle_enabled : Bool

unfoldable pub read_approve : Env → ℕ → ℕ → Db → Result Reading
unfolding resolve_review_cycle
read_approve env id user db = do
  w ← or_fail (find_workflow id db) (bad_request workflow_not_found)
  assert_valid_transition w.status pending_review_cycle
  guard (some_eq w.current_assigned_user_id user) (forbidden not_current_approver)
  s ← or_fail (current_step w (steps_of id db)) (bad_request current_step_not_found)
  let next = next_step s.step_order (steps_of id db)
  review ← (if is_some next then ok true else resolve_review_cycle env w)
  ok (record {
    workflow = w;
    step = s;
    earlier_actions = count_actions s.id db;
    next = next;
    review_cycle_enabled = review;
  })

-- The writes that both branches make first.
unfoldable pub record_approval : Env → ℕ → ApproveDto → Reading → Db → Db
record_approval env user dto r db =
    update_step r.step.id
      (λ s. record s { status = StepStatus.approved; completed_at = some env.now })
      (save_action
        (record {
          workflow_id = r.workflow.id;
          step_id = r.step.id;
          user_id = user;
          action = ActionType.approval;
          observations = dto.observations;
          attempt_number = suc r.earlier_actions;
          attachments = get_or dto.attachments [];
        })
        db)

-- The workflow after the last approval.
abbrev pub finished : List ℕ → Bool → Workflow → Workflow
finished users review w = record w {
  status = if review then pending_review_cycle else available_for_final_users;
  current_approval_step_order = none;
  current_assigned_user_id = head? users;
  final_user_ids = if is_empty users then none else some users;
  review_cycle_enabled = review;
}

step_details : ApproveDto → Reading → Details
step_details dto r =
    Details.step_done r.step.step_order dto.observations (is_last r.next) (order_of r.next)
      (length (get_or dto.attachments [])) (review_of r.next)
  where
    is_last : Option ApprovalStep → Bool
    is_last none = true
    is_last (some n) = false

    order_of : Option ApprovalStep → Option ℕ
    order_of none = none
    order_of (some n) = some n.step_order

    review_of : Option ApprovalStep → Option Bool
    review_of none = some r.review_cycle_enabled
    review_of (some n) = none

-- The branch `isLast`, in the transaction and after it.
unfoldable pub commit_last : Env → ℕ → ApproveDto → Reading → List ℕ → Db → Db
unfolding record_approval step_details
commit_last env user dto r users db =
    let w = r.workflow in
    let db = record_approval env user dto r db in
    let db = update_workflow w.id (finished users r.review_cycle_enabled) db in
    let db = record_event (event_of EventType.step_approved user none w (step_details dto r)) db in
    let db =
      record_event
        (event_of EventType.workflow_approved user none w
          (Details.approved users r.review_cycle_enabled))
        db in
    let db = emit (Message.approval_completed w.id w.org_id user users) db in
    let db = emit (Message.available_for_final_users w.id w.org_id users) db in
    if is_empty users then db else notify NotificationType.workflow_approved users w db

-- The branch with more approvers.
unfoldable pub commit_more : Env → ℕ → ApproveDto → Reading → ApprovalStep → Db → Db
unfolding record_approval step_details
commit_more env user dto r next db =
    let w = r.workflow in
    let db = record_approval env user dto r db in
    let db = update_step next.id (with_status StepStatus.pending) db in
    let db = update_workflow w.id (assigned_to next) db in
    let db =
      record_event
        (event_of EventType.step_approved user (some next.user_id) w (step_details dto r)) db in
    let db =
      emit (Message.approval_approved w.id w.org_id user r.step.step_order next.user_id) db in
    notify NotificationType.task_assigned (next.user_id ∷ []) w db

unfoldable pub commit_approve : Env → ℕ → ApproveDto → Reading → Db → Result Db
commit_approve env user dto r db = elim r.next [
  | none ↦ do users ← final_users env r.workflow; ok (commit_last env user dto r users db)
  | some next ↦ ok (commit_more env user dto r next db)
]

unfoldable pub approve : Env → ℕ → ℕ → ApproveDto → Db → Result Db
approve env id user dto db = do r ← read_approve env id user db; commit_approve env user dto r db
