-- ===== src/Workflow/Store.antt =====
-- The database of workflow-service, its messages to Kafka, and what the services get from outside.
pub mod Laws
use sgd_backend.Base.{
  ℕ, String, Bool, true, false, ◌&&◌, not, Option, none, some, is_some, List, [], ◌∷◌, ◌++◌, ◌==◌,
  length, find_if, update_where, select,
}
use sgd_backend.Base.Actions.{Reply}
use sgd_backend.Workflow.Enums.{EventType}
use sgd_backend.Workflow.Entities.{
  FileInfo, OrgStructure, Workflow, ApprovalStep, ApprovalAction, AdminCycle, AdminStep,
  AdminAttachment, Attachment, Note,
}

-- The `metadata` of a timeline event.
pub data Details : Type 0 where
  started : (first_approver step_order : ℕ) → Details
  step_done :
      (step_order : ℕ) (observations : Option String) (is_last : Bool) (next_order : Option ℕ)
      (attachments : ℕ) (review_cycle_enabled : Option Bool)
      → Details
  approved : (final_users : List ℕ) (review_cycle_enabled : Bool) → Details
  refused : (step_order : ℕ) (observations : String) (refused_by : ℕ) → Details
  resubmitted : (step_order : ℕ) (observations : Option String) (document_updated : Bool) → Details
  cycle_started : (cycle number first_user : ℕ) → Details
  admin_step_done : (cycle step step_order : ℕ) (has_notes has_attachments is_last : Bool) → Details
  cycle_completed : (cycle number : ℕ) → Details
  forwarded :
      (cycle step step_order reviewer inserted : ℕ) (has_notes has_attachments : Bool) → Details
  skipped : (skipped_by : ℕ) → Details
  noted : (content : Option String) (attachments : ℕ) → Details
  closing : (notes : Option String) (closed_by : ℕ) → Details
  cancelling : (reason : String) (cancelled_by : ℕ) → Details

-- `RecordEventParams`, without the description for people.
pub record EventParams : Type 0 where
  pub workflow_id : ℕ
  pub org_id : ℕ
  pub event_type : EventType
  pub actor_id : ℕ
  pub target_user_id : Option ℕ
  pub resource_name : String
  pub metadata : Details

-- `WorkflowTimeline`
pub record TimelineEvent : Type 0 where
  pub workflow_id : ℕ
  pub event_type : EventType
  pub actor_id : ℕ
  pub target_user_id : Option ℕ
  pub metadata : Details

-- The `type` of a notification.
pub data NotificationType : Type 0 where
  task_assigned workflow_approved workflow_rejected admin_cycle_task : NotificationType
  admin_cycle_done workflow_closed workflow_cancelled : NotificationType

-- The payload of `TOPICS.NOTIFICATION_SEND`.
pub record Notification : Type 0 where
  pub kind : NotificationType
  pub recipients : List ℕ
  pub org_id : ℕ
  pub workflow_id : ℕ
  pub workflow_title : String

-- What `emitSafe` is given, a constructor for each topic; time stamps and wordings are left out.
pub data Message : Type 0 where
  audit_log : EventParams → Message
  notification_send : Notification → Message
  approval_started : (workflow org first_approver created_by : ℕ) → Message
  approval_approved : (workflow org approved_by step_order next_approver : ℕ) → Message
  approval_completed : (workflow org final_approver : ℕ) (final_users : List ℕ) → Message
  available_for_final_users : (workflow org : ℕ) (final_users : List ℕ) → Message
  approval_rejected :
      (workflow org rejected_by step_order : ℕ) (observations : String) (attempt : ℕ) → Message
  workflow_resubmitted : (workflow org resubmitted_by target_approver : ℕ) → Message
  admin_cycle_started : (workflow cycle number initiated_by first_user : ℕ) → Message
  admin_cycle_step_completed :
      (workflow cycle step completed_by : ℕ) (next_user : Option ℕ)
      (has_notes has_attachments : Bool)
      → Message
  admin_cycle_completed : (workflow cycle number returned_to : ℕ) → Message
  closed : (workflow org closed_by notify_creator : ℕ) → Message
  cancelled :
      (workflow org cancelled_by : ℕ) (reason : Option String) (notify_creator : Option ℕ) → Message

-- `saved` counts the rows that were given an id; `outbox` holds the messages, oldest first.
pub record Db : Type 0 where
  pub workflows : List Workflow
  pub approval_steps : List ApprovalStep
  pub actions : List ApprovalAction
  pub cycles : List AdminCycle
  pub admin_steps : List AdminStep
  pub admin_attachments : List AdminAttachment
  pub attachments : List Attachment
  pub notes : List Note
  pub timeline : List TimelineEvent
  pub outbox : List Message
  pub saved : ℕ

-- What an operation gets from outside: the clock, the id that the database gives to the n-th row,
-- and the answers of document-service and user-service at the time of the call.
pub record Env : Type 0 where
  pub now : ℕ
  pub uuid : ℕ → ℕ
  pub review_cycle_enabled : ℕ → String → Reply Bool
  pub users_by_position : ℕ → OrgStructure → Reply (List ℕ)

-- `findOne({ where: { id } })`; a row with `deletedAt` is not found.
abbrev pub has_id : ℕ → Workflow → Bool
has_id id w = w.id == id

abbrev pub is_live : ℕ → Workflow → Bool
is_live id w = w.id == id && not (is_some w.deleted_at)

unfoldable pub find_workflow : ℕ → Db → Option Workflow
find_workflow id db = find_if (is_live id) db.workflows

-- `findOne({ where: { id, orgId } })`
unfoldable pub find_in_org : ℕ → ℕ → Db → Option Workflow
find_in_org id org db = find_if (λ w. is_live id w && w.org_id == org) db.workflows

-- `relations: ['approvalSteps']`
abbrev pub in_workflow : ℕ → ApprovalStep → Bool
in_workflow id s = s.workflow_id == id

unfoldable pub steps_of : ℕ → Db → List ApprovalStep
steps_of id db = select (in_workflow id) db.approval_steps

-- `manager.update(Workflow, id, …)`
abbrev pub update_workflow : ℕ → (Workflow → Workflow) → Db → Db
update_workflow id f db = record db { workflows = update_where (has_id id) f db.workflows }

-- `manager.update(WorkflowApprovalStep, id, …)`
abbrev pub is_step : ℕ → ApprovalStep → Bool
is_step id s = s.id == id

abbrev pub update_step : ℕ → (ApprovalStep → ApprovalStep) → Db → Db
update_step id f db = record db { approval_steps = update_where (is_step id) f db.approval_steps }

-- `manager.save(WorkflowApprovalAction, …)`
abbrev pub save_action : ApprovalAction → Db → Db
save_action a db = record db { actions = db.actions ++ a ∷ [] }

-- `actionRepo.count({ where: { stepId } })`
unfoldable pub count_actions : ℕ → Db → ℕ
count_actions step db = length (select (λ a. a.step_id == step) db.actions)

-- `kafkaProducer.emitSafe(topic, payload)`
abbrev pub emit : Message → Db → Db
emit m db = record db { outbox = db.outbox ++ m ∷ [] }

-- `timelineService.record(params)`: the row, and the event for audit-service.
abbrev pub record_event : EventParams → Db → Db
record_event p db = emit (audit_log p) (record db {
  timeline =
      db.timeline
      ++ record {
        workflow_id = p.workflow_id;
        event_type = p.event_type;
        actor_id = p.actor_id;
        target_user_id = p.target_user_id;
        metadata = p.metadata;
      }
        ∷ [];
})
