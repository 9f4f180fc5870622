-- ===== src/Workflow/Enums.antt =====
-- services/workflow-service/src/workflows/entities/enums.ts
use mathlib.Core.Bool.{Bool, true, false}
use mathlib.Core.Path.{◌≡◌}
use mathlib.Core.Logic.{◌↔◌}
use native.Mathlib.Omega.{arith}

-- `WorkflowStatus`
pub data WorkflowStatus : Type 0 where
  draft pending_approval returned_to_creator rejected pending_review_cycle : WorkflowStatus
  available_for_final_users admin_cycle_in_progress closed cancelled : WorkflowStatus

pub WorkflowStatus-discrete : Discrete WorkflowStatus
WorkflowStatus-discrete = hlevel

-- `ApprovalStepStatus`
pub data StepStatus : Type 0 where
  waiting pending approved refused : StepStatus

-- `ApprovalActionType`
pub data ActionType : Type 0 where
  approval refusal : ActionType

-- `AdminCycleStatus`
pub data CycleStatus : Type 0 where
  in_progress completed : CycleStatus

-- `AdminStepStatus`
pub data AdminStepStatus : Type 0 where
  idle active done : AdminStepStatus

-- `AttachmentType`
pub data AttachmentType : Type 0 where
  main_document supporting management : AttachmentType

-- `TimelineEventType`
pub data EventType : Type 0 where
  workflow_created workflow_updated approval_started step_approved step_rejected : EventType
  workflow_returned_to_creator workflow_resubmitted workflow_approved attachment_added : EventType
  note_added admin_cycle_started admin_step_completed admin_cycle_completed : EventType
  workflow_closed workflow_cancelled : EventType

-- `a === b` on two statuses.
abbrev pub same_status : WorkflowStatus → WorkflowStatus → Bool
same_status draft draft = true
same_status pending_approval pending_approval = true
same_status returned_to_creator returned_to_creator = true
same_status rejected rejected = true
same_status pending_review_cycle pending_review_cycle = true
same_status available_for_final_users available_for_final_users = true
same_status admin_cycle_in_progress admin_cycle_in_progress = true
same_status closed closed = true
same_status cancelled cancelled = true
same_status _ _ = false

abbrev pub is_pending : StepStatus → Bool
is_pending pending = true
is_pending _ = false

abbrev pub is_active : AdminStepStatus → Bool
is_active active = true
is_active _ = false

abbrev pub is_in_progress : CycleStatus → Bool
is_in_progress in_progress = true
is_in_progress completed = false

pub same_status_iff : (s t : WorkflowStatus) → (same_status s t ≡ true) ↔ (s ≡ t)
same_status_iff s t = ground arith
