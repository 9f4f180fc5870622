-- ===== src/Workflow/Entities.antt =====
-- The rows of services/workflow-service/src/workflows/entities. A UUID is a number, compared by
-- equality only; a time is a number of milliseconds. Left out are the columns that the ORM keeps
-- itself (created_at, updated_at) and the free `metadata` columns, which no operation writes.
use sgd_backend.Base.{ℕ, String, Bool, Option, List}
use sgd_backend.Workflow.Enums.{
  WorkflowStatus, StepStatus, ActionType, CycleStatus, AdminStepStatus, AttachmentType,
}

-- A stored file: `ApprovalAttachment`, `WorkflowFileDto` and the other attachment DTOs.
pub record FileInfo : Type 0 where
  pub storage_key : String
  pub original_name : String
  pub mime_type : String
  pub file_size_bytes : Option ℕ

-- `typologyOrgStructure` of the metadata of a main document.
pub record OrgStructure : Type 0 where
  pub cargo_id : Option ℕ
  pub area_id : Option ℕ
  pub departamento_id : Option ℕ

-- `mainDocumentMetadata`
pub record DocumentMetadata : Type 0 where
  pub file : FileInfo
  pub typology_org_structure : Option OrgStructure

pub record Workflow : Type 0 where
  pub id : ℕ
  pub org_id : ℕ
  pub title : String
  pub description : Option String
  pub typology_id : String
  pub typology_code : String
  pub typology_version : String
  pub typology_name : String
  pub review_cycle_enabled : Bool
  pub main_document_id : Option String
  pub main_document_validated : Bool
  pub main_document_metadata : Option DocumentMetadata
  pub status : WorkflowStatus
  pub current_approval_step_order : Option ℕ
  pub rejected_at_step_id : Option ℕ
  pub current_assigned_user_id : Option ℕ
  pub final_user_ids : Option (List ℕ)
  pub active_admin_cycle_id : Option ℕ
  pub created_by : ℕ
  pub closed_by : Option ℕ
  pub closed_at : Option ℕ
  pub cancelled_by : Option ℕ
  pub cancelled_at : Option ℕ
  pub deleted_at : Option ℕ

-- `WorkflowApprovalStep`
pub record ApprovalStep : Type 0 where
  pub id : ℕ
  pub workflow_id : ℕ
  pub user_id : ℕ
  pub step_order : ℕ
  pub status : StepStatus
  pub completed_at : Option ℕ

-- `WorkflowApprovalAction`
pub record ApprovalAction : Type 0 where
  pub workflow_id : ℕ
  pub step_id : ℕ
  pub user_id : ℕ
  pub action : ActionType
  pub observations : Option String
  pub attempt_number : ℕ
  pub attachments : List FileInfo

-- `WorkflowAdminCycle`
pub record AdminCycle : Type 0 where
  pub id : ℕ
  pub workflow_id : ℕ
  pub cycle_number : ℕ
  pub initiated_by : ℕ
  pub status : CycleStatus
  pub current_step_order : Option ℕ
  pub completed_at : Option ℕ
  pub allowed_optional_reviewer_ids : List ℕ

-- `WorkflowAdminStep`
pub record AdminStep : Type 0 where
  pub id : ℕ
  pub cycle_id : ℕ
  pub workflow_id : ℕ
  pub user_id : ℕ
  pub step_order : ℕ
  pub status : AdminStepStatus
  pub is_optional : Bool
  pub inserted_by_step_id : Option ℕ
  pub completed_at : Option ℕ

-- `WorkflowAdminAttachment`
pub record AdminAttachment : Type 0 where
  pub workflow_id : ℕ
  pub cycle_id : ℕ
  pub step_id : ℕ
  pub uploaded_by : ℕ
  pub document_id : String
  pub file : FileInfo

-- `WorkflowAttachment`
pub record Attachment : Type 0 where
  pub workflow_id : ℕ
  pub uploaded_by : ℕ
  pub document_id : String
  pub file : FileInfo
  pub attachment_type : AttachmentType
  pub note_id : Option ℕ

-- `WorkflowNote`
pub record Note : Type 0 where
  pub id : ℕ
  pub workflow_id : ℕ
  pub cycle_id : Option ℕ
  pub admin_step_id : Option ℕ
  pub created_by : ℕ
  pub content : String
