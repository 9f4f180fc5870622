-- ===== src/Workflow/Tests.antt =====
-- A small database, on which the theorems are put to work.
mod Approvals
mod Cycles
mod Machine
mod Reviews
mod Keys
mod Begin
mod Remove
mod Histories
use sgd_backend.Base.{ℕ, suc, true, some, none, false, Option, List, [], ◌∷◌}
use sgd_backend.Workflow.Enums.{
  WorkflowStatus, pending_approval, admin_cycle_in_progress, StepStatus, AdminStepStatus,
  CycleStatus,
}
use sgd_backend.Workflow.Entities.{Workflow, ApprovalStep, AdminCycle, AdminStep}
use sgd_backend.Base.Actions.{answer}
use sgd_backend.Workflow.Store.{Db, Env}
use sgd_backend.Workflow.Approval.Approve.{ApproveDto}

abbrev pub uuids : ℕ → ℕ
uuids n = n

abbrev pub env : Env
env = record {
  now = 1000;
  uuid = uuids;
  review_cycle_enabled = λ org typology. answer true;
  users_by_position = λ org position. answer [];
}

abbrev pub workflow_in : WorkflowStatus → (step user : Option ℕ) → Workflow
workflow_in status step user = record {
  id = 1;
  org_id = 5;
  title = "Contrato";
  description = none;
  typology_id = "t";
  typology_code = "T-1";
  typology_version = "1";
  typology_name = "Contratos";
  review_cycle_enabled = true;
  main_document_id = some "d";
  main_document_validated = true;
  main_document_metadata = none;
  status = status;
  current_approval_step_order = step;
  rejected_at_step_id = none;
  current_assigned_user_id = user;
  final_user_ids = some (31 ∷ 32 ∷ []);
  active_admin_cycle_id = none;
  created_by = 7;
  closed_by = none;
  closed_at = none;
  cancelled_by = none;
  cancelled_at = none;
  deleted_at = none;
}

abbrev pub step : (id user order : ℕ) → StepStatus → ApprovalStep
step id user order status = record {
  id = id;
  workflow_id = 1;
  user_id = user;
  step_order = order;
  status = status;
  completed_at = none;
}

abbrev pub db_of : Workflow → List ApprovalStep → Db
db_of w steps = record {
  workflows = w ∷ [];
  approval_steps = steps;
  actions = [];
  cycles = [];
  admin_steps = [];
  admin_attachments = [];
  attachments = [];
  notes = [];
  timeline = [];
  outbox = [];
  saved = 0;
}

-- Two approvers, 21 and 22; the first has to decide.
abbrev pub begun_row : Workflow
begun_row = workflow_in pending_approval (some 1) (some 21)

abbrev pub first : ApprovalStep
first = step 11 21 1 StepStatus.pending

abbrev pub second : ApprovalStep
second = step 12 22 2 StepStatus.waiting

abbrev pub begun_db : Db
begun_db = db_of begun_row (first ∷ second ∷ [])

abbrev pub no_comment : ApproveDto
no_comment = record { observations = none; attachments = none }

-- The same workflow before its approval, and at its last step.
abbrev pub draft_row : Workflow
draft_row = workflow_in WorkflowStatus.draft none none

abbrev pub draft_db : Db
draft_db = db_of draft_row (step 11 21 1 StepStatus.waiting ∷ second ∷ [])

abbrev pub last_row : Workflow
last_row = workflow_in pending_approval (some 2) (some 22)

abbrev pub last : ApprovalStep
last = step 12 22 2 StepStatus.pending

abbrev pub last_db : Db
last_db = db_of last_row (step 11 21 1 StepStatus.approved ∷ last ∷ [])

-- The same workflow in a review cycle of three steps; user 41 has to complete the first.
abbrev pub reviewed_row : Workflow
reviewed_row = record (workflow_in admin_cycle_in_progress none (some 41)) {
  active_admin_cycle_id = some 60;
}

abbrev pub review : AdminCycle
review = record {
  id = 60;
  workflow_id = 1;
  cycle_number = 1;
  initiated_by = 31;
  status = CycleStatus.in_progress;
  current_step_order = some 1;
  completed_at = none;
  allowed_optional_reviewer_ids = 51 ∷ [];
}

abbrev pub admin_step : (id user order : ℕ) → AdminStepStatus → AdminStep
admin_step id user order status = record {
  id = id;
  cycle_id = 60;
  workflow_id = 1;
  user_id = user;
  step_order = order;
  status = status;
  is_optional = false;
  inserted_by_step_id = none;
  completed_at = none;
}

abbrev pub review_of : List AdminStep → Db
review_of steps = record (db_of reviewed_row []) {
  cycles = review ∷ [];
  admin_steps = steps;
  saved = 100;
}
