-- ===== src/Workflow/Errors.antt =====
-- The exceptions of the services as values: the HTTP class of NestJS and the reason. The wording
-- of the messages is left out.
pub mod Laws
use sgd_backend.Base.{Bool, true, false, Option, none, some}
use sgd_backend.Workflow.Enums.{WorkflowStatus, AdminStepStatus}

pub data Reason : Type 0 where
  workflow_not_found not_the_creator no_approvers document_not_validated : Reason
  not_current_approver current_step_not_found rejected_step_missing rejected_step_not_found : Reason
  final_users_unresolved orders_not_consecutive duplicate_orders review_cycle_disabled : Reason
  active_cycle_exists not_a_final_user cycle_not_found cycle_not_in_progress : Reason
  step_not_found not_assigned optional_cannot_forward reviewer_not_allowed : Reason
  next_reviewer_is_same unique_violation cycle_not_completed not_the_initiator : Reason
  empty_note only_draft cannot_delete service_failure : Reason
  invalid_transition : WorkflowStatus → WorkflowStatus → Reason
  wrong_status : WorkflowStatus → Reason
  step_not_pending : AdminStepStatus → Reason

-- `BadRequestException` (400), `ForbiddenException` (403), `NotFoundException` (404),
-- `ConflictException` (409), and any failure that ends as 5xx.
pub data Error : Type 0 where
  bad_request forbidden not_found conflict internal : Reason → Error

-- What a method answers: it throws, or it goes on with a value.
pub data Result {ℓ} (Answer : Type ℓ) : Type ℓ where
  err : Error → Result Answer
  ok : Answer → Result Answer

-- `if (!test) throw e`
abbrev pub guard : (test : Bool) (thrown : Error) → Result (Unit {0})
guard false thrown = err thrown
guard true thrown = ok tt

-- `if (!row) throw e`
abbrev pub or_fail {ℓ} : {Row : Type ℓ} → Option Row → Error → Result Row
or_fail (some row) thrown = ok row
or_fail none thrown = err thrown

-- One statement of a method after the other.
infixl 5 ◌>>◌ ◌>>=◌
abbrev pub ◌>>=◌ {ℓ κ} :
    {Answer : Type ℓ} {Next : Type κ} → Result Answer → (Answer → Result Next) → Result Next
err thrown >>= next = err thrown
ok answer >>= next = next answer

abbrev pub ◌>>◌ {κ} : {Next : Type κ} → Result (Unit {0}) → Result Next → Result Next
check >> next = check >>= λ passed. next
