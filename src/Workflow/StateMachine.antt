-- ===== src/Workflow/StateMachine.antt =====
-- services/workflow-service/src/workflows/workflow-state-machine.ts
pub mod Graph
use sgd_backend.Base.{Bool, false, ◌||◌, List, [], ◌∷◌}
use sgd_backend.Workflow.Enums.{
  WorkflowStatus, draft, pending_approval, returned_to_creator, rejected, pending_review_cycle,
  available_for_final_users, admin_cycle_in_progress, closed, cancelled, same_status,
}
use sgd_backend.Workflow.Errors.{Result, guard, conflict, invalid_transition}

-- `VALID_TRANSITIONS`
unfoldable pub valid_transitions : WorkflowStatus → List WorkflowStatus
valid_transitions draft = pending_approval ∷ []
valid_transitions pending_approval =
    pending_review_cycle ∷ available_for_final_users ∷ rejected ∷ []
valid_transitions returned_to_creator = pending_approval ∷ []
valid_transitions rejected = []
valid_transitions pending_review_cycle = admin_cycle_in_progress ∷ available_for_final_users ∷ []
valid_transitions available_for_final_users = admin_cycle_in_progress ∷ closed ∷ cancelled ∷ []
valid_transitions admin_cycle_in_progress = available_for_final_users ∷ []
valid_transitions closed = []
valid_transitions cancelled = []

-- `statuses.includes(status)`
abbrev pub includes_status : List WorkflowStatus → WorkflowStatus → Bool
includes_status [] t = false
includes_status (s ∷ ss) t = same_status s t || includes_status ss t

unfoldable pub can_go : WorkflowStatus → WorkflowStatus → Bool
unfolding valid_transitions
can_go current next = includes_status (valid_transitions current) next

unfoldable pub assert_valid_transition : WorkflowStatus → WorkflowStatus → Result (Unit {0})
unfolding can_go
assert_valid_transition current next =
    guard (can_go current next) (conflict (invalid_transition current next))
