-- ===== src/Workflow/StateMachine/Graph.antt =====
-- The transitions of workflow-state-machine.ts as a graph: its doc comment lists the same edges.
use sgd_backend.Base.{◌≡◌, refl, ◌↔◌, true, arith}
use sgd_backend.Workflow.Enums.{
  WorkflowStatus, draft, pending_approval, returned_to_creator, rejected, pending_review_cycle,
  available_for_final_users, admin_cycle_in_progress, closed, cancelled,
}
use sgd_backend.Workflow.Errors.{ok}
use sgd_backend.Workflow.StateMachine.{can_go, assert_valid_transition}

-- An edge for each line of the table in the doc comment.
infix 40 ◌⟶◌ ◌⟶*◌
pub data ◌⟶◌ : WorkflowStatus → WorkflowStatus → Type 0 where
  start : draft ⟶ pending_approval
  approve : pending_approval ⟶ pending_review_cycle
  approve_directly : pending_approval ⟶ available_for_final_users
  reject : pending_approval ⟶ rejected
  resubmit : returned_to_creator ⟶ pending_approval
  begin_review : pending_review_cycle ⟶ admin_cycle_in_progress
  skip_review : pending_review_cycle ⟶ available_for_final_users
  begin_again : available_for_final_users ⟶ admin_cycle_in_progress
  close : available_for_final_users ⟶ closed
  cancel : available_for_final_users ⟶ cancelled
  finish_review : admin_cycle_in_progress ⟶ available_for_final_users

pub ruleset edges = (
  start, approve, approve_directly, reject, resubmit, begin_review, skip_review, begin_again, close,
  cancel, finish_review,
)

pub data ◌⟶*◌ : WorkflowStatus → WorkflowStatus → Type 0 where
  here : {s : WorkflowStatus} → s ⟶* s
  then : {s t u : WorkflowStatus} → s ⟶ t → t ⟶* u → s ⟶* u

can_go_sound : (s t : WorkflowStatus) → can_go s t ≡ true → s ⟶ t
unfolding can_go
can_go_sound s t h = grind (arith, edges)

can_go_complete : {s t : WorkflowStatus} → s ⟶ t → can_go s t ≡ true
unfolding can_go
can_go_complete start = refl
can_go_complete _ = refl

pub assert_valid_transition_sound :
    (s t : WorkflowStatus) → assert_valid_transition s t ≡ ok tt → s ⟶ t
unfolding assert_valid_transition
assert_valid_transition_sound s t h = can_go_sound s t (ground arith)

-- `assertValidTransition` lets exactly the documented edges pass.
pub assert_valid_transition_iff :
    (s t : WorkflowStatus) → (assert_valid_transition s t ≡ ok tt) ↔ (s ⟶ t)
unfolding assert_valid_transition
assert_valid_transition_iff s t = (assert_valid_transition_sound s t, λ e. rw (can_go_complete e))

-- The terminal statuses named in the doc comment.
pub data IsTerminal : WorkflowStatus → Type 0 where
  is_rejected : IsTerminal rejected
  is_closed : IsTerminal closed
  is_cancelled : IsTerminal cancelled

no_edge_from : {s t : WorkflowStatus} → IsTerminal s → ¬ (s ⟶ t)
no_edge_from is_rejected e = elim e [ ]
no_edge_from is_closed e = elim e [ ]
no_edge_from is_cancelled e = elim e [ ]

pub ⟶*-terminal : {s t : WorkflowStatus} → IsTerminal s → s ⟶* t → t ≡ s
⟶*-terminal h here = refl
⟶*-terminal h (then e r) = absurd (no_edge_from h e)
