-- ===== src/Workflow/Tests/Histories.antt =====
-- A history: the workflow is approved by both approvers, and its creator tries to start it again.
use sgd_backend.Base.{◌≡◌, ◌⊎◌, Distinct, refl, none, List, [], ◌∷◌, Memᴰ, find_if}
use sgd_backend.Workflow.Enums.{rejected}
use sgd_backend.Workflow.Entities.{Workflow}
use sgd_backend.Workflow.Store.{Env, find_workflow, find_in_org}
use sgd_backend.Workflow.StateMachine.{can_go, assert_valid_transition}
use sgd_backend.Workflow.Approval.{read_start, start_approval}
use sgd_backend.Workflow.AdminCycle.Finish.{own_workflow, cancel_workflow}
use sgd_backend.Workflow.StateMachine.Graph.{◌⟶◌, is_rejected}
use sgd_backend.Workflow.Lifecycle.Moves.{by_workflow_id}
use sgd_backend.Workflow.Lifecycle.{Call, starts, approves, cancels, skips, run, after, run_all}
use sgd_backend.Workflow.Lifecycle.Histories.{run_all_by_edges, run_all-terminal}
use sgd_backend.Workflow.Tests.{env, workflow_in, db_of, begun_row, begun_db, no_comment}

abbrev history : List (Env × Call)
history = (env, approves 1 21 no_comment) ∷ (env, approves 1 22 no_comment) ∷ (env, starts 1 7) ∷ []

run_all_by_edges_example :
    let before = run_all history begun_db in
    let next = after before (run env (skips 1 31 5) before) in
    (row : Workflow) × (row' : Workflow) × Memᴰ row before.workflows
    × (row.id ≡ 1)
    × Memᴰ row' next.workflows
    × (row'.id ≡ 1)
    × ((row'.status ≡ row.status) ⊎ (row.status ⟶ row'.status))
    × Distinct by_workflow_id next.workflows
run_all_by_edges_example =
    run_all_by_edges history env (skips 1 31 5) begun_db begun_row (tt, tt) (Memᴰ.head refl)

abbrev refused_row : Workflow
refused_row = workflow_in rejected none none

abbrev attempts : List (Env × Call)
attempts = (env, starts 1 7) ∷ (env, cancels 1 31 5 "no") ∷ []

still_stored : Memᴰ refused_row (run_all attempts (db_of refused_row [])).workflows
unfolding run_all run start_approval read_start find_workflow find_if cancel_workflow own_workflow
    find_in_org assert_valid_transition can_go
still_stored = Memᴰ.head refl

run_all-terminal_example : refused_row.status ≡ refused_row.status
run_all-terminal_example =
    run_all-terminal attempts (db_of refused_row []) refused_row refused_row (tt, tt)
      (Memᴰ.head refl) is_rejected still_stored refl
