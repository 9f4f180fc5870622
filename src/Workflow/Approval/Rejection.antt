-- ===== src/Workflow/Approval/Rejection.antt =====
-- What `reject` does, and what happens when a rejection and an approval read the same state.
use sgd_backend.Base.{
  ℕ, ◌≡◌, ◌⊎◌, inl, inr, Option-cases, refl, String, Bool, true, false, some, none, List,
  update_where, arith, ◌==◌, if◌then◌else◌, is_empty,
}
use sgd_backend.Workflow.Enums.{
  pending_approval, rejected, StepStatus, pending_review_cycle, available_for_final_users,
}
use sgd_backend.Workflow.Entities.{Workflow, ApprovalStep}
use sgd_backend.Workflow.Errors.{ok, err, conflict, invalid_transition}
use sgd_backend.Workflow.Store.{Db, Env, is_step, find_workflow, steps_of, count_actions}
use sgd_backend.Workflow.Store.Laws.{find_if-updated, select-update_step}
use sgd_backend.Workflow.StateMachine.{can_go, assert_valid_transition}
use sgd_backend.Workflow.Approval.{with_status}
use sgd_backend.Workflow.Approval.Approve.{
  ApproveDto, next_step, resolve_review_cycle, final_users, read_approve, approve, finished,
}
use sgd_backend.Workflow.Approval.Reject.{
  RejectReading, read_reject, commit_reject, reject, turned_down,
}
use sgd_backend.Workflow.Approval.Chain.{IsChain, current_step-IsChain}
use sgd_backend.Workflow.Approval.Turns.{approve-last}

module _ (id : ℕ) (db : Db) (w : Workflow) (s : ApprovalStep) (observations : String)
    (found : find_workflow id db ≡ some w) (c : IsChain w (steps_of id db) s) where
  abbrev pub refusal : RejectReading
  refusal = record { workflow = w; step = s; earlier_actions = count_actions s.id db }

  pub read_reject-IsChain : read_reject id s.user_id db ≡ ok refusal
  unfolding read_reject assert_valid_transition
  read_reject-IsChain = ground (arith, current_step-IsChain c, c.status, c.assigned, found)

  find_workflow-commit_reject :
      find_workflow id (commit_reject s.user_id observations refusal db) ≡ some (turned_down s.id w)
  unfolding commit_reject find_workflow
  find_workflow-commit_reject = find_if-updated id db (turned_down s.id) (λ x. refl) found

  steps_of-commit_reject :
      steps_of id (commit_reject s.user_id observations refusal db)
      ≡ update_where (is_step s.id) (with_status StepStatus.refused) (steps_of id db)
  unfolding commit_reject steps_of
  steps_of-commit_reject =
      select-update_step id s.id (with_status StepStatus.refused) (λ x. refl) db.approval_steps

  -- The assigned approver can reject at any step: the workflow is REJECTED, remembers the step and
  -- is assigned to nobody, with its other fields as before, and of the steps only this one changes, to
  -- REJECTED.
  pub reject-IsChain :
      (db' : Db) × (reject id s.user_id observations db ≡ ok db')
      × (find_workflow id db'
          ≡ some (record w {
            status = rejected;
            rejected_at_step_id = some s.id;
            current_assigned_user_id = none;
          }))
      × (steps_of id db'
          ≡ update_where
              (λ x. x.id == s.id)
              (λ x. record x { status = StepStatus.refused })
              (steps_of id db))
  unfolding reject
  reject-IsChain = (
    commit_reject s.user_id observations refusal db,
    rw read_reject-IsChain,
    find_workflow-commit_reject,
    steps_of-commit_reject,
  )

-- Where `approve` or `reject` succeeds, whatever was stored, the workflow was PENDING_APPROVAL and
-- assigned to the user who called.
pub only_assigned_decides :
    (env : Env) (id user : ℕ) (dto : ApproveDto) (observations : String) (db db' : Db)
    → (approve env id user dto db ≡ ok db') ⊎ (reject id user observations db ≡ ok db')
    → (w : Workflow) × (find_workflow id db ≡ some w)
      × (w.status ≡ pending_approval)
      × (w.current_assigned_user_id ≡ some user)
unfolding approve reject read_approve read_reject assert_valid_transition can_go
only_assigned_decides env id user dto observations db db' h =
    elim (Option-cases (find_workflow id db)) [
      | inl gone ↦ absurd (ground arith)
      | inr (w, found) ↦ elim h [
        | inl done ↦ (w, found, ground arith, ground arith)
        | inr done ↦ (w, found, ground arith, ground arith)
      ]
    ]

-- A workflow whose approval is over can no longer be rejected.
reject-finished :
    (id user : ℕ) (observations : String) (db : Db) (w : Workflow) (users : List ℕ) (review : Bool)
    → find_workflow id db ≡ some (finished users review w)
    → reject id user observations db
      ≡ err (
          conflict (
            invalid_transition
              (if review then pending_review_cycle else available_for_final_users)
              rejected))
unfolding reject read_reject assert_valid_transition
reject-finished id user observations db w users true found = rw found
reject-finished id user observations db w users false found = rw found

find_workflow-late_reject :
    (id user : ℕ) (observations : String) (r : RejectReading) (db : Db) (v : Workflow)
    → r.workflow.id ≡ v.id
    → find_workflow id db ≡ some v
    → find_workflow id (commit_reject user observations r db) ≡ some (turned_down r.step.id v)
unfolding commit_reject find_workflow
find_workflow-late_reject id user observations r db v same found =
    rw same (find_if-updated id db (turned_down r.step.id) (λ x. refl) found)

-- `reject` reads before its transaction and takes no lock. If the last approval commits between
-- the two, a rejection that began only then would be refused as an invalid transition, and yet the
-- late commit puts the approved workflow back to REJECTED with nobody assigned, while the final users
-- that the approval wrote stay.
pub late_reject_overrides :
    (env : Env) (id : ℕ) (dto : ApproveDto) (db : Db) (w : Workflow) (s : ApprovalStep)
    (observations : String) (review : Bool) (users : List ℕ)
    → find_workflow id db ≡ some w
    → IsChain w (steps_of id db) s
    → next_step s.step_order (steps_of id db) ≡ none
    → resolve_review_cycle env w ≡ ok review
    → final_users env w ≡ ok users
    → (r : RejectReading) × (between : Db) × (read_reject id s.user_id db ≡ ok r)
      × (approve env id s.user_id dto db ≡ ok between)
      × (reject id s.user_id observations between
          ≡ err (
              conflict (
                invalid_transition
                  (if review then pending_review_cycle else available_for_final_users)
                  rejected)))
      × (find_workflow id (commit_reject s.user_id observations r between)
          ≡ some (record w {
            status = rejected;
            rejected_at_step_id = some s.id;
            current_assigned_user_id = none;
            current_approval_step_order = none;
            final_user_ids = if is_empty users then none else some users;
            review_cycle_enabled = review;
          }))
late_reject_overrides env id dto db w s observations review users found c e resolved chosen =
    let (between, accepted, seen, done) =
      approve-last env id dto db w s found c review users e resolved chosen in
    (
      refusal id db w s observations found c,
      between,
      read_reject-IsChain id db w s observations found c,
      accepted,
      reject-finished id s.user_id observations between w users review seen,
      find_workflow-late_reject id s.user_id observations _ between (finished users review w) refl
          seen,
    )
