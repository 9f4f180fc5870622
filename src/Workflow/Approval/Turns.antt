-- ===== src/Workflow/Approval/Turns.antt =====
-- What one call of `approve` does in a chain of approvers.
use sgd_backend.Base.{
  ℕ, ◌≡◌, refl, ◌∙◌, true, some, none, Bool, List, [], ◌∷◌, All, update_where, arith, if◌then◌else◌,
  head?, is_empty,
}
use sgd_backend.Workflow.Enums.{StepStatus, pending_review_cycle, available_for_final_users}
use sgd_backend.Workflow.Entities.{Workflow, ApprovalStep}
use sgd_backend.Workflow.Errors.{ok}
use sgd_backend.Workflow.Store.{Db, Env, is_step, find_workflow, steps_of, count_actions}
use sgd_backend.Workflow.Store.Laws.{find_if-updated, select-update_step}
use sgd_backend.Workflow.StateMachine.{assert_valid_transition}
use sgd_backend.Workflow.Approval.{with_status, assigned_to}
use sgd_backend.Workflow.Approval.Approve.{
  ApproveDto, Reading, next_step, read_approve, commit_more, commit_last, commit_approve, approve,
  resolve_review_cycle, final_users, finished,
}
use sgd_backend.Workflow.Approval.Chain.{
  IsChain, current_step-IsChain, IsChain-advance, advance, approved_at, All-approved,
}

module _ (env : Env) (id : ℕ) (dto : ApproveDto) (db : Db) (w : Workflow) (s : ApprovalStep)
    (found : find_workflow id db ≡ some w) (c : IsChain w (steps_of id db) s) where
  abbrev pub reading : (next : ApprovalStep) → Reading
  reading n = record {
    workflow = w;
    step = s;
    earlier_actions = count_actions s.id db;
    next = some n;
    review_cycle_enabled = true;
  }

  -- What `approve` has read at the last step.
  abbrev last_reading : Bool → Reading
  last_reading review = record {
    workflow = w;
    step = s;
    earlier_actions = count_actions s.id db;
    next = none;
    review_cycle_enabled = review;
  }

  read_approve-last :
      (review : Bool)
      → next_step s.step_order (steps_of id db) ≡ none
      → resolve_review_cycle env w ≡ ok review
      → read_approve env id s.user_id db ≡ ok (last_reading review)
  unfolding read_approve assert_valid_transition
  read_approve-last review e r = ground (arith, current_step-IsChain c, c.status, c.assigned, found)

  read_approve-next :
      (n : ApprovalStep)
      → next_step s.step_order (steps_of id db) ≡ some n
      → read_approve env id s.user_id db ≡ ok (reading n)
  unfolding read_approve assert_valid_transition
  read_approve-next n e = ground (arith, current_step-IsChain c, c.status, c.assigned, found)

  pub steps_of-commit_more :
      (n : ApprovalStep)
      → steps_of id (commit_more env s.user_id dto (reading n) n db)
        ≡ advance env.now s n (steps_of id db)
  unfolding commit_more steps_of advance
  steps_of-commit_more n =
      select-update_step id n.id (with_status StepStatus.pending) (λ x. refl) _
      ∙ rw (select-update_step id s.id (approved_at env.now) (λ x. refl) db.approval_steps)

  pub find_workflow-commit_more :
      (n : ApprovalStep)
      → find_workflow id (commit_more env s.user_id dto (reading n) n db) ≡ some (assigned_to n w)
  unfolding commit_more find_workflow
  find_workflow-commit_more n = find_if-updated id db (assigned_to n) (λ x. refl) found

  pub approve-eq-commit_more :
      (n : ApprovalStep)
      → next_step s.step_order (steps_of id db) ≡ some n
      → approve env id s.user_id dto db ≡ ok (commit_more env s.user_id dto (reading n) n db)
  unfolding approve commit_approve
  approve-eq-commit_more n e = rw (read_approve-next n e)

  -- While more approvers follow, the approval by the assigned user is accepted: the workflow waits
  -- for the user of the next step in order, whose step is pending; the earlier steps are approved
  -- and the later ones still wait.
  pub approve-next :
      (n : ApprovalStep)
      → next_step s.step_order (steps_of id db) ≡ some n
      → (db' : Db) × (approve env id s.user_id dto db ≡ ok db')
        × (find_workflow id db' ≡ some (assigned_to n w))
        × IsChain (assigned_to n w) (steps_of id db') (with_status StepStatus.pending n)
  approve-next n e = (
    commit_more env s.user_id dto (reading n) n db,
    approve-eq-commit_more n e,
    find_workflow-commit_more n,
    rw (steps_of-commit_more n) (IsChain-advance env.now c e),
  )

  find_workflow-commit_last :
      (review : Bool) (users : List ℕ)
      → find_workflow id (commit_last env s.user_id dto (last_reading review) users db)
        ≡ some (finished users review w)
  unfolding commit_last find_workflow
  find_workflow-commit_last review [] = find_if-updated id db (finished [] review) (λ x. refl) found
  find_workflow-commit_last review (u ∷ us) =
      find_if-updated id db (finished (u ∷ us) review) (λ x. refl) found

  steps_of-commit_last :
      (review : Bool) (users : List ℕ)
      → steps_of id (commit_last env s.user_id dto (last_reading review) users db)
        ≡ update_where (is_step s.id) (approved_at env.now) (steps_of id db)
  unfolding commit_last steps_of
  steps_of-commit_last review [] =
      select-update_step id s.id (approved_at env.now) (λ x. refl) db.approval_steps
  steps_of-commit_last review (u ∷ us) =
      select-update_step id s.id (approved_at env.now) (λ x. refl) db.approval_steps

  -- The last approval is accepted when document-service answers and the final users are known:
  -- every step is approved, the workflow leaves PENDING_APPROVAL for PENDING_REVIEW_CYCLE or, with
  -- the review cycle disabled, for AVAILABLE_FOR_FINAL_USERS, it has no current step, it keeps the
  -- final users and the review mode, it is assigned to the first final user, or to nobody where there
  -- is none, and its other fields stay.
  pub approve-last :
      (review : Bool) (users : List ℕ)
      → next_step s.step_order (steps_of id db) ≡ none
      → resolve_review_cycle env w ≡ ok review
      → final_users env w ≡ ok users
      → (db' : Db) × (approve env id s.user_id dto db ≡ ok db')
        × (find_workflow id db'
            ≡ some (record w {
              status = if review then pending_review_cycle else available_for_final_users;
              current_approval_step_order = none;
              current_assigned_user_id = head? users;
              final_user_ids = if is_empty users then none else some users;
              review_cycle_enabled = review;
            }))
        × All (λ x. x.status ≡ StepStatus.approved) (steps_of id db')
  unfolding approve commit_approve
  approve-last review users e r f = (
    commit_last env s.user_id dto (last_reading review) users db,
    rw (read_approve-last review e r) (rw f),
    find_workflow-commit_last review users,
    rw (steps_of-commit_last review users) (All-approved env.now c e),
  )
