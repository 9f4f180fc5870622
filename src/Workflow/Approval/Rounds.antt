-- ===== src/Workflow/Approval/Rounds.antt =====
-- The whole approval: each approver approves in turn, until nobody is left.
use sgd_backend.Base.{
  ℕ, zero, suc, ◌≡◌, refl, sym, ap, ◌∙◌, Bool, some, none, List, ◌∷◌, All, head?, sort, sort-All,
  find_if-none, count_above, count_above-update_where, count_above-zero, count_above-next,
  Option-cases, inl, inr, arith, if◌then◌else◌,
}
use sgd_backend.Workflow.Enums.{pending_review_cycle, available_for_final_users, StepStatus}
use sgd_backend.Workflow.Entities.{Workflow, ApprovalStep}
use sgd_backend.Workflow.Errors.{
  Result, ok, ◌>>=◌, or_fail, bad_request, forbidden, workflow_not_found, not_current_approver,
}
use sgd_backend.Base.Actions.{answer}
use sgd_backend.Workflow.Store.{Db, Env, find_workflow, steps_of}
use sgd_backend.Workflow.Approval.{by_order, with_status, assigned_to}
use sgd_backend.Workflow.Approval.Approve.{
  ApproveDto, next_step, approve, resolve_review_cycle, final_users, commit_more,
}
use sgd_backend.Workflow.Approval.Chain.{
  IsChain, advance, next_step-Memᴰ, next_step-lt, next_step-least, IsChain-advance,
}
use sgd_backend.Workflow.Approval.Turns.{
  reading, approve-last, approve-eq-commit_more, steps_of-commit_more, find_workflow-commit_more,
}

-- `k` calls of `approve`, each by the user who is assigned at the time.
unfoldable pub approve_in_turn : Env → ℕ → ApproveDto → ℕ → Db → Result Db
approve_in_turn env id dto zero db = ok db
approve_in_turn env id dto (suc k) db = do
  w ← or_fail (find_workflow id db) (bad_request workflow_not_found)
  user ← or_fail w.current_assigned_user_id (forbidden not_current_approver)
  later ← approve env id user dto db
  approve_in_turn env id dto k later

-- How many approvers come after the step.
abbrev pub left_after : ApprovalStep → List ApprovalStep → ℕ
left_after s steps = count_above by_order s.step_order steps

left_after-advance :
    {w : Workflow} {steps : List ApprovalStep} {s n : ApprovalStep} (now : ℕ)
    → IsChain w steps s
    → next_step s.step_order steps ≡ some n
    → left_after s steps ≡ suc (left_after n (advance now s n steps))
unfolding advance
left_after-advance {steps} {s} {n} now c e =
    count_above-next by_order s.step_order n steps c.orders (next_step-Memᴰ s.step_order steps e)
      (next_step-lt s.step_order steps e) (next_step-least s.step_order steps e)
    ∙ ap suc (
        sym (
          count_above-update_where by_order n.step_order _ _ (λ x. refl) _
          ∙ count_above-update_where by_order n.step_order _ _ (λ x. refl) steps))

left_after-none :
    (s : ApprovalStep) (steps : List ApprovalStep)
    → next_step s.step_order steps ≡ none
    → left_after s steps ≡ 0
unfolding next_step
left_after-none s steps e =
    count_above-zero by_order s.step_order steps
      (sort-All by_order _ steps (find_if-none _ (sort by_order steps) e))

-- The workflow once its approval is over.
pub record IsApproved (review : Bool) (users : List ℕ) (w : Workflow) : Type 0 where
  pub status : w.status ≡ (if review then pending_review_cycle else available_for_final_users)
  pub assigned : w.current_assigned_user_id ≡ head? users
  pub no_step : w.current_approval_step_order ≡ none
  pub review_cycle : w.review_cycle_enabled ≡ review

module _ (env : Env) (id : ℕ) (dto : ApproveDto) (review : Bool) (u : ℕ) (us : List ℕ) where
  -- document-service answers, and the final users were chosen when the workflow was created.
  abbrev pub IsPrepared : Workflow → Type 0
  IsPrepared w =
      (env.review_cycle_enabled w.org_id w.typology_id ≡ answer review)
      × (w.final_user_ids ≡ some (u ∷ us))

  abbrev pub Finishes : ℕ → Db → Type 0
  Finishes rounds db =
      (db' : Db) × (w' : Workflow) × (approve_in_turn env id dto rounds db ≡ ok db')
      × (find_workflow id db' ≡ some w')
      × IsApproved review (u ∷ us) w'
      × All (λ x. x.status ≡ StepStatus.approved) (steps_of id db')

  round :
      (db later : Db) (w : Workflow) (user : ℕ) (k : ℕ)
      → find_workflow id db ≡ some w
      → w.current_assigned_user_id ≡ some user
      → approve env id user dto db ≡ ok later
      → approve_in_turn env id dto (suc k) db ≡ approve_in_turn env id dto k later
  unfolding approve_in_turn
  round db later w user k found assigned e = rw found (rw assigned (rw e))

  module _ (w : Workflow) (p : IsPrepared w) where
    resolve-IsPrepared : resolve_review_cycle env w ≡ ok review
    unfolding resolve_review_cycle
    resolve-IsPrepared = ground (arith, p.0)

    final_users-IsPrepared : final_users env w ≡ ok (u ∷ us)
    unfolding final_users
    final_users-IsPrepared = rw p.1

  finish_last :
      (db : Db) (w : Workflow) (s : ApprovalStep)
      → find_workflow id db ≡ some w
      → IsPrepared w
      → IsChain w (steps_of id db) s
      → next_step s.step_order (steps_of id db) ≡ none
      → Finishes 1 db
  finish_last db w s found p c e =
      let (db', accepted, now_found, done) =
        approve-last env id dto db w s found c review (u ∷ us) e (resolve-IsPrepared w p)
          (final_users-IsPrepared w p) in
      (
        db',
        _,
        round db db' w s.user_id 0 found c.assigned accepted ∙ unfold approve_in_turn in refl,
        now_found,
        record { status = refl; assigned = refl; no_step = refl; review_cycle = refl },
        done,
      )

  -- From the pending step on, as many approvals as there are steps left, each by the user assigned
  -- at the time, are all accepted and finish the approval: every step is approved, and the workflow
  -- has left PENDING_APPROVAL for the review cycle or, without one, for its final users.
  pub approve_in_turn-Finishes :
      (k : ℕ) (db : Db) (w : Workflow) (s : ApprovalStep)
      → find_workflow id db ≡ some w
      → IsPrepared w
      → IsChain w (steps_of id db) s
      → left_after s (steps_of id db) ≡ k
      → Finishes (suc k) db
  approve_in_turn-Finishes zero db w s found p c left =
      elim (Option-cases (next_step s.step_order (steps_of id db))) [
        | inl e ↦ finish_last db w s found p c e
        | inr (n, e) ↦ absurd (omega (arith, left_after-advance env.now c e))
      ]
  approve_in_turn-Finishes (suc k) db w s found p c left =
      elim (Option-cases (next_step s.step_order (steps_of id db))) [
        | inl e ↦ absurd (omega (arith, left_after-none s (steps_of id db) e))
        | inr (n, e) ↦
            let later = commit_more env s.user_id dto (reading env id dto db w s found c n) n db in
            let accepted = approve-eq-commit_more env id dto db w s found c n e in
            let moved = steps_of-commit_more env id dto db w s found c n in
            let (db', w', end, seen, ended, done) =
              approve_in_turn-Finishes k later (assigned_to n w) (with_status StepStatus.pending n)
                (find_workflow-commit_more env id dto db w s found c n) p
                (rw moved (IsChain-advance env.now c e))
                (rw moved (omega (arith, left_after-advance env.now c e))) in
            (
              db',
              w',
              round db later w s.user_id (suc k) found c.assigned accepted ∙ end,
              seen,
              ended,
              done,
            )
      ]
