-- ===== src/Workflow/Approval/Start.antt =====
-- What `start_approval` does to a draft.
use sgd_backend.Base.{
  ℕ, ◌≤◌, ◌≡◌, refl, ap, ◌∙◌, true, some, List, ◌∷◌, head?, All, All-of_Memᴰ, All-update_where,
  Memᴰ-All, Memᴰ-update_where, Distinct, Distinct-only, Distinct-update_where, update_where,
  head?-sort, head?-sort-some, sort, ==_refl, arith, if◌then◌else◌,
}
use sgd_backend.Workflow.Enums.{draft, pending_approval, StepStatus}
use sgd_backend.Workflow.Entities.{Workflow, ApprovalStep}
use sgd_backend.Workflow.Errors.{ok}
use sgd_backend.Workflow.Store.{Db, is_step, find_workflow, steps_of}
use sgd_backend.Workflow.Store.Laws.{find_if-updated, select-update_step}
use sgd_backend.Workflow.StateMachine.{assert_valid_transition}
use sgd_backend.Workflow.Approval.{
  by_order, with_status, assigned_to, read_start, commit_start, start_approval,
}
use sgd_backend.Workflow.Approval.Chain.{by_id, Fits, IsChain}

-- A draft whose document is validated and whose steps all wait.
pub record IsReady (w : Workflow) (steps : List ApprovalStep) : Type 0 where
  pub status : w.status ≡ draft
  pub validated : w.main_document_validated ≡ true
  pub waiting : All (λ x. x.status ≡ StepStatus.waiting) steps
  pub ids : Distinct by_id steps
  pub orders : Distinct by_order steps

-- The workflow once its first step is pending.
abbrev pub begun : ApprovalStep → Workflow → Workflow
begun s w = record (assigned_to s w) { status = pending_approval }

Fits-first :
    (s x : ApprovalStep)
    → x.status ≡ StepStatus.waiting
    → s.step_order ≤ x.step_order
    → (x.step_order ≡ s.step_order → x.id ≡ s.id)
    → (x.id ≡ s.id → x.step_order ≡ s.step_order)
    → Fits s.step_order (if is_step s.id x then with_status StepStatus.pending x else x)
Fits-first s x a le by by' = ground arith

IsChain-first :
    {w : Workflow} {steps : List ApprovalStep} {s : ApprovalStep}
    → IsReady w steps
    → head? (sort by_order steps) ≡ some s
    → IsChain
        (begun s w)
        (update_where (is_step s.id) (with_status StepStatus.pending) steps)
        (with_status StepStatus.pending s)
IsChain-first {w} {steps} {s} r e =
    let (m, least) = head?-sort by_order steps e in
    let moved = Memᴰ-update_where (is_step s.id) (with_status StepStatus.pending) steps m in
    record {
      status = refl;
      order = refl;
      assigned = refl;
      listed = rw (==_refl s.id) at moved;
      fits =
          All-update_where
            (λ x.
              (x.status ≡ StepStatus.waiting)
              × (s.step_order ≤ x.step_order)
              × (x.step_order ≡ s.step_order → x.id ≡ s.id)
              × (x.id ≡ s.id → x.step_order ≡ s.step_order))
            _ _ _ (λ x f. Fits-first s x f.0 f.1 f.2 f.3) steps
            (All-of_Memᴰ _ steps λ x mx. (
              Memᴰ-All _ steps mx r.waiting,
              Memᴰ-All _ steps mx least,
              λ h. ap by_id (Memᴰ-All _ steps mx (Distinct-only by_order steps r.orders m) h),
              λ h. ap by_order (Memᴰ-All _ steps mx (Distinct-only by_id steps r.ids m) h),
            ));
      ids = Distinct-update_where by_id _ _ (λ x. refl) steps r.ids;
      orders = Distinct-update_where by_order _ _ (λ x. refl) steps r.orders;
    }

module _ (id : ℕ) (db : Db) (w : Workflow) (found : find_workflow id db ≡ some w) where
  read_start-IsReady :
      (s : ApprovalStep)
      → IsReady w (steps_of id db)
      → head? (sort by_order (steps_of id db)) ≡ some s
      → read_start id w.created_by db ≡ ok (w, s)
  unfolding read_start assert_valid_transition
  read_start-IsReady s r e = ground (arith, r.status, r.validated)

  find_workflow-commit_start :
      (s : ApprovalStep) → find_workflow id (commit_start w.created_by w s db) ≡ some (begun s w)
  unfolding commit_start find_workflow
  find_workflow-commit_start s = find_if-updated id db (begun s) (λ y. refl) found

  steps_of-commit_start :
      (s : ApprovalStep)
      → steps_of id (commit_start w.created_by w s db)
        ≡ update_where (is_step s.id) (with_status StepStatus.pending) (steps_of id db)
  unfolding commit_start steps_of
  steps_of-commit_start s =
      select-update_step id s.id (with_status StepStatus.pending) (λ y. refl) db.approval_steps

  -- The creator of a draft with a validated document and at least one approver starts the approval:
  -- the workflow waits for the approver of the first step in order, the others keep waiting.
  pub start_approval-IsChain :
      (x : ApprovalStep) (xs : List ApprovalStep)
      → steps_of id db ≡ x ∷ xs
      → IsReady w (steps_of id db)
      → (s : ApprovalStep) × (db' : Db) × (start_approval id w.created_by db ≡ ok db')
        × (find_workflow id db' ≡ some (begun s w))
        × IsChain (begun s w) (steps_of id db') (with_status StepStatus.pending s)
        × All (λ y. s.step_order ≤ y.step_order) (steps_of id db)
  unfolding start_approval
  start_approval-IsChain x xs some_steps r =
      let (s, first) = head?-sort-some by_order x xs in
      let e : head? (sort by_order (steps_of id db)) ≡ some s =
        ap (λ l. head? (sort by_order l)) some_steps ∙ first in
      (
        s,
        commit_start w.created_by w s db,
        rw (read_start-IsReady s r e),
        find_workflow-commit_start s,
        rw (steps_of-commit_start s) (IsChain-first r e),
        (head?-sort by_order (steps_of id db) e).1,
      )
