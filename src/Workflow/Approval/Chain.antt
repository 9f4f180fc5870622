-- ===== src/Workflow/Approval/Chain.antt =====
-- The chain of approvers while a workflow waits for approval, and how `approve` moves it on.
use sgd_backend.Base.{
  ℕ, ◌<◌, ◌≤◌, ◌≡◌, refl, ap, true, false, some, none, List, All, All-imp, ==_refl, ltb,
  find_if-none, find_if-passes, find_if-least, sort, sort-Sorted, sort-All, update_where,
  All-update_where, Memᴰ, find_if-Memᴰ, find_if-only, sort-Memᴰ, Memᴰ-update_where, Memᴰ-All,
  All-of_Memᴰ, Distinct, Distinct-only, Distinct-update_where, arith, if◌then◌else◌,
}
use sgd_backend.Workflow.Enums.{pending_approval, StepStatus}
use sgd_backend.Workflow.Entities.{Workflow, ApprovalStep}
use sgd_backend.Workflow.Store.{is_step}
use sgd_backend.Workflow.Approval.{by_order, with_status, assigned_to}
use sgd_backend.Workflow.Approval.Approve.{is_current, current_step, next_step}

abbrev pub by_id : ApprovalStep → ℕ
by_id s = s.id

-- The steps below the order `k` are approved, the one at `k` is pending, the later ones wait.
abbrev pub Fits : ℕ → ApprovalStep → Type 0
Fits k x =
    (x.step_order < k → x.status ≡ StepStatus.approved)
    × (x.step_order ≡ k → x.status ≡ StepStatus.pending)
    × (k < x.step_order → x.status ≡ StepStatus.waiting)

-- The workflow waits for the approver of the step `s`.
pub record IsChain (w : Workflow) (steps : List ApprovalStep) (s : ApprovalStep) : Type 0 where
  pub status : w.status ≡ pending_approval
  pub order : w.current_approval_step_order ≡ some s.step_order
  pub assigned : w.current_assigned_user_id ≡ some s.user_id
  pub listed : Memᴰ s steps
  pub fits : All (Fits s.step_order) steps
  pub ids : Distinct by_id steps
  pub orders : Distinct by_order steps

is_current_of :
    (w : Workflow) (s : ApprovalStep)
    → w.current_approval_step_order ≡ some s.step_order
    → s.status ≡ StepStatus.pending
    → is_current w s ≡ true
is_current_of w s e p = ground arith

step_order-is_current :
    (w : Workflow) (x : ApprovalStep) (k : ℕ)
    → w.current_approval_step_order ≡ some k
    → is_current w x ≡ true
    → x.step_order ≡ k
step_order-is_current w x k e h = ground arith

pub IsChain-pending :
    {w : Workflow} {steps : List ApprovalStep} {s : ApprovalStep}
    → IsChain w steps s
    → s.status ≡ StepStatus.pending
IsChain-pending {steps} c = (Memᴰ-All _ steps c.listed c.fits).1 refl

-- The code's search finds the step.
pub current_step-IsChain :
    {w : Workflow} {steps : List ApprovalStep} {s : ApprovalStep}
    → IsChain w steps s
    → current_step w steps ≡ some s
unfolding current_step
current_step-IsChain {w} {steps} {s} c =
    find_if-only (is_current w) steps c.listed (is_current_of w s c.order (IsChain-pending c)) (
      All-imp (λ x. x.step_order ≡ s.step_order → x ≡ s) _
        (λ x only h. only (step_order-is_current w x s.step_order c.order h)) steps
        (Distinct-only by_order steps c.orders c.listed))

abbrev pub approved_at : ℕ → ApprovalStep → ApprovalStep
approved_at now x = record x { status = StepStatus.approved; completed_at = some now }

-- What `approve` does to the steps when `n` follows `s`.
unfoldable pub advance : ℕ → ApprovalStep → ApprovalStep → List ApprovalStep → List ApprovalStep
advance now s n steps =
    update_where (is_step n.id) (with_status StepStatus.pending)
      (update_where (is_step s.id) (approved_at now) steps)

module _ (now : ℕ) (s n : ApprovalStep) where
  record Facts (x : ApprovalStep) : Type 0 where
    fits : Fits s.step_order x
    least : s.step_order < x.step_order → n.step_order ≤ x.step_order
    by_s : x.step_order ≡ s.step_order → x.id ≡ s.id
    by_s' : x.id ≡ s.id → x.step_order ≡ s.step_order
    by_n : x.step_order ≡ n.step_order → x.id ≡ n.id
    by_n' : x.id ≡ n.id → x.step_order ≡ n.step_order

  -- The same, once `s` is approved.
  record Later (x : ApprovalStep) : Type 0 where
    low : x.step_order ≤ s.step_order → x.status ≡ StepStatus.approved
    high : s.step_order < x.step_order → x.status ≡ StepStatus.waiting
    least : s.step_order < x.step_order → n.step_order ≤ x.step_order
    by_n : x.step_order ≡ n.step_order → x.id ≡ n.id
    by_n' : x.id ≡ n.id → x.step_order ≡ n.step_order

  Later-first :
      (x : ApprovalStep) → Facts x → Later (if is_step s.id x then approved_at now x else x)
  Later-first x f = ground arith

  Fits-second :
      (x : ApprovalStep)
      → s.step_order < n.step_order
      → Later x
      → Fits n.step_order (if is_step n.id x then with_status StepStatus.pending x else x)
  Fits-second x lt f = ground arith

  Fits-advance :
      (steps : List ApprovalStep)
      → s.step_order < n.step_order
      → All Facts steps
      → All (Fits n.step_order) (advance now s n steps)
  unfolding advance
  Fits-advance steps lt h =
      All-update_where Later _ _ _ (λ x f. Fits-second x lt f) _
        (All-update_where Facts Later _ _ Later-first steps h)

module _ {n : ApprovalStep} (k : ℕ) (steps : List ApprovalStep) where
  pub next_step-Memᴰ : next_step k steps ≡ some n → Memᴰ n steps
  unfolding next_step
  next_step-Memᴰ e = sort-Memᴰ by_order steps (find_if-Memᴰ _ _ e)

  pub next_step-lt : next_step k steps ≡ some n → k < n.step_order
  unfolding next_step
  next_step-lt e =
      let passes : ltb k n.step_order ≡ true = find_if-passes _ (sort by_order steps) e in
      ground arith

  -- The next step is the least of those above.
  pub next_step-least :
      next_step k steps ≡ some n → All (λ x. k < x.step_order → n.step_order ≤ x.step_order) steps
  unfolding next_step
  next_step-least e =
      sort-All by_order _ steps (find_if-least by_order k _ (sort-Sorted by_order steps) e)

module _ {w : Workflow} {steps : List ApprovalStep} {s n : ApprovalStep} (now : ℕ)
    (c : IsChain w steps s) (e : next_step s.step_order steps ≡ some n) where
  Facts-IsChain : All (Facts now s n) steps
  Facts-IsChain =
      let m = next_step-Memᴰ s.step_order steps e in
      All-of_Memᴰ _ steps λ x mx. record {
        fits = Memᴰ-All _ steps mx c.fits;
        least = Memᴰ-All _ steps mx (next_step-least s.step_order steps e);
        by_s =
            λ h. ap by_id (Memᴰ-All _ steps mx (Distinct-only by_order steps c.orders c.listed) h);
        by_s' = λ h. ap by_order (Memᴰ-All _ steps mx (Distinct-only by_id steps c.ids c.listed) h);
        by_n = λ h. ap by_id (Memᴰ-All _ steps mx (Distinct-only by_order steps c.orders m) h);
        by_n' = λ h. ap by_order (Memᴰ-All _ steps mx (Distinct-only by_id steps c.ids m) h);
      }

  -- `n` is listed after the step, now pending.
  advance-Memᴰ : Memᴰ (with_status StepStatus.pending n) (advance now s n steps)
  unfolding advance
  advance-Memᴰ =
      let m = next_step-Memᴰ s.step_order steps e in
      let lt = next_step-lt s.step_order steps e in
      let f = Memᴰ-All _ steps m Facts-IsChain in
      let other : is_step s.id n ≡ false = ground (arith, f.by_s') in
      let first = Memᴰ-update_where (is_step s.id) (approved_at now) steps m in
      let kept : Memᴰ n (update_where (is_step s.id) (approved_at now) steps) = rw other at first in
      let second = Memᴰ-update_where (is_step n.id) (with_status StepStatus.pending) _ kept in
      rw (==_refl n.id) at second

  -- The chain moves on to `n`.
  pub IsChain-advance :
      IsChain (assigned_to n w) (advance now s n steps) (with_status StepStatus.pending n)
  unfolding advance
  IsChain-advance = record {
    status = c.status;
    order = refl;
    assigned = refl;
    listed = advance-Memᴰ;
    fits = Fits-advance now s n steps (next_step-lt s.step_order steps e) Facts-IsChain;
    ids =
        Distinct-update_where by_id _ _ (λ x. refl) _
          (Distinct-update_where by_id _ _ (λ x. refl) steps c.ids);
    orders =
        Distinct-update_where by_order _ _ (λ x. refl) _
          (Distinct-update_where by_order _ _ (λ x. refl) steps c.orders);
  }

all_approved_step :
    (now : ℕ) (s x : ApprovalStep)
    → Fits s.step_order x
    → (x.step_order ≡ s.step_order → x.id ≡ s.id)
    → ltb s.step_order x.step_order ≡ false
    → (if is_step s.id x then approved_at now x else x).status ≡ StepStatus.approved
all_approved_step now s x f by e = ground arith

-- With nobody after `s`, its approval is the last one.
pub All-approved :
    {w : Workflow} {steps : List ApprovalStep} {s : ApprovalStep} (now : ℕ)
    → IsChain w steps s
    → next_step s.step_order steps ≡ none
    → All
        (λ x. x.status ≡ StepStatus.approved)
        (update_where (is_step s.id) (approved_at now) steps)
unfolding next_step
All-approved {steps} {s} now c e =
    All-update_where
      (λ x.
        Fits s.step_order x
        × (x.step_order ≡ s.step_order → x.id ≡ s.id)
        × (ltb s.step_order x.step_order ≡ false))
      _ _ _ (λ x f. all_approved_step now s x f.0 f.1 f.2) steps
      (All-of_Memᴰ _ steps λ x m. (
        Memᴰ-All _ steps m c.fits,
        λ h. ap by_id (Memᴰ-All _ steps m (Distinct-only by_order steps c.orders c.listed) h),
        Memᴰ-All _ steps m (sort-All by_order _ steps (find_if-none _ (sort by_order steps) e)),
      ))
