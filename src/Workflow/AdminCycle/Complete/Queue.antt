-- ===== src/Workflow/AdminCycle/Complete/Queue.antt =====
-- The queue of reviewers of a cycle in progress, and how `completeStep` moves it on.
use sgd_backend.Base.{
  ℕ, ◌<◌, ◌≤◌, ◌≡◌, refl, ap, true, false, some, none, List, All, All-imp, All-of_Memᴰ, ==_refl,
  ltb, find_if, find_if-none, find_if-passes, find_if-least, sort, sort-Sorted, find_if-only,
  sort-All, update_where, All-update_where, Memᴰ, find_if-Memᴰ, sort-Memᴰ, Memᴰ-update_where,
  Memᴰ-All, Distinct, Distinct-only, Distinct-update_where, arith, if◌then◌else◌,
}
use sgd_backend.Workflow.Enums.{AdminStepStatus, is_active}
use sgd_backend.Workflow.Entities.{AdminStep}
use sgd_backend.Workflow.AdminCycle.{is_admin_step, by_admin_order}
use sgd_backend.Workflow.AdminCycle.Complete.{next_admin_step, done_at, activate}

abbrev pub by_id : AdminStep → ℕ
by_id s = s.id

-- The steps below the order `k` are completed, the one at `k` is pending, the later ones wait.
abbrev pub Fits : ℕ → AdminStep → Type 0
Fits k x =
    (x.step_order < k → x.status ≡ AdminStepStatus.done)
    × (x.step_order ≡ k → x.status ≡ AdminStepStatus.active)
    × (k < x.step_order → x.status ≡ AdminStepStatus.idle)

-- The steps of a cycle in which `s` is the pending one.
pub record IsQueue (steps : List AdminStep) (s : AdminStep) : Type 0 where
  pub listed : Memᴰ s steps
  pub fits : All (Fits s.step_order) steps
  pub ids : Distinct by_id steps
  pub orders : Distinct by_admin_order steps

-- What `completeStep` does to the steps when `n` follows `s`.
abbrev pub advance : ℕ → AdminStep → AdminStep → List AdminStep → List AdminStep
advance now s n steps =
    update_where (is_admin_step n.id) activate
      (update_where (is_admin_step s.id) (done_at now) steps)

module _ (now : ℕ) (s n : AdminStep) where
  record Facts (x : AdminStep) : Type 0 where
    fits : Fits s.step_order x
    least : s.step_order < x.step_order → n.step_order ≤ x.step_order
    by_s : x.step_order ≡ s.step_order → x.id ≡ s.id
    by_s' : x.id ≡ s.id → x.step_order ≡ s.step_order
    by_n : x.step_order ≡ n.step_order → x.id ≡ n.id
    by_n' : x.id ≡ n.id → x.step_order ≡ n.step_order

  -- The same, once `s` is approved.
  record Later (x : AdminStep) : Type 0 where
    low : x.step_order ≤ s.step_order → x.status ≡ AdminStepStatus.done
    high : s.step_order < x.step_order → x.status ≡ AdminStepStatus.idle
    least : s.step_order < x.step_order → n.step_order ≤ x.step_order
    by_n : x.step_order ≡ n.step_order → x.id ≡ n.id
    by_n' : x.id ≡ n.id → x.step_order ≡ n.step_order

  Later-first :
      (x : AdminStep) → Facts x → Later (if is_admin_step s.id x then done_at now x else x)
  Later-first x f = ground arith

  Fits-second :
      (x : AdminStep)
      → s.step_order < n.step_order
      → Later x
      → Fits n.step_order (if is_admin_step n.id x then activate x else x)
  Fits-second x lt f = ground arith

  Fits-advance :
      (steps : List AdminStep)
      → s.step_order < n.step_order
      → All Facts steps
      → All (Fits n.step_order) (advance now s n steps)
  Fits-advance steps lt h =
      All-update_where Later _ _ _ (λ x f. Fits-second x lt f) _
        (All-update_where Facts Later _ _ Later-first steps h)

module _ {n : AdminStep} (k : ℕ) (steps : List AdminStep) where
  pub next_admin_step-Memᴰ : next_admin_step k steps ≡ some n → Memᴰ n steps
  unfolding next_admin_step
  next_admin_step-Memᴰ e = sort-Memᴰ by_admin_order steps (find_if-Memᴰ _ _ e)

  pub next_admin_step-lt : next_admin_step k steps ≡ some n → k < n.step_order
  unfolding next_admin_step
  next_admin_step-lt e =
      let passes : ltb k n.step_order ≡ true = find_if-passes _ (sort by_admin_order steps) e in
      ground arith

  -- The next step is the least of those above.
  pub next_admin_step-least :
      next_admin_step k steps ≡ some n
      → All (λ x. k < x.step_order → n.step_order ≤ x.step_order) steps
  unfolding next_admin_step
  next_admin_step-least e =
      sort-All by_admin_order _ steps
        (find_if-least by_admin_order k _ (sort-Sorted by_admin_order steps) e)

module _ {steps : List AdminStep} {s n : AdminStep} (now : ℕ) (c : IsQueue steps s)
    (e : next_admin_step s.step_order steps ≡ some n) where
  Facts-IsQueue : All (Facts now s n) steps
  Facts-IsQueue =
      let m = next_admin_step-Memᴰ s.step_order steps e in
      All-of_Memᴰ _ steps λ x mx. record {
        fits = Memᴰ-All _ steps mx c.fits;
        least = Memᴰ-All _ steps mx (next_admin_step-least s.step_order steps e);
        by_s = λ h.
            ap by_id (Memᴰ-All _ steps mx (Distinct-only by_admin_order steps c.orders c.listed) h);
        by_s' = λ h.
            ap by_admin_order (Memᴰ-All _ steps mx (Distinct-only by_id steps c.ids c.listed) h);
        by_n =
            λ h. ap by_id (Memᴰ-All _ steps mx (Distinct-only by_admin_order steps c.orders m) h);
        by_n' = λ h. ap by_admin_order (Memᴰ-All _ steps mx (Distinct-only by_id steps c.ids m) h);
      }

  -- `n` is listed after the step, now pending.
  advance-Memᴰ : Memᴰ (activate n) (advance now s n steps)
  advance-Memᴰ =
      let m = next_admin_step-Memᴰ s.step_order steps e in
      let lt = next_admin_step-lt s.step_order steps e in
      let f = Memᴰ-All _ steps m Facts-IsQueue in
      let other : is_admin_step s.id n ≡ false = ground (arith, f.by_s') in
      let first = Memᴰ-update_where (is_admin_step s.id) (done_at now) steps m in
      let kept : Memᴰ n (update_where (is_admin_step s.id) (done_at now) steps) =
        rw other at first in
      let second = Memᴰ-update_where (is_admin_step n.id) activate _ kept in
      rw (==_refl n.id) at second

  -- The queue moves on to `n`.
  pub IsQueue-advance : IsQueue (advance now s n steps) (activate n)
  IsQueue-advance = record {
    listed = advance-Memᴰ;
    fits = Fits-advance now s n steps (next_admin_step-lt s.step_order steps e) Facts-IsQueue;
    ids =
        Distinct-update_where by_id _ _ (λ x. refl) _
          (Distinct-update_where by_id _ _ (λ x. refl) steps c.ids);
    orders =
        Distinct-update_where by_admin_order _ _ (λ x. refl) _
          (Distinct-update_where by_admin_order _ _ (λ x. refl) steps c.orders);
  }

all_done_step :
    (now : ℕ) (s x : AdminStep)
    → Fits s.step_order x
    → (x.step_order ≡ s.step_order → x.id ≡ s.id)
    → ltb s.step_order x.step_order ≡ false
    → (if is_admin_step s.id x then done_at now x else x).status ≡ AdminStepStatus.done
all_done_step now s x f by e = ground arith

-- With nobody after `s`, all steps are completed.
pub All-done :
    {steps : List AdminStep} {s : AdminStep} (now : ℕ)
    → IsQueue steps s
    → next_admin_step s.step_order steps ≡ none
    → All
        (λ x. x.status ≡ AdminStepStatus.done)
        (update_where (is_admin_step s.id) (done_at now) steps)
unfolding next_admin_step
All-done {steps} {s} now c e =
    All-update_where
      (λ x.
        Fits s.step_order x
        × (x.step_order ≡ s.step_order → x.id ≡ s.id)
        × (ltb s.step_order x.step_order ≡ false))
      _ _ _ (λ x f. all_done_step now s x f.0 f.1 f.2) steps
      (All-of_Memᴰ _ steps λ x m. (
        Memᴰ-All _ steps m c.fits,
        λ h. ap by_id (Memᴰ-All _ steps m (Distinct-only by_admin_order steps c.orders c.listed) h),
        Memᴰ-All _ steps m
            (sort-All by_admin_order _ steps (find_if-none _ (sort by_admin_order steps) e)),
      ))

pub IsQueue-active :
    {steps : List AdminStep} {s : AdminStep} → IsQueue steps s → s.status ≡ AdminStepStatus.active
IsQueue-active {steps} c = (Memᴰ-All _ steps c.listed c.fits).1 refl

-- The pending step is the only one, and is found by its id and by its status.
pub find_by_id-IsQueue :
    {steps : List AdminStep} {s : AdminStep}
    → IsQueue steps s
    → find_if (is_admin_step s.id) steps ≡ some s
find_by_id-IsQueue {steps} {s} c = find_if-only (is_admin_step s.id) steps c.listed (==_refl s.id) (
    All-imp (λ x. x.id ≡ s.id → x ≡ s) _ (λ x only h. only (ground arith)) steps
      (Distinct-only by_id steps c.ids c.listed))

active_order : (k : ℕ) (x : AdminStep) → Fits k x → is_active x.status ≡ true → x.step_order ≡ k
active_order k x f h = ground arith

pub find_active-IsQueue :
    {steps : List AdminStep} {s : AdminStep}
    → IsQueue steps s
    → find_if (λ x. is_active x.status) steps ≡ some s
find_active-IsQueue {steps} {s} c =
    find_if-only (λ x. is_active x.status) steps c.listed (rw (IsQueue-active c) refl)
      (All-of_Memᴰ _ steps λ x m h.
        Memᴰ-All _ steps m (Distinct-only by_admin_order steps c.orders c.listed)
          (active_order s.step_order x (Memᴰ-All _ steps m c.fits) h))
