-- ===== src/Base/Table.antt =====
-- A database table as a list of rows: selection, update in place, and a unique column.
use Prim.Native.Nat.{ℕ}
use mathlib.Core.Path.{◌≡◌, refl, sym, ap, ◌∙◌}
use mathlib.Core.Bool.{Bool, true, false, not}
use mathlib.Core.Logic.{◌≢◌, inl, inr}
use mathlib.Core.Option.{Option, some}
use mathlib.Core.Option
use mathlib.Core.List.{List, [], ◌∷◌, ◌++◌}
use native.Mathlib.Omega.{arith}
use sgd_backend.Base.Tests.{◌==◌, if◌then◌else◌, Bool-cases, some_injective}
use sgd_backend.Base.Lists.{All, All-imp, find_if, find_if-All, length}

module _ {ℓ} {A : Type ℓ} where
  -- `UPDATE … SET … WHERE p`.
  unfoldable pub update_where : (A → Bool) → (A → A) → List A → List A
  update_where p f [] = []
  update_where p f (x ∷ xs) = (if p x then f x else x) ∷ update_where p f xs

  -- `SELECT … WHERE p`.
  unfoldable pub select : (A → Bool) → List A → List A
  select p [] = []
  select p (x ∷ xs) = let rest = select p xs in if p x then x ∷ rest else rest

  pub All-update_where {κ μ} :
      (P : A → Type κ) (Q : A → Type μ) (p : A → Bool) (f : A → A)
      → ((x : A) → P x → Q (if p x then f x else x))
      → (xs : List A) → All P xs
      → All Q (update_where p f xs)
  unfolding update_where
  All-update_where P Q p f step [] h = tt
  All-update_where P Q p f step (x ∷ xs) h = (step x h.0, All-update_where P Q p f step xs h.1)

  pub length-update_where :
      (p : A → Bool) (f : A → A) (xs : List A) → length (update_where p f xs) ≡ length xs
  unfolding update_where
  length-update_where p f [] = refl
  length-update_where p f (x ∷ xs) = omega (arith, length-update_where p f xs)

  -- A lookup whose test the update does not touch finds the updated row.
  pub find_if-update_where :
      (q p : A → Bool) (f : A → A)
      → ((x : A) → q (f x) ≡ q x)
      → (xs : List A)
      → find_if q (update_where p f xs) ≡ Option.map (λ x. if p x then f x else x) (find_if q xs)
  unfolding find_if update_where
  find_if-update_where q p f same [] = refl
  find_if-update_where q p f same (x ∷ xs) =
      ground (arith, same x, find_if-update_where q p f same xs)

  pub select-All {κ} :
      (P : A → Type κ) (q : A → Bool) (xs : List A) → All P xs → All P (select q xs)
  unfolding select
  select-All P q [] h = tt
  select-All P q (x ∷ xs) h = elim (Bool-cases (q x)) [
    | inl t ↦ rw t (h.0, select-All P q xs h.1)
    | inr f ↦ rw f (select-All P q xs h.1)
  ]

  pub select-passes : (q : A → Bool) (xs : List A) → All (λ x. q x ≡ true) (select q xs)
  unfolding select
  select-passes q [] = tt
  select-passes q (x ∷ xs) = elim (Bool-cases (q x)) [
    | inl t ↦ rw t (t, select-passes q xs)
    | inr f ↦ rw f (select-passes q xs)
  ]

  -- A selection whose test the update does not touch commutes with it.
  pub select-update_where :
      (q p : A → Bool) (f : A → A)
      → ((x : A) → q (f x) ≡ q x)
      → (xs : List A) → select q (update_where p f xs) ≡ update_where p f (select q xs)
  unfolding select update_where
  select-update_where q p f same [] = refl
  select-update_where q p f same (x ∷ xs) =
      ground (arith, same x, select-update_where q p f same xs)

  -- An update of rows outside the selection leaves the selection as it was.
  pub select-update_where_other :
      (q p : A → Bool) (f : A → A)
      → ((x : A) → q (f x) ≡ q x)
      → ((x : A) → p x ≡ true → q x ≡ false)
      → (xs : List A) → select q (update_where p f xs) ≡ select q xs
  unfolding select update_where
  select-update_where_other q p f same apart [] = refl
  select-update_where_other q p f same apart (x ∷ xs) =
      ground (arith, same x, apart x, select-update_where_other q p f same apart xs)

  pub select-append :
      (q : A → Bool) (xs ys : List A) → select q (xs ++ ys) ≡ select q xs ++ select q ys
  unfolding select
  select-append q [] ys = refl
  select-append q (x ∷ xs) ys = ground (arith, select-append q xs ys)

module _ {ℓ} {A : Type ℓ} (key : A → ℕ) where
  -- No two rows have the same value in the column: a primary key, or a unique constraint.
  abbrev pub Distinct : List A → Type 0
  Distinct [] = Unit
  Distinct (x ∷ xs) = All (λ y. key x ≢ key y) xs × Distinct xs

  pub Distinct-select : (q : A → Bool) (xs : List A) → Distinct xs → Distinct (select q xs)
  unfolding select
  Distinct-select q [] d = tt
  Distinct-select q (x ∷ xs) d = elim (Bool-cases (q x)) [
    | inl t ↦ rw t (select-All _ q xs d.0, Distinct-select q xs d.1)
    | inr f ↦ rw f (Distinct-select q xs d.1)
  ]

  -- The row that a lookup finds is the only one with its key.
  pub find_if_unique :
      (p : A → Bool) (xs : List A) {a : A}
      → Distinct xs
      → find_if p xs ≡ some a
      → All (λ x. key x ≡ key a → x ≡ a) xs
  unfolding find_if
  find_if_unique p [] d e = tt
  find_if_unique p (x ∷ xs) {a} d e = elim (Bool-cases (p x)) [
    | inl t ↦
        let same : x ≡ a = some_injective (rw t at e) in
        (λ _. same, All-imp _ _ (λ y apart k. absurd (apart (ap key same ∙ sym k))) xs d.0)
    | inr f ↦ (
      λ k. absurd (find_if-All (λ y. key x ≢ key y) p xs (rw f at e) d.0 k),
      find_if_unique p xs d.1 (rw f at e),
    )
  ]

-- `[...new Set(xs)]`: the first occurrence of each.
unfoldable pub unique : List ℕ → List ℕ
unfolding select
unique [] = []
unique (x ∷ xs) = x ∷ select (λ y. not (y == x)) (unique xs)

module _ {ℓ} {A : Type ℓ} (key : A → ℕ) (p : A → Bool) (f : A → A) where
  key-update : ((x : A) → key (f x) ≡ key x) → (x : A) → key (if p x then f x else x) ≡ key x
  key-update same x = elim (Bool-cases (p x)) [ inl t ↦ rw t (same x) | inr u ↦ rw u ]

  -- An update that leaves a unique column alone keeps it unique.
  pub Distinct-update_where :
      ((x : A) → key (f x) ≡ key x)
      → (xs : List A) → Distinct key xs
      → Distinct key (update_where p f xs)
  unfolding update_where
  Distinct-update_where same [] d = tt
  Distinct-update_where same (x ∷ xs) d = (
    All-update_where (λ y. key x ≢ key y) _ p f
        (λ y apart e. apart (sym (key-update same x) ∙ e ∙ key-update same y)) xs d.0,
    Distinct-update_where same xs d.1,
  )
