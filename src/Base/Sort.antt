-- ===== src/Base/Sort.antt =====
-- `[...xs].sort((a, b) => key(a) - key(b))`: JavaScript's sort is stable, as insertion from the
-- right is.
use Prim.Native.Nat.{ℕ, suc, ◌≤◌, ◌<◌}
use mathlib.Core.Path.{◌≡◌, refl, ap, ◌∙◌}
use mathlib.Core.Logic.{inl, inr}
use mathlib.Core.Option.{some}
use mathlib.Core.List.{List, [], ◌∷◌, map}
use native.Mathlib.Omega.{arith}
use sgd_backend.Base.Tests.{leb, ltb, if◌then◌else◌, Bool-cases, some_injective}
use sgd_backend.Base.Lists.{All, All-imp, length, find_if}

module _ {ℓ} {A : Type ℓ} (key : A → ℕ) where
  insert : A → List A → List A
  insert x [] = x ∷ []
  insert x (y ∷ ys) = if leb (key x) (key y) then x ∷ y ∷ ys else y ∷ insert x ys

  unfoldable pub sort : List A → List A
  unfolding insert
  sort [] = []
  sort (x ∷ xs) = insert x (sort xs)

  abbrev pub Sorted : List A → Type 0
  Sorted [] = Unit
  Sorted (x ∷ xs) = All (λ y. key x ≤ key y) xs × Sorted xs

  All-insert {κ} : (P : A → Type κ) (x : A) (xs : List A) → P x → All P xs → All P (insert x xs)
  unfolding insert
  All-insert P x [] p h = (p, tt)
  All-insert P x (y ∷ ys) p h = elim (Bool-cases (leb (key x) (key y))) [
    | inl t ↦ rw t (p, h)
    | inr f ↦ rw f (h.0, All-insert P x ys p h.1)
  ]

  pub All-sort {κ} : (P : A → Type κ) (xs : List A) → All P xs → All P (sort xs)
  unfolding sort
  All-sort P [] h = tt
  All-sort P (x ∷ xs) h = All-insert P x (sort xs) h.0 (All-sort P xs h.1)

  insert-All {κ} : (P : A → Type κ) (x : A) (xs : List A) → All P (insert x xs) → P x × All P xs
  unfolding insert
  insert-All P x [] h = h
  insert-All P x (y ∷ ys) h = elim (Bool-cases (leb (key x) (key y))) [
    | inl t ↦ let both : All P (x ∷ y ∷ ys) = rw t at h in both
    | inr f ↦
        let rest : All P (y ∷ insert x ys) = rw f at h in
        let (p, more) = insert-All P x ys rest.1 in (p, (rest.0, more))
  ]

  -- What holds of all elements of the sorted list holds of all elements of the list.
  pub sort-All {κ} : (P : A → Type κ) (xs : List A) → All P (sort xs) → All P xs
  unfolding sort
  sort-All P [] h = tt
  sort-All P (x ∷ xs) h = let (p, rest) = insert-All P x (sort xs) h in (p, sort-All P xs rest)

  insert-Sorted : (x : A) (xs : List A) → Sorted xs → Sorted (insert x xs)
  unfolding insert
  insert-Sorted x [] h = (tt, tt)
  insert-Sorted x (y ∷ ys) h = elim (Bool-cases (leb (key x) (key y))) [
    | inl t ↦
        let first : key x ≤ key y = ground arith in
        rw t ((first, All-imp _ _ (λ z p. omega arith) ys h.0), h)
    | inr f ↦
        let later : key y ≤ key x = ground arith in
        rw f (All-insert (λ z. key y ≤ key z) x ys later h.0, insert-Sorted x ys h.1)
  ]

  pub sort-Sorted : (xs : List A) → Sorted (sort xs)
  unfolding sort
  sort-Sorted [] = tt
  sort-Sorted (x ∷ xs) = insert-Sorted x (sort xs) (sort-Sorted xs)

  length-insert : (x : A) (xs : List A) → length (insert x xs) ≡ suc (length xs)
  unfolding insert
  length-insert x [] = refl
  length-insert x (y ∷ ys) = ground (arith, length-insert x ys)

  pub length-sort : (xs : List A) → length (sort xs) ≡ length xs
  unfolding sort
  length-sort [] = refl
  length-sort (x ∷ xs) = length-insert x (sort xs) ∙ ap suc (length-sort xs)

  -- The first element above `k` of a sorted list is the least of them.
  pub find_if-least :
      (k : ℕ) (xs : List A) {a : A}
      → Sorted xs
      → find_if (λ x. ltb k (key x)) xs ≡ some a
      → All (λ x. k < key x → key a ≤ key x) xs
  unfolding find_if
  find_if-least k [] s e = tt
  find_if-least k (x ∷ xs) {a} s e = elim (Bool-cases (ltb k (key x))) [
    | inl t ↦
        let first : key x ≡ key a = ap key (some_injective (rw t at e)) in
        (λ _. omega arith, All-imp _ _ (λ z p _. omega arith) xs s.0)
    | inr f ↦ (λ below. absurd (ground arith), find_if-least k xs s.1 (rw f at e))
  ]

module _ {ℓ} {A : Type ℓ} (key : A → ℕ) where
  map-insert :
      (x : A) (xs : List A) → map key (insert key x xs) ≡ insert (λ n. n) (key x) (map key xs)
  unfolding insert
  map-insert x [] = refl
  map-insert x (y ∷ ys) = elim (Bool-cases (leb (key x) (key y))) [
    | inl t ↦ rw t refl
    | inr f ↦ rw (f, map-insert x ys) refl
  ]

  -- The keys of the sorted list are the sorted keys.
  pub map-sort : (xs : List A) → map key (sort key xs) ≡ sort (λ n. n) (map key xs)
  unfolding sort
  map-sort [] = refl
  map-sort (x ∷ xs) = map-insert x (sort key xs) ∙ ap (insert (λ n. n) (key x)) (map-sort xs)
