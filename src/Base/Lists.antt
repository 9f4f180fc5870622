-- ===== src/Base/Lists.antt =====
-- Lists over the native numbers: length, `some`, `every`, `find` and `includes` of JavaScript arrays.
use Prim.Native.Nat.{ℕ, suc, ◌+◌, max}
use mathlib.Core.Path.{◌≡◌, refl, ap, subst}
use mathlib.Core.Bool.{Bool, true, false, ◌||◌}
use mathlib.Core.Option.{Option, none, some}
use mathlib.Core.List.{List, [], ◌∷◌, ◌++◌, map}
use native.Mathlib.Omega.{arith}
use mathlib.Core.Logic.{inl, inr}
use sgd_backend.Base.Tests.{◌==◌, if◌then◌else◌, Bool-cases, some_injective}

abbrev pub includes : List ℕ → ℕ → Bool
includes [] a = false
includes (x ∷ xs) a = x == a || includes xs a

module _ {ℓ} {A : Type ℓ} where
  abbrev pub length : List A → ℕ
  length [] = 0
  length (x ∷ xs) = suc (length xs)

  abbrev pub head? : List A → Option A
  head? [] = none
  head? (x ∷ xs) = some x

  abbrev pub is_empty : List A → Bool
  is_empty [] = true
  is_empty (x ∷ xs) = false

  pub length-append : (xs ys : List A) → length (xs ++ ys) ≡ length xs + length ys
  length-append [] ys = omega arith
  length-append (x ∷ xs) ys = omega (arith, length-append xs ys)

pub length-map {ℓ κ} :
    {A : Type ℓ} {B : Type κ} (f : A → B) (xs : List A) → length (map f xs) ≡ length xs
length-map f [] = refl
length-map f (x ∷ xs) = ap suc (length-map f xs)

module _ {ℓ κ} {A : Type ℓ} (P : A → Type κ) where
  abbrev pub All : List A → Type κ
  All [] = Unit
  All (x ∷ xs) = P x × All xs

  pub All-append : (xs ys : List A) → All xs → All ys → All (xs ++ ys)
  All-append [] ys h k = k
  All-append (x ∷ xs) ys h k = (h.0, All-append xs ys h.1 k)

  pub All-of : ((x : A) → P x) → (xs : List A) → All xs
  All-of f [] = tt
  All-of f (x ∷ xs) = (f x, All-of f xs)

module _ {ℓ κ μ} {A : Type ℓ} (P : A → Type κ) (Q : A → Type μ) where
  pub All-imp : ((x : A) → P x → Q x) → (xs : List A) → All P xs → All Q xs
  All-imp f [] h = tt
  All-imp f (x ∷ xs) h = (f x h.0, All-imp f xs h.1)

  pub All-zip : (xs : List A) → All P xs → All Q xs → All (λ x. P x × Q x) xs
  All-zip [] h k = tt
  All-zip (x ∷ xs) h k = ((h.0, k.0), All-zip xs h.1 k.1)

module _ {ℓ} {A : Type ℓ} where
  -- `xs.find(p)`: the first element that passes the test.
  unfoldable pub find_if : (A → Bool) → List A → Option A
  find_if p [] = none
  find_if p (x ∷ xs) = if p x then some x else find_if p xs

  pub find_if-passes : (p : A → Bool) (xs : List A) {a : A} → find_if p xs ≡ some a → p a ≡ true
  unfolding find_if
  find_if-passes p [] e = cc
  find_if-passes p (x ∷ xs) {a} e = elim (Bool-cases (p x)) [
    | inl t ↦ subst (λ y. p y ≡ true) (some_injective (rw t at e)) t
    | inr f ↦ find_if-passes p xs (rw f at e)
  ]

  pub find_if-All {κ} :
      (P : A → Type κ) (p : A → Bool) (xs : List A) {a : A} → find_if p xs ≡ some a → All P xs → P a
  unfolding find_if
  find_if-All P p [] e h = cc
  find_if-All P p (x ∷ xs) {a} e h = elim (Bool-cases (p x)) [
    | inl t ↦ subst P (some_injective (rw t at e)) h.0
    | inr f ↦ find_if-All P p xs (rw f at e) h.1
  ]

  pub find_if-none : (p : A → Bool) (xs : List A) → find_if p xs ≡ none → All (λ x. p x ≡ false) xs
  unfolding find_if
  find_if-none p [] e = tt
  find_if-none p (x ∷ xs) e = elim (Bool-cases (p x)) [
    | inl t ↦ let wrong : some x ≡ none = rw t at e in cc
    | inr f ↦ (f, find_if-none p xs (rw f at e))
  ]

-- The greatest of the numbers, 0 if there is none.
abbrev pub max_of : List ℕ → ℕ
max_of [] = 0
max_of (x ∷ xs) = max x (max_of xs)
