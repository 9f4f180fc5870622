-- ===== src/Base/Members.antt =====
-- Membership in lists and tables, and the rows that a unique column tells apart.
use Prim.Native.Nat.{ℕ, suc, ◌≤◌}
use mathlib.Core.Path.{◌≡◌, refl, sym, ap, subst, ◌∙◌}
use mathlib.Core.Bool.{Bool, true, false}
use mathlib.Core.Logic.{◌≢◌, inl, inr}
use mathlib.Core.Option.{some}
use mathlib.Core.List.{List, [], ◌∷◌, Memᴰ}
use native.Mathlib.Omega.{arith}
use sgd_backend.Base.Tests.{if◌then◌else◌, Bool-cases, some_injective}
use sgd_backend.Base.Lists.{All, All-imp, find_if, length, head?}
use sgd_backend.Base.Table.{update_where, Distinct}
use sgd_backend.Base.Sort.{sort, Sorted, All-sort, sort-All, sort-Sorted, length-sort}

module _ {ℓ} {A : Type ℓ} where
  pub Memᴰ-All {κ} : (P : A → Type κ) (xs : List A) {a : A} → Memᴰ a xs → All P xs → P a
  Memᴰ-All P [] m h = elim m [ ]
  Memᴰ-All P (x ∷ xs) (Memᴰ.head e) h = subst P (sym e) h.0
  Memᴰ-All P (x ∷ xs) (Memᴰ.tail m) h = Memᴰ-All P xs m h.1

  pub All-of_Memᴰ {κ} : (P : A → Type κ) (xs : List A) → ((a : A) → Memᴰ a xs → P a) → All P xs
  All-of_Memᴰ P [] f = tt
  All-of_Memᴰ P (x ∷ xs) f = (f x (Memᴰ.head refl), All-of_Memᴰ P xs (λ a m. f a (Memᴰ.tail m)))

  pub find_if-Memᴰ : (p : A → Bool) (xs : List A) {a : A} → find_if p xs ≡ some a → Memᴰ a xs
  unfolding find_if
  find_if-Memᴰ p [] e = cc
  find_if-Memᴰ p (x ∷ xs) {a} e = elim (Bool-cases (p x)) [
    | inl t ↦ Memᴰ.head (sym (some_injective (rw t at e)))
    | inr f ↦ Memᴰ.tail (find_if-Memᴰ p xs (rw f at e))
  ]

  pub Memᴰ-update_where :
      (p : A → Bool) (f : A → A) (xs : List A) {a : A}
      → Memᴰ a xs
      → Memᴰ (if p a then f a else a) (update_where p f xs)
  unfolding update_where
  Memᴰ-update_where p f [] m = elim m [ ]
  Memᴰ-update_where p f (x ∷ xs) (Memᴰ.head e) = Memᴰ.head (ap (λ y. if p y then f y else y) e)
  Memᴰ-update_where p f (x ∷ xs) (Memᴰ.tail m) = Memᴰ.tail (Memᴰ-update_where p f xs m)

  -- The only row that passes is the one that is found.
  pub find_if-only :
      (p : A → Bool) (xs : List A) {a : A}
      → Memᴰ a xs
      → p a ≡ true
      → All (λ x. p x ≡ true → x ≡ a) xs
      → find_if p xs ≡ some a
  unfolding find_if
  find_if-only p [] m t only = elim m [ ]
  find_if-only p (x ∷ xs) {a} m t only = elim (Bool-cases (p x)) [
    | inl u ↦ rw u (ap some (only.0 u))
    | inr f ↦ rw f (find_if-only p xs (later m f) t only.1)
  ]
    where
      later : Memᴰ a (x ∷ xs) → p x ≡ false → Memᴰ a xs
      later (Memᴰ.head e) f = let wrong : true ≡ false = sym t ∙ ap p e ∙ f in cc
      later (Memᴰ.tail n) f = n

module _ {ℓ} {A : Type ℓ} (key : A → ℕ) where
  Distinct-pairs :
      (xs : List A) → Distinct key xs → All (λ a. All (λ x. key x ≡ key a → x ≡ a) xs) xs
  Distinct-pairs [] d = tt
  Distinct-pairs (x ∷ xs) d = (
    (λ _. refl, All-imp _ _ (λ y apart e. absurd (apart (sym e))) xs d.0),
    All-of_Memᴰ _ xs λ a m. (
      λ e. absurd (Memᴰ-All (λ y. key x ≢ key y) xs m d.0 e),
      Memᴰ-All (λ b. All (λ y. key y ≡ key b → y ≡ b) xs) xs m (Distinct-pairs xs d.1),
    ),
  )

  -- A row is the only one with its value in a unique column.
  pub Distinct-only :
      (xs : List A) {a : A} → Distinct key xs → Memᴰ a xs → All (λ x. key x ≡ key a → x ≡ a) xs
  Distinct-only xs d m = Memᴰ-All _ xs m (Distinct-pairs xs d)

pub sort-Memᴰ {ℓ} :
    {A : Type ℓ} (order : A → ℕ) (xs : List A) {a : A} → Memᴰ a (sort order xs) → Memᴰ a xs
sort-Memᴰ order xs m =
    Memᴰ-All (λ a. Memᴰ a xs) (sort order xs) m (All-sort order _ xs (All-of_Memᴰ _ xs (λ a n. n)))

module _ {ℓ} {A : Type ℓ} (order : A → ℕ) where
  head?-Sorted :
      (ys : List A) {a : A}
      → Sorted order ys
      → head? ys ≡ some a
      → Memᴰ a ys × All (λ x. order a ≤ order x) ys
  head?-Sorted [] s e = cc
  head?-Sorted (y ∷ ys) s e =
      let same = some_injective e in
      (
        Memᴰ.head (sym same),
        subst (λ b. All (λ x. order b ≤ order x) (y ∷ ys)) same (omega arith, s.0),
      )

  -- The first row of the sorted list is a least row.
  pub head?-sort :
      (xs : List A) {a : A}
      → head? (sort order xs) ≡ some a
      → Memᴰ a xs × All (λ x. order a ≤ order x) xs
  head?-sort xs e =
      let (m, least) = head?-Sorted (sort order xs) (sort-Sorted order xs) e in
      (sort-Memᴰ order xs m, sort-All order _ xs least)

  pub head?-sort-some : (x : A) (xs : List A) → (a : A) × (head? (sort order (x ∷ xs)) ≡ some a)
  head?-sort-some x xs = first (sort order (x ∷ xs)) (length-sort order (x ∷ xs))
    where
      first : (ys : List A) → length ys ≡ suc (length xs) → (a : A) × (head? ys ≡ some a)
      first [] e = absurd (omega arith)
      first (y ∷ ys) e = (y, refl)
