-- ===== src/Base/Count.antt =====
-- How many rows lie above a bound, for rows that a column tells apart.
use Prim.Native.Nat.{ℕ, suc, ◌≤◌, ◌<◌}
use mathlib.Core.Path.{◌≡◌, refl, ap, ◌∙◌}
use mathlib.Core.Bool.{Bool, false}
use mathlib.Core.Logic.{◌≢◌, inl, inr}
use mathlib.Core.List.{List, [], ◌∷◌, Memᴰ}
use native.Mathlib.Omega.{arith}
use sgd_backend.Base.Tests.{ltb, Bool-cases}
use sgd_backend.Base.Lists.{All, All-imp, All-zip, length}
use sgd_backend.Base.Members.{Memᴰ-All}
use sgd_backend.Base.Table.{
  update_where, length-update_where, select, select-update_where, Distinct,
}

module _ {ℓ} {A : Type ℓ} (key : A → ℕ) where
  unfoldable pub count_above : ℕ → List A → ℕ
  count_above k xs = length (select (λ x. ltb k (key x)) xs)

  pub count_above-update_where :
      (k : ℕ) (p : A → Bool) (f : A → A)
      → ((x : A) → key (f x) ≡ key x)
      → (xs : List A) → count_above k (update_where p f xs) ≡ count_above k xs
  unfolding count_above
  count_above-update_where k p f same xs =
      ap length (select-update_where (λ x. ltb k (key x)) p f (λ x. ap (ltb k) (same x)) xs)
      ∙ length-update_where p f (select (λ x. ltb k (key x)) xs)

  count_above_cons_in :
      (k : ℕ) (x : A) (xs : List A) → k < key x → count_above k (x ∷ xs) ≡ suc (count_above k xs)
  unfolding count_above select
  count_above_cons_in k x xs h = ground arith

  count_above_cons_out :
      (k : ℕ) (x : A) (xs : List A) → key x ≤ k → count_above k (x ∷ xs) ≡ count_above k xs
  unfolding count_above select
  count_above_cons_out k x xs h = ground arith

  pub count_above-zero :
      (k : ℕ) (xs : List A) → All (λ x. ltb k (key x) ≡ false) xs → count_above k xs ≡ 0
  unfolding count_above select
  count_above-zero k [] h = refl
  count_above-zero k (x ∷ xs) h = rw h.0 (count_above-zero k xs h.1)

  same_count :
      (k m : ℕ) (xs : List A)
      → k ≤ m
      → All (λ x. k < key x → m < key x) xs
      → count_above k xs ≡ count_above m xs
  same_count k m [] le h = unfold count_above select in refl
  same_count k m (x ∷ xs) le h = elim (Bool-cases (ltb k (key x))) [
    | inl t ↦ omega (
      arith,
      same_count k m xs le h.1,
      count_above_cons_in k x xs (ground arith),
      count_above_cons_in m x xs (h.0 (ground arith)),
    )
    | inr f ↦ omega (
      arith,
      same_count k m xs le h.1,
      count_above_cons_out k x xs (ground arith),
      count_above_cons_out m x xs (ground arith),
    )
  ]

  -- One row fewer lies above the least row above `k`.
  pub count_above-next :
      (k : ℕ) (n : A) (xs : List A)
      → Distinct key xs
      → Memᴰ n xs
      → k < key n
      → All (λ x. k < key x → key n ≤ key x) xs
      → count_above k xs ≡ suc (count_above (key n) xs)
  count_above-next k n [] d m lt h = elim m [ ]
  count_above-next k n (x ∷ xs) d (Memᴰ.head e) lt h =
      let same : key n ≡ key x = ap key e in
      let rest : count_above k xs ≡ count_above (key n) xs = same_count k (key n) xs (omega arith) (
        All-imp (λ y. (key x ≢ key y) × (k < key y → key n ≤ key y)) _
          (λ y f above. let le = f.1 above in omega (arith, f.0)) xs (All-zip _ _ xs d.0 h.1)) in
      omega (
        arith,
        rest,
        count_above_cons_in k x xs (omega arith),
        count_above_cons_out (key n) x xs (omega arith),
      )
  count_above-next k n (x ∷ xs) d (Memᴰ.tail m) lt h =
      let ih = count_above-next k n xs d.1 m lt h.1 in
      elim (Bool-cases (ltb k (key x))) [
        | inl t ↦
            let above : k < key x = ground arith in
            omega (
              arith,
              ih,
              h.0 above,
              Memᴰ-All (λ y. key x ≢ key y) xs m d.0,
              count_above_cons_in k x xs above,
              count_above_cons_in (key n) x xs
                  (omega (arith, h.0 above, Memᴰ-All (λ y. key x ≢ key y) xs m d.0)),
            )
        | inr f ↦
            let below : key x ≤ k = ground arith in
            omega (
              arith,
              ih,
              count_above_cons_out k x xs below,
              count_above_cons_out (key n) x xs (omega arith),
            )
      ]
