-- ===== src/Org/Tree.antt =====
-- The tree of services/org-service/src/org-structure: what is not deleted lies under what is not
-- deleted.
pub mod Kept
pub mod Below
pub mod Methods
pub mod Rows
pub mod Histories
pub mod Orphans
pub mod Names
use sgd_backend.Base.{
  ℕ, zero, suc, ◌≡◌, refl, sym, ap, ◌∙◌, Bool, true, false, not, ◌&&◌, Bool-cases, inl, inr, Option,
  none, some, is_some, some_eq, some_injective, List, [], ◌∷◌, ◌++◌, ◌==◌, ==_iff, find_if,
  update_where, length, select, if◌then◌else◌, All, All-append, All-imp, All-zip, arith,
}
use sgd_backend.Org.Store.{Departamento, Area, Cargo, Structure}
use sgd_backend.Org.Departamentos.{
  is_live_departamento, is_live_area_of, is_live_cargo_of, is_departamento,
}
use sgd_backend.Org.Areas.{is_area, is_live_area, is_live_cargo_in}
use sgd_backend.Org.Cargos.{is_cargo}

abbrev pub is_departamento_there : ℕ → Departamento → Bool
is_departamento_there k d = not d.deleted && d.id == k

abbrev pub is_area_there : ℕ → Area → Bool
is_area_there k a = not a.deleted && a.id == k

abbrev pub has_departamento : ℕ → List Departamento → Bool
has_departamento k ds = is_some (find_if (is_departamento_there k) ds)

abbrev pub has_area : ℕ → List Area → Bool
has_area k areas = is_some (find_if (is_area_there k) areas)

abbrev pub IsUnder : List Departamento → Area → Type 0
IsUnder ds a = a.deleted ≡ false → has_departamento a.departamento_id ds ≡ true

abbrev pub IsPlaced : List Departamento → List Area → Cargo → Type 0
IsPlaced ds areas c =
    c.deleted ≡ false
    → (has_departamento c.departamento_id ds ≡ true)
      × ((k : ℕ) → c.area_id ≡ some k → has_area k areas ≡ true)

-- Every area that is not deleted has a departamento that is not, and so has every position, with an
-- area that is not deleted where it has one.
pub record IsTree (st : Structure) : Type 0 where
  pub areas_under : All (IsUnder st.departamentos) st.areas
  pub cargos_under : All (IsPlaced st.departamentos st.areas) st.cargos

not_none : (n : ℕ) → (suc n == 0) ≡ true → ⊥
not_none n e = ground arith

module _ {ℓ} {A : Type ℓ} (q : A → Bool) where
  pub found-some :
      (p : A → Bool) (xs : List A) {a : A}
      → find_if p xs ≡ some a
      → ((x : A) → p x ≡ true → q x ≡ true)
      → is_some (find_if q xs) ≡ true
  unfolding find_if
  found-some p [] e h = cc
  found-some p (x ∷ xs) e h = elim (Bool-cases (q x)) [
    | inl t ↦ rw t refl
    | inr f ↦ elim (Bool-cases (p x)) [
      | inl t ↦ rw (h x t) refl
      | inr g ↦ rw f (found-some p xs (rw g at e) h)
    ]
  ]

  pub some-append :
      (xs ys : List A) → is_some (find_if q xs) ≡ true → is_some (find_if q (xs ++ ys)) ≡ true
  unfolding find_if
  some-append [] ys h = cc
  some-append (x ∷ xs) ys h = elim (Bool-cases (q x)) [
    | inl t ↦ rw t refl
    | inr f ↦ rw f (some-append xs ys (rw f at h))
  ]

  pub some-update_where :
      (p : A → Bool) (f : A → A) (xs : List A)
      → ((x : A) → q x ≡ true → q (if p x then f x else x) ≡ true)
      → is_some (find_if q xs) ≡ true
      → is_some (find_if q (update_where p f xs)) ≡ true
  unfolding find_if update_where
  some-update_where p f [] keeps h = cc
  some-update_where p f (x ∷ xs) keeps h = elim (Bool-cases (q x)) [
    | inl t ↦ rw (keeps x t) refl
    | inr g ↦ elim (Bool-cases (q (if p x then f x else x))) [
      | inl t ↦ rw t refl
      | inr k ↦ rw k (some-update_where p f xs keeps (rw g at h))
    ]
  ]

  pub none-selected : (xs : List A) → (length (select q xs) == 0) ≡ true → All (λ x. q x ≡ false) xs
  unfolding select
  none-selected [] h = tt
  none-selected (x ∷ xs) h = elim (Bool-cases (q x)) [
    | inl t ↦ absurd (not_none (length (select q xs)) (rw t at h))
    | inr f ↦ (f, none-selected xs (rw f at h))
  ]
