-- ===== src/Org/Tree/Orphans.antt =====
-- What `restoreDept` of services/org-service/src/org-structure/cargos.service.ts does not look at.
use sgd_backend.Base.{
  ℕ, ◌≡◌, refl, sym, ap, ◌∙◌, Bool, true, false, none, some, find_if, update_where, find_if-passes,
  find_if-update_where, find_if-All, arith,
}
use sgd_backend.Base.Actions.{◌>>=◌}
use sgd_backend.Org.Store.{Cargo, Structure}
use sgd_backend.Org.Cargos.{
  is_cargo, is_named_cargo, free_cargo_name, restore_cargo, set_cargo_deleted,
}
use sgd_backend.Org.Reads.{Keeps-find_cargo}
use sgd_backend.Org.Tree.{has_departamento, IsPlaced, IsTree}

restored :
    (org dep id : ℕ) (c : Cargo) (st : Structure)
    → find_if (is_cargo org dep none id) st.cargos ≡ some c
    → c.deleted ≡ true
    → find_if (is_named_cargo dep none c.name) st.cargos ≡ none
    → (restore_cargo org dep none id st).1 ≡ set_cargo_deleted false org dep none id st
unfolding restore_cargo free_cargo_name ◌>>=◌
restored org dep id c st found gone free =
    let after = set_cargo_deleted false org dep none id st in
    rw (found, gone, free)
      ((Keeps-find_cargo {P = λ s. s ≡ after} org dep none id).after after refl)

its_departamento :
    (org dep id : ℕ) (c : Cargo) → is_cargo org dep none id c ≡ true → c.departamento_id ≡ dep
its_departamento org dep id c e = ground arith

-- The row that is restored.
orphan :
    (org dep id : ℕ) (c : Cargo) (st : Structure)
    → find_if (is_cargo org dep none id) st.cargos ≡ some c
    → has_departamento dep st.departamentos ≡ false
    → IsTree (set_cargo_deleted false org dep none id st)
    → ⊥
orphan org dep id c st found no_parent tree =
    let p = is_cargo org dep none id in
    let passes = find_if-passes p st.cargos found in
    let back : Cargo = record c { deleted = false } in
    let again : find_if p (update_where p (λ x. record x { deleted = false }) st.cargos)
        ≡ some back =
      find_if-update_where p p (λ x. record x { deleted = false }) (λ x. refl) st.cargos
      ∙ rw (found, passes) refl in
    let placed = find_if-All (IsPlaced st.departamentos st.areas) p _ again tree.cargos_under in
    absurd (
      neither
        (ap (λ k. has_departamento k st.departamentos) (sym (its_departamento org dep id c passes))
          ∙ (placed refl).0)
        no_parent)
  where
    neither : {b : Bool} → b ≡ true → b ≡ false → ⊥
    neither e f = cc

-- `restoreDept` restores a deleted position whose name is free without a look at its departamento:
-- where that one is deleted, the position is then a row that is not deleted under one that is, so
-- that the structure is no tree.
pub restore_cargo-orphans :
    (org dep id : ℕ) (c : Cargo) (st : Structure)
    → find_if (is_cargo org dep none id) st.cargos ≡ some c
    → c.deleted ≡ true
    → find_if (is_named_cargo dep none c.name) st.cargos ≡ none
    → has_departamento dep st.departamentos ≡ false
    → ¬ IsTree (restore_cargo org dep none id st).1
restore_cargo-orphans org dep id c st found gone free no_parent tree =
    orphan org dep id c st found no_parent (rw (restored org dep id c st found gone free) at tree)
