-- ===== src/Org/Tree/Kept.antt =====
-- What is written in services/org-service/src/org-structure keeps the tree.
use sgd_backend.Base.{
  ℕ, ◌≡◌, ◌⊎◌, Bool, true, false, not, ◌&&◌, Bool-cases, inl, inr, List, [], ◌∷◌, ◌==◌,
  update_where, length, select, if◌then◌else◌, All-imp, All-zip, arith,
}
use sgd_backend.Org.Store.{Departamento, Structure}
use sgd_backend.Org.Departamentos.{
  is_live_area_of, is_live_cargo_of, is_departamento, with_departamento, set_departamento_deleted,
}
use sgd_backend.Org.Tree.{
  is_departamento_there, has_departamento, IsTree, some-append, some-update_where, none-selected,
}

-- More departamentos and areas keep every row placed.
pub IsTree-more :
    (st : Structure) (ds : List Departamento)
    → ((k : ℕ) → has_departamento k st.departamentos ≡ true → has_departamento k ds ≡ true)
    → IsTree st
    → IsTree (record st { departamentos = ds })
IsTree-more st ds more h = record {
  areas_under = All-imp _ _ (λ a under live. more _ (under live)) st.areas h.areas_under;
  cargos_under =
      All-imp _ _ (λ c placed live. (more _ (placed live).0, (placed live).1)) st.cargos
        h.cargos_under;
}

pub IsTree-with_departamento :
    (d : Departamento) (st : Structure) → IsTree st → IsTree (with_departamento d st)
IsTree-with_departamento d st =
    IsTree-more st _ (λ k. some-append (is_departamento_there k) st.departamentos (d ∷ []))

brought_back :
    (p : Departamento → Bool) (k : ℕ) (d : Departamento)
    → is_departamento_there k d ≡ true
    → is_departamento_there k (if p d then record d { deleted = false } else d) ≡ true
brought_back p k d h = elim (Bool-cases (p d)) [ inl t ↦ rw t (alive k d h) | inr f ↦ rw f h ]
  where
    alive :
        (k : ℕ) (d : Departamento)
        → is_departamento_there k d ≡ true
        → (not false && d.id == k) ≡ true
    alive k d h = ground arith

pub IsTree-restore_departamento :
    (org id : ℕ) (st : Structure) → IsTree st → IsTree (set_departamento_deleted false org id st)
IsTree-restore_departamento org id st = IsTree-more st _ (λ k.
    some-update_where (is_departamento_there k) (is_departamento org id) _ st.departamentos
      (brought_back (is_departamento org id) k))

-- The deletion of one row leaves the others.
others_stay :
    (org id k : ℕ) (ds : List Departamento)
    → (k == id) ≡ false
    → has_departamento k ds ≡ true
    → has_departamento k
        (update_where (is_departamento org id) (λ d. record d { deleted = true }) ds)
      ≡ true
others_stay org id k ds other =
    some-update_where (is_departamento_there k) (is_departamento org id) _ ds
      (λ d h. stays d (Bool-cases (is_departamento org id d)) h)
  where
    differs :
        (d : Departamento) → is_departamento_there k d ≡ true → is_departamento org id d ≡ true → ⊥
    differs d h e = ground arith

    stays :
        (d : Departamento)
        → (is_departamento org id d ≡ true) ⊎ (is_departamento org id d ≡ false)
        → is_departamento_there k d ≡ true
        → is_departamento_there k
            (if is_departamento org id d then record d { deleted = true } else d)
          ≡ true
    stays d (inl t) h = absurd (differs d h t)
    stays d (inr f) h = rw f h

pub IsTree-remove_departamento :
    (org id : ℕ) (st : Structure)
    → (length (select (is_live_area_of id) st.areas) == 0) ≡ true
    → (length (select (is_live_cargo_of id) st.cargos) == 0) ≡ true
    → IsTree st
    → IsTree (set_departamento_deleted true org id st)
IsTree-remove_departamento org id st no_areas no_cargos h = record {
  areas_under =
      All-imp _ _
        (λ a both live.
          others_stay org id _ st.departamentos (elsewhere a.deleted _ _ live both.1) (both.0 live))
        st.areas (All-zip _ _ st.areas h.areas_under (none-selected _ st.areas no_areas));
  cargos_under =
      All-imp _ _
        (λ c both live. (
          others_stay org id _ st.departamentos (elsewhere c.deleted _ _ live both.1)
              (both.0 live).0,
          (both.0 live).1,
        ))
        st.cargos (All-zip _ _ st.cargos h.cargos_under (none-selected _ st.cargos no_cargos));
}
  where
    elsewhere :
        (deleted : Bool) (k id : ℕ)
        → deleted ≡ false
        → (not deleted && k == id) ≡ false
        → (k == id) ≡ false
    elsewhere true k id live e = cc
    elsewhere false k id live e = e
