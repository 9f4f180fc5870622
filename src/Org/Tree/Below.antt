-- ===== src/Org/Tree/Below.antt =====
-- Areas and positions that are created, deleted and restored in
-- services/org-service/src/org-structure keep the tree.
use sgd_backend.Base.{
  ℕ, ◌≡◌, ◌⊎◌, Bool, true, false, not, ◌&&◌, Bool-cases, inl, inr, Option, some, some_eq, List, [],
  ◌∷◌, ◌++◌, ◌==◌, length, select, if◌then◌else◌, All-append, All-imp, All-zip, All-update_where,
  arith,
}
use sgd_backend.Org.Store.{Departamento, Area, Cargo, Structure}
use sgd_backend.Org.Areas.{is_area, is_live_cargo_in, with_area, set_area_deleted}
use sgd_backend.Org.Cargos.{is_cargo, with_cargo, set_cargo_deleted}
use sgd_backend.Org.Tree.{
  is_area_there, has_departamento, has_area, IsUnder, IsPlaced, IsTree, some-append,
  some-update_where, none-selected,
}

pub IsPlaced-more :
    (ds : List Departamento) (areas more : List Area)
    → ((k : ℕ) → has_area k areas ≡ true → has_area k more ≡ true)
    → (c : Cargo) → IsPlaced ds areas c
    → IsPlaced ds more c
IsPlaced-more ds areas more grows c placed live =
    ((placed live).0, λ k at. grows k ((placed live).1 k at))

pub IsTree-with_area :
    (a : Area) (st : Structure)
    → has_departamento a.departamento_id st.departamentos ≡ true
    → IsTree st
    → IsTree (with_area a st)
IsTree-with_area a st under h = record {
  areas_under =
      All-append (IsUnder st.departamentos) st.areas (a ∷ []) h.areas_under ((λ live. under), tt);
  cargos_under =
      All-imp _ _
        (IsPlaced-more st.departamentos st.areas (st.areas ++ a ∷ [])
          (λ k. some-append (is_area_there k) st.areas (a ∷ [])))
        st.cargos h.cargos_under;
}

deleted-IsUnder :
    (ds : List Departamento) (b : Bool) (a : Area)
    → IsUnder ds a
    → IsUnder ds (if b then record a { deleted = true } else a)
deleted-IsUnder ds true a under live = cc
deleted-IsUnder ds false a under live = under live

kept_there :
    (org dep id k : ℕ) (a : Area)
    → (k == id) ≡ false
    → is_area_there k a ≡ true
    → is_area_there k (if is_area org dep id a then record a { deleted = true } else a) ≡ true
kept_there org dep id k a other h = by_case (Bool-cases (is_area org dep id a))
  where
    differs : is_area org dep id a ≡ true → ⊥
    differs e = ground arith

    by_case :
        (is_area org dep id a ≡ true) ⊎ (is_area org dep id a ≡ false)
        → is_area_there k (if is_area org dep id a then record a { deleted = true } else a) ≡ true
    by_case (inl t) = absurd (differs t)
    by_case (inr f) = rw f h

elsewhere :
    (c : Cargo) (id k : ℕ)
    → (not c.deleted && some_eq c.area_id id) ≡ false
    → c.deleted ≡ false
    → c.area_id ≡ some k
    → (k == id) ≡ false
elsewhere c id k e live at = rw (live, at) at e

pub IsTree-remove_area :
    (org dep id : ℕ) (st : Structure)
    → (length (select (is_live_cargo_in id) st.cargos) == 0) ≡ true
    → IsTree st
    → IsTree (set_area_deleted true org dep id st)
IsTree-remove_area org dep id st no_cargos h = record {
  areas_under =
      All-update_where _ _ (is_area org dep id) _
        (λ a. deleted-IsUnder st.departamentos (is_area org dep id a) a) st.areas h.areas_under;
  cargos_under =
      All-imp _ _
        (λ c both live. (
          (both.0 live).0,
          λ k at.
              some-update_where (is_area_there k) (is_area org dep id) _ st.areas
                (λ a there. kept_there org dep id k a (elsewhere c id k both.1 live at) there)
                ((both.0 live).1 k at),
        ))
        st.cargos (All-zip _ _ st.cargos h.cargos_under (none-selected _ st.cargos no_cargos));
}

restored-IsUnder :
    (ds : List Departamento) (org dep id : ℕ) (a : Area)
    → has_departamento dep ds ≡ true
    → IsUnder ds a
    → IsUnder ds (if is_area org dep id a then record a { deleted = false } else a)
restored-IsUnder ds org dep id a there under = by_case (Bool-cases (is_area org dep id a))
  where
    its : is_area org dep id a ≡ true → a.departamento_id ≡ dep
    its e = ground arith

    by_case :
        (is_area org dep id a ≡ true) ⊎ (is_area org dep id a ≡ false)
        → IsUnder ds (if is_area org dep id a then record a { deleted = false } else a)
    by_case (inl t) = rw t (λ live. rw (its t) there)
    by_case (inr f) = rw f under

revived :
    (p : Area → Bool) (k : ℕ) (a : Area)
    → is_area_there k a ≡ true
    → is_area_there k (if p a then record a { deleted = false } else a) ≡ true
revived p k a h = elim (Bool-cases (p a)) [
  | inl t ↦ rw t (alive a.deleted (a.id == k) h)
  | inr f ↦ rw f h
]
  where
    alive : (deleted same : Bool) → (not deleted && same) ≡ true → same ≡ true
    alive true same e = cc
    alive false same e = e

pub IsTree-restore_area :
    (org dep id : ℕ) (st : Structure)
    → has_departamento dep st.departamentos ≡ true
    → IsTree st
    → IsTree (set_area_deleted false org dep id st)
IsTree-restore_area org dep id st there h = record {
  areas_under =
      All-update_where _ _ (is_area org dep id) _
        (λ a. restored-IsUnder st.departamentos org dep id a there) st.areas h.areas_under;
  cargos_under =
      All-imp _ _
        (IsPlaced-more st.departamentos st.areas _ (λ k.
          some-update_where (is_area_there k) (is_area org dep id) _ st.areas
            (revived (is_area org dep id) k)))
        st.cargos h.cargos_under;
}

pub IsTree-with_cargo :
    (c : Cargo) (st : Structure)
    → IsPlaced st.departamentos st.areas c
    → IsTree st
    → IsTree (with_cargo c st)
IsTree-with_cargo c st placed h = record {
  areas_under = h.areas_under;
  cargos_under =
      All-append (IsPlaced st.departamentos st.areas) st.cargos (c ∷ []) h.cargos_under
        (placed, tt);
}

deleted-IsPlaced :
    (ds : List Departamento) (areas : List Area) (b : Bool) (c : Cargo)
    → IsPlaced ds areas c
    → IsPlaced ds areas (if b then record c { deleted = true } else c)
deleted-IsPlaced ds areas true c placed live = cc
deleted-IsPlaced ds areas false c placed live = placed live

pub IsTree-remove_cargo :
    (org dep : ℕ) (o : Option ℕ) (id : ℕ) (st : Structure)
    → IsTree st
    → IsTree (set_cargo_deleted true org dep o id st)
IsTree-remove_cargo org dep o id st h = record {
  areas_under = h.areas_under;
  cargos_under =
      All-update_where _ _ (is_cargo org dep o id) _
        (λ c. deleted-IsPlaced st.departamentos st.areas (is_cargo org dep o id c) c) st.cargos
        h.cargos_under;
}
