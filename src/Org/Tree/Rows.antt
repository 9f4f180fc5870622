-- ===== src/Org/Tree/Rows.antt =====
-- The methods of areas.service.ts and cargos.service.ts of services/org-service/src/org-structure
-- keep the tree.
use sgd_backend.Base.{
  ℕ, ◌≡◌, ◌⊎◌, refl, sym, ap, ◌∙◌, Bool, true, false, ◌&&◌, Bool-cases, inl, inr, Option, none,
  some, some_eq, some_injective, List, ◌==◌, find_if, if◌then◌else◌, All-update_where, arith,
}
use sgd_backend.Base.Actions.{returns, found_or, change, require}
use sgd_backend.Base.Actions.Keeps.{Keeps}
use sgd_backend.Base.Actions.Results.{require-returns, bind-returns}
use sgd_backend.Org.Store.{
  area, cargo, Departamento, Area, Cargo, Structure, not_found, Env, assert_none,
}
use sgd_backend.Org.Departamentos.{find_departamento}
use sgd_backend.Org.Areas.{
  is_area, is_live_area, find_area, free_area_name, create_area, remove_area, restore_area,
  new_area,
}
use sgd_backend.Org.Cargos.{
  is_cargo, is_live_cargo, find_parent, find_area_first, find_cargo, free_cargo_name, create_cargo,
  remove_cargo, restore_cargo, new_cargo,
}
use sgd_backend.Org.Reads.{read, read_now, write}
use sgd_backend.Org.Tree.{has_departamento, has_area, IsPlaced, IsTree}
use sgd_backend.Org.Tree.Below.{
  IsTree-with_area, IsTree-remove_area, IsTree-restore_area, IsTree-with_cargo, IsTree-remove_cargo,
}
use sgd_backend.Org.Tree.Methods.{query_rules, found_departamento, found_area}

pub create_area-IsTree :
    (env : Env) (org dep name : ℕ) → Keeps IsTree (create_area env org dep name)
unfolding create_area
create_area-IsTree env org dep name = record {
  after = λ st h.
      read IsTree (find_departamento org dep) _ st (λ now. search query_rules) h
        (λ d found.
          read IsTree (free_area_name dep name) _ st (λ now. search query_rules) h
            (λ t free.
              write IsTree _ _ st
                (IsTree-with_area (new_area env org dep name) st
                  (found_departamento org dep st found) h)
                (λ u. search query_rules)));
}

pub remove_area-IsTree : (env : Env) (org dep id : ℕ) → Keeps IsTree (remove_area env org dep id)
unfolding remove_area change
remove_area-IsTree env org dep id = record {
  after = λ st h.
      read IsTree (find_area org dep id) _ st (λ now. search query_rules) h
        (λ a found.
          read IsTree (assert_none env area id) _ st (λ now. search query_rules) h
            (λ t clear. read_now IsTree _ st (
              read IsTree (found_or (find_if (is_live_area org dep id) st.areas) not_found) _ st
                (λ now. search query_rules) h
                (λ a again.
                  read IsTree (require _ _) _ st (λ now. search query_rules) h
                    (λ t empty.
                      read IsTree (require _ _) _ st (λ now. search query_rules) h
                        (λ t free.
                          IsTree-remove_area org dep id st (require-returns _ _ st empty) h))))));
}

pub restore_area-IsTree : (org dep id : ℕ) → Keeps IsTree (restore_area org dep id)
unfolding restore_area
restore_area-IsTree org dep id = record {
  after = λ st h.
      read IsTree (find_departamento org dep) _ st (λ now. search query_rules) h
        (λ d found. read_now IsTree _ st (
          read IsTree (found_or (find_if (is_area org dep id) st.areas) not_found) _ st
            (λ now. search query_rules) h
            (λ a stored.
              read IsTree (require a.deleted _) _ st (λ now. search query_rules) h
                (λ t gone.
                  read IsTree (free_area_name dep a.name) _ st (λ now. search query_rules) h
                    (λ t free.
                      write IsTree _ _ st
                        (IsTree-restore_area org dep id st (found_departamento org dep st found) h)
                        (λ u. search query_rules))))));
}

-- The rows above a position.
HasParent : (dep : ℕ) → Option ℕ → Structure → Type 0
HasParent dep o st =
    (has_departamento dep st.departamentos ≡ true)
    × ((k : ℕ) → o ≡ some k → has_area k st.areas ≡ true)

parent_there :
    (org dep : ℕ) (o : Option ℕ) (st : Structure) {u : Unit {0}}
    → (find_parent org dep o st).0 ≡ returns u
    → HasParent dep o st
unfolding HasParent
parent_there org dep none st e =
    let (d, found, rest) = bind-returns (find_departamento org dep) _ st _ e in
    (found_departamento org dep st found, λ k at. cc)
parent_there org dep (some a) st e =
    let (x, found, rest) = bind-returns (find_area org dep a) _ st _ e in
    let (above, here) = found_area org dep a st found in
    (above, λ k at. rw⁻¹ (some_injective at) here)

pub create_cargo-IsTree :
    (env : Env) (org dep : ℕ) (o : Option ℕ) (name : ℕ)
    → Keeps IsTree (create_cargo env org dep o name)
unfolding create_cargo HasParent
create_cargo-IsTree env org dep o name = record {
  after = λ st h.
      read IsTree (find_parent org dep o) _ st (λ now. search query_rules) h
        (λ t found.
          read IsTree (free_cargo_name dep o name) _ st (λ now. search query_rules) h
            (λ t free.
              write IsTree _ _ st
                (IsTree-with_cargo (new_cargo env org dep o name) st
                  (λ live. parent_there org dep o st found) h)
                (λ u. search query_rules)));
}

pub remove_cargo-IsTree :
    (env : Env) (org dep : ℕ) (o : Option ℕ) (id : ℕ) → Keeps IsTree (remove_cargo env org dep o id)
unfolding remove_cargo change
remove_cargo-IsTree env org dep o id = record {
  after = λ st h.
      read IsTree (find_cargo org dep o id) _ st (λ now. search query_rules) h
        (λ c found.
          read IsTree (assert_none env cargo c.id) _ st (λ now. search query_rules) h
            (λ t clear. read_now IsTree _ st (
              read IsTree (found_or (find_if (is_live_cargo org dep o id) st.cargos) not_found) _ st
                (λ now. search query_rules) h
                (λ locked again.
                  read IsTree (require _ _) _ st (λ now. search query_rules) h
                    (λ t free. IsTree-remove_cargo org dep o id st h)))));
}

some_eq-true : (o : Option ℕ) (a : ℕ) → some_eq o a ≡ true → o ≡ some a
some_eq-true none a e = cc
some_eq-true (some b) a e = ap (λ x. some x) (ground arith)

last_of : (p q r s : Bool) → (p && q && r && s) ≡ true → s ≡ true
last_of true true true s e = e
last_of true true false s e = cc
last_of true false r s e = cc
last_of false q r s e = cc

restored-IsPlaced :
    (ds : List Departamento) (areas : List Area) (org dep a id : ℕ) (c : Cargo)
    → has_departamento dep ds ≡ true
    → has_area a areas ≡ true
    → IsPlaced ds areas c
    → IsPlaced ds areas (if is_cargo org dep (some a) id c then record c { deleted = false } else c)
restored-IsPlaced ds areas org dep a id c above here placed =
    by_case (Bool-cases (is_cargo org dep (some a) id c))
  where
    its : is_cargo org dep (some a) id c ≡ true → (c.departamento_id ≡ dep) × (c.area_id ≡ some a)
    its e = (
      ground arith,
      some_eq-true c.area_id a (
          last_of (c.id == id) (c.org_id == org) (c.departamento_id == dep) (some_eq c.area_id a)
            e),
    )

    by_case :
        (is_cargo org dep (some a) id c ≡ true) ⊎ (is_cargo org dep (some a) id c ≡ false)
        → IsPlaced ds areas
            (if is_cargo org dep (some a) id c then record c { deleted = false } else c)
    by_case (inl t) =
        rw t
          (λ live. (rw ((its t).0) above, λ k at. rw⁻¹ (some_injective (sym (its t).1 ∙ at)) here))
    by_case (inr f) = rw f placed

pub restore_cargo-IsTree : (org dep a id : ℕ) → Keeps IsTree (restore_cargo org dep (some a) id)
unfolding restore_cargo HasParent
restore_cargo-IsTree org dep a id = record {
  after = λ st h.
      read IsTree (find_area_first org dep (some a)) _ st (λ now. search query_rules) h
        (λ t found.
          let (above, here) = parent_there org dep (some a) st found in
          read_now IsTree _ st (
            read IsTree (found_or (find_if (is_cargo org dep (some a) id) st.cargos) not_found) _ st
              (λ now. search query_rules) h
              (λ c stored.
                read IsTree (require c.deleted _) _ st (λ now. search query_rules) h
                  (λ t gone.
                    read IsTree (free_cargo_name dep (some a) c.name) _ st
                      (λ now. search query_rules) h
                      (λ t free.
                        write IsTree _ _ st
                          (record {
                            areas_under = h.areas_under;
                            cargos_under =
                                All-update_where _ _ (is_cargo org dep (some a) id) _
                                  (λ x.
                                    restored-IsPlaced st.departamentos st.areas org dep a id x above
                                      (here a refl))
                                  st.cargos h.cargos_under;
                          })
                          (λ u. search query_rules))))));
}
