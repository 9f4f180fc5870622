-- ===== src/Org/Tree/Names.antt =====
-- A new name in services/org-service/src/org-structure keeps the tree.
use sgd_backend.Base.{
  ℕ, ◌≡◌, Bool, true, false, Option, none, some, get_or, List, ◌==◌, if◌then◌else◌, All-imp,
  All-update_where,
}
use sgd_backend.Base.Actions.{give}
use sgd_backend.Base.Actions.Keeps.{Keeps, action_rules}
use sgd_backend.Org.Store.{Departamento, Area, Cargo, Structure, Method, check_rename}
use sgd_backend.Org.Departamentos.{
  is_departamento, find_departamento, free_departamento_name, set_departamento_name,
  update_departamento,
}
use sgd_backend.Org.Areas.{is_area, find_area, free_area_name, set_area_name, update_area}
use sgd_backend.Org.Cargos.{is_cargo, find_cargo, free_cargo_name, set_cargo_name, update_cargo}
use sgd_backend.Org.Reads.{read, write}
use sgd_backend.Org.Tree.{
  is_departamento_there, is_area_there, IsUnder, IsPlaced, IsTree, some-update_where,
}
use sgd_backend.Org.Tree.Kept.{IsTree-more}
use sgd_backend.Org.Tree.Below.{IsPlaced-more}
use sgd_backend.Org.Tree.Methods.{query_rules}

departamento_renamed_there :
    (k name : ℕ) (b : Bool) (d : Departamento)
    → is_departamento_there k d ≡ true
    → is_departamento_there k (if b then record d { name = name } else d) ≡ true
departamento_renamed_there k name true d h = h
departamento_renamed_there k name false d h = h

area_renamed_there :
    (k name : ℕ) (b : Bool) (a : Area)
    → is_area_there k a ≡ true
    → is_area_there k (if b then record a { name = name } else a) ≡ true
area_renamed_there k name true a h = h
area_renamed_there k name false a h = h

renamed-IsUnder :
    (ds : List Departamento) (name : ℕ) (b : Bool) (a : Area)
    → IsUnder ds a
    → IsUnder ds (if b then record a { name = name } else a)
renamed-IsUnder ds name true a h live = h live
renamed-IsUnder ds name false a h live = h live

renamed-IsPlaced :
    (ds : List Departamento) (areas : List Area) (name : ℕ) (b : Bool) (c : Cargo)
    → IsPlaced ds areas c
    → IsPlaced ds areas (if b then record c { name = name } else c)
renamed-IsPlaced ds areas name true c h live = h live
renamed-IsPlaced ds areas name false c h live = h live

departamento_name-IsTree :
    (name org id : ℕ) (st : Structure) → IsTree st → IsTree (set_departamento_name name org id st)
departamento_name-IsTree name org id st = IsTree-more st _ (λ k.
    some-update_where (is_departamento_there k) (is_departamento org id) _ st.departamentos
      (λ d. departamento_renamed_there k name (is_departamento org id d) d))

area_name-IsTree :
    (name org dep id : ℕ) (st : Structure) → IsTree st → IsTree (set_area_name name org dep id st)
area_name-IsTree name org dep id st h = record {
  areas_under =
      All-update_where _ _ (is_area org dep id) _
        (λ a. renamed-IsUnder st.departamentos name (is_area org dep id a) a) st.areas
        h.areas_under;
  cargos_under =
      All-imp _ _
        (IsPlaced-more st.departamentos st.areas _ (λ k.
          some-update_where (is_area_there k) (is_area org dep id) _ st.areas
            (λ a. area_renamed_there k name (is_area org dep id a) a)))
        st.cargos h.cargos_under;
}

cargo_name-IsTree :
    (name org dep : ℕ) (o : Option ℕ) (id : ℕ) (st : Structure)
    → IsTree st
    → IsTree (set_cargo_name name org dep o id st)
cargo_name-IsTree name org dep o id st h = record {
  areas_under = h.areas_under;
  cargos_under =
      All-update_where _ _ (is_cargo org dep o id) _
        (λ c. renamed-IsPlaced st.departamentos st.areas name (is_cargo org dep o id c) c) st.cargos
        h.cargos_under;
}

pub Keeps-check_rename :
    {P : Structure → Type 0} (free : ℕ → Method (Unit {0})) (name : Option ℕ) (old : ℕ)
    → ((n : ℕ) → Keeps P (free n))
    → Keeps P (check_rename free name old)
Keeps-check_rename free none old keeps = search action_rules
Keeps-check_rename {P} free (some new) old keeps = by_case (new == old)
  where
    by_case : (b : Bool) → Keeps P (if b then give tt else free new)
    by_case true = search action_rules
    by_case false = keeps new

pub update_departamento-IsTree :
    (org id : ℕ) (name : Option ℕ) → Keeps IsTree (update_departamento org id name)
unfolding update_departamento
update_departamento-IsTree org id name = record {
  after = λ st h.
      read IsTree (find_departamento org id) _ st (λ now. search query_rules) h
        (λ d found.
          read IsTree (check_rename (free_departamento_name org) name d.name) _ st
            (λ now. search (query_rules, Keeps-check_rename)) h
            (λ t free.
              write IsTree _ _ st (departamento_name-IsTree (get_or name d.name) org id st h)
                (λ u. search query_rules)));
}

pub update_area-IsTree :
    (org dep id : ℕ) (name : Option ℕ) → Keeps IsTree (update_area org dep id name)
unfolding update_area
update_area-IsTree org dep id name = record {
  after = λ st h.
      read IsTree (find_area org dep id) _ st (λ now. search query_rules) h
        (λ a found.
          read IsTree (check_rename (free_area_name dep) name a.name) _ st
            (λ now. search (query_rules, Keeps-check_rename)) h
            (λ t free.
              write IsTree _ _ st (area_name-IsTree (get_or name a.name) org dep id st h)
                (λ u. search query_rules)));
}

pub update_cargo-IsTree :
    (org dep : ℕ) (o : Option ℕ) (id : ℕ) (name : Option ℕ)
    → Keeps IsTree (update_cargo org dep o id name)
unfolding update_cargo
update_cargo-IsTree org dep o id name = record {
  after = λ st h.
      read IsTree (find_cargo org dep o id) _ st (λ now. search query_rules) h
        (λ c found.
          read IsTree (check_rename (free_cargo_name dep o) name c.name) _ st
            (λ now. search (query_rules, Keeps-check_rename)) h
            (λ t free.
              write IsTree _ _ st (cargo_name-IsTree (get_or name c.name) org dep o id st h)
                (λ u. search query_rules)));
}
