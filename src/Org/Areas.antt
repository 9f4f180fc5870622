-- ===== src/Org/Areas.antt =====
-- `AreasService` of services/org-service/src/org-structure/areas.service.ts.
use sgd_backend.Base.{
  get_or, Option, ℕ, Bool, true, false, not, ◌&&◌, is_some, some_eq, [], ◌∷◌, ◌++◌, ◌==◌, length,
  find_if, select, update_where,
}
use sgd_backend.Base.Actions.{give, found_or, current, change, require, ◌>>=◌, ◌>>◌}
use sgd_backend.Org.Store.{
  check_rename, area, Area, Cargo, Structure, not_found, already_exists, has_dependencies,
  has_pending_operation, not_deleted, Env, Method, assert_none,
}
use sgd_backend.Org.Leases.{count_active}
use sgd_backend.Org.Departamentos.{find_departamento}

abbrev pub is_area : (org dep id : ℕ) → Area → Bool
is_area org dep id a = a.id == id && a.org_id == org && a.departamento_id == dep

abbrev pub is_live_area : (org dep id : ℕ) → Area → Bool
is_live_area org dep id a = not a.deleted && is_area org dep id a

abbrev pub is_named_area : (dep name : ℕ) → Area → Bool
is_named_area dep name a = not a.deleted && (a.departamento_id == dep && a.name == name)

abbrev pub is_live_cargo_in : ℕ → Cargo → Bool
is_live_cargo_in id c = not c.deleted && some_eq c.area_id id

-- The one row with that primary key.
abbrev pub set_area_deleted : Bool → (org dep id : ℕ) → Structure → Structure
set_area_deleted b org dep id st = record st {
  areas = update_where (is_area org dep id) (λ a. record a { deleted = b }) st.areas;
}

abbrev pub with_area : Area → Structure → Structure
with_area a st = record st { areas = st.areas ++ a ∷ [] }

-- `findOne`, which `findOneLocked` repeats.
unfoldable pub find_area : (org dep id : ℕ) → Method Area
find_area org dep id = do
  find_departamento org dep
  st ← current
  found_or (find_if (is_live_area org dep id) st.areas) not_found

unfoldable pub free_area_name : (dep name : ℕ) → Method (Unit {0})
free_area_name dep name = do
  st ← current
  require (not (is_some (find_if (is_named_area dep name) st.areas))) already_exists

module _ (env : Env) where
  abbrev pub new_area : (org dep name : ℕ) → Area
  new_area org dep name = record {
    id = env.new_id;
    org_id = org;
    departamento_id = dep;
    name = name;
    deleted = false;
  }

  unfoldable pub create_area : (org dep name : ℕ) → Method Area
  create_area org dep name = do
    find_departamento org dep
    free_area_name dep name
    let made = new_area org dep name
    change (with_area made)
    give made

  unfoldable pub remove_area : (org dep id : ℕ) → Method (Unit {0})
  remove_area org dep id = do
    find_area org dep id
    assert_none env area id
    st ← current
    found_or (find_if (is_live_area org dep id) st.areas) not_found
    require (length (select (is_live_cargo_in id) st.cargos) == 0) has_dependencies
    require (count_active env area id st == 0) has_pending_operation
    change (set_area_deleted true org dep id)

unfoldable pub restore_area : (org dep id : ℕ) → Method Area
restore_area org dep id = do
  find_departamento org dep
  st ← current
  a ← found_or (find_if (is_area org dep id) st.areas) not_found
  require a.deleted not_deleted
  free_area_name dep a.name
  change (set_area_deleted false org dep id)
  find_area org dep id

abbrev pub set_area_name : (name org dep id : ℕ) → Structure → Structure
set_area_name name org dep id st = record st {
  areas = update_where (is_area org dep id) (λ a. record a { name = name }) st.areas;
}

-- `update`; the description is left out.
unfoldable pub update_area : (org dep id : ℕ) → Option ℕ → Method Area
update_area org dep id name = do
  a ← find_area org dep id
  check_rename (free_area_name dep) name a.name
  change (set_area_name (get_or name a.name) org dep id)
  give (record a { name = get_or name a.name })
