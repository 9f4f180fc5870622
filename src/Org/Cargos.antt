-- ===== src/Org/Cargos.antt =====
-- `CargosService` of services/org-service/src/org-structure/cargos.service.ts: positions in an area, and
-- those of a departamento without an area.
use sgd_backend.Base.{
  get_or, ℕ, Bool, true, false, not, ◌&&◌, Option, none, some, is_some, some_eq, [], ◌∷◌, ◌++◌,
  ◌==◌, find_if, update_where,
}
use sgd_backend.Base.Actions.{give, found_or, current, change, require, ◌>>=◌, ◌>>◌}
use sgd_backend.Org.Store.{
  check_rename, cargo, Cargo, Structure, not_found, already_exists, has_pending_operation,
  not_deleted, Env, Method, assert_none,
}
use sgd_backend.Org.Leases.{count_active}
use sgd_backend.Org.Departamentos.{find_departamento}
use sgd_backend.Org.Areas.{find_area}

-- `where: { areaId }`, with `IsNull()` for none.
abbrev pub same_area : Option ℕ → Option ℕ → Bool
same_area none none = true
same_area (some a) o = some_eq o a
same_area none (some b) = false

abbrev pub is_cargo : (org dep : ℕ) → Option ℕ → (id : ℕ) → Cargo → Bool
is_cargo org dep in_area id c =
    c.id == id && c.org_id == org && c.departamento_id == dep && same_area in_area c.area_id

abbrev pub is_live_cargo : (org dep : ℕ) → Option ℕ → (id : ℕ) → Cargo → Bool
is_live_cargo org dep in_area id c = not c.deleted && is_cargo org dep in_area id c

-- A name is taken within its area, and without one within its departamento.
abbrev pub is_named_cargo : (dep : ℕ) → Option ℕ → (name : ℕ) → Cargo → Bool
is_named_cargo dep (some a) name c = not c.deleted && (some_eq c.area_id a && c.name == name)
is_named_cargo dep none name c =
    not c.deleted && (c.departamento_id == dep && c.name == name && same_area none c.area_id)

-- The one row with that primary key.
abbrev pub set_cargo_deleted : Bool → (org dep : ℕ) → Option ℕ → (id : ℕ) → Structure → Structure
set_cargo_deleted b org dep in_area id st = record st {
  cargos = update_where (is_cargo org dep in_area id) (λ c. record c { deleted = b }) st.cargos;
}

abbrev pub with_cargo : Cargo → Structure → Structure
with_cargo c st = record st { cargos = st.cargos ++ c ∷ [] }

-- The row above: `findOneLocked` of the area, or of the departamento.
abbrev pub find_parent : (org dep : ℕ) → Option ℕ → Method (Unit {0})
find_parent org dep (some a) = do find_area org dep a; give tt
find_parent org dep none = do find_departamento org dep; give tt

-- `findOne` looks at the rows above; `findOneDept` does not.
abbrev pub find_area_first : (org dep : ℕ) → Option ℕ → Method (Unit {0})
find_area_first org dep (some a) = do find_area org dep a; give tt
find_area_first org dep none = give tt

-- `findOne` in an area, `findOneDept` without one.
unfoldable pub find_cargo : (org dep : ℕ) → Option ℕ → (id : ℕ) → Method Cargo
find_cargo org dep in_area id = do
  find_area_first org dep in_area
  st ← current
  found_or (find_if (is_live_cargo org dep in_area id) st.cargos) not_found

unfoldable pub free_cargo_name : (dep : ℕ) → Option ℕ → (name : ℕ) → Method (Unit {0})
free_cargo_name dep in_area name = do
  st ← current
  require (not (is_some (find_if (is_named_cargo dep in_area name) st.cargos))) already_exists

module _ (env : Env) where
  abbrev pub new_cargo : (org dep : ℕ) → Option ℕ → (name : ℕ) → Cargo
  new_cargo org dep in_area name = record {
    id = env.new_id;
    org_id = org;
    departamento_id = dep;
    area_id = in_area;
    name = name;
    deleted = false;
  }

  unfoldable pub create_cargo : (org dep : ℕ) → Option ℕ → (name : ℕ) → Method Cargo
  create_cargo org dep in_area name = do
    find_parent org dep in_area
    free_cargo_name dep in_area name
    let made = new_cargo org dep in_area name
    change (with_cargo made)
    give made

  -- `remove` and `removeDept`, with `removeLocked`.
  unfoldable pub remove_cargo : (org dep : ℕ) → Option ℕ → (id : ℕ) → Method (Unit {0})
  remove_cargo org dep in_area id = do
    c ← find_cargo org dep in_area id
    assert_none env cargo c.id
    st ← current
    locked ← found_or (find_if (is_live_cargo org dep in_area id) st.cargos) not_found
    require (count_active env cargo locked.id st == 0) has_pending_operation
    change (set_cargo_deleted true org dep in_area id)

-- `restore` in an area, `restoreDept` without one.
unfoldable pub restore_cargo : (org dep : ℕ) → Option ℕ → (id : ℕ) → Method Cargo
restore_cargo org dep in_area id = do
  find_area_first org dep in_area
  st ← current
  c ← found_or (find_if (is_cargo org dep in_area id) st.cargos) not_found
  require c.deleted not_deleted
  free_cargo_name dep in_area c.name
  change (set_cargo_deleted false org dep in_area id)
  find_cargo org dep in_area id

abbrev pub set_cargo_name : (name org dep : ℕ) → Option ℕ → (id : ℕ) → Structure → Structure
set_cargo_name name org dep in_area id st = record st {
  cargos = update_where (is_cargo org dep in_area id) (λ c. record c { name = name }) st.cargos;
}

-- `update` and `updateDept`; the description is left out.
unfoldable pub update_cargo : (org dep : ℕ) → Option ℕ → (id : ℕ) → Option ℕ → Method Cargo
update_cargo org dep in_area id name = do
  c ← find_cargo org dep in_area id
  check_rename (free_cargo_name dep in_area) name c.name
  change (set_cargo_name (get_or name c.name) org dep in_area id)
  give (record c { name = get_or name c.name })
