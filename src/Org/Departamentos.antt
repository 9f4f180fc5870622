-- ===== src/Org/Departamentos.antt =====
-- `DepartamentosService` of services/org-service/src/org-structure/departamentos.service.ts. The lock of
-- the row makes what comes between it and the commit one step.
use sgd_backend.Base.{
  get_or, Option, ℕ, Bool, true, false, not, ◌&&◌, is_some, [], ◌∷◌, ◌++◌, ◌==◌, length, find_if,
  select, update_where,
}
use sgd_backend.Base.Actions.{give, found_or, current, change, require, ◌>>=◌, ◌>>◌}
use sgd_backend.Org.Store.{
  check_rename, departamento, Departamento, Area, Cargo, Structure, not_found, already_exists,
  has_dependencies, has_pending_operation, not_deleted, Env, Method, assert_none,
}
use sgd_backend.Org.Leases.{count_active}

abbrev pub is_departamento : (org id : ℕ) → Departamento → Bool
is_departamento org id d = d.id == id && d.org_id == org

abbrev pub is_live_departamento : (org id : ℕ) → Departamento → Bool
is_live_departamento org id d = not d.deleted && is_departamento org id d

abbrev pub is_named_departamento : (org name : ℕ) → Departamento → Bool
is_named_departamento org name d = not d.deleted && (d.org_id == org && d.name == name)

abbrev pub is_live_area_of : ℕ → Area → Bool
is_live_area_of id a = not a.deleted && a.departamento_id == id

abbrev pub is_live_cargo_of : ℕ → Cargo → Bool
is_live_cargo_of id c = not c.deleted && c.departamento_id == id

-- The one row with that primary key.
abbrev pub set_departamento_deleted : Bool → (org id : ℕ) → Structure → Structure
set_departamento_deleted b org id st = record st {
  departamentos =
      update_where (is_departamento org id) (λ d. record d { deleted = b }) st.departamentos;
}

abbrev pub with_departamento : Departamento → Structure → Structure
with_departamento d st = record st { departamentos = st.departamentos ++ d ∷ [] }

-- `findOne`, which `findOneLocked` repeats.
unfoldable pub find_departamento : (org id : ℕ) → Method Departamento
find_departamento org id = do
  st ← current
  found_or (find_if (is_live_departamento org id) st.departamentos) not_found

unfoldable pub free_departamento_name : (org name : ℕ) → Method (Unit {0})
free_departamento_name org name = do
  st ← current
  require (not (is_some (find_if (is_named_departamento org name) st.departamentos))) already_exists

module _ (env : Env) where
  abbrev new_departamento : (org name : ℕ) → Departamento
  new_departamento org name = record { id = env.new_id; org_id = org; name = name; deleted = false }

  unfoldable pub create_departamento : (org name : ℕ) → Method Departamento
  create_departamento org name = do
    free_departamento_name org name
    let made = new_departamento org name
    change (with_departamento made)
    give made

  -- The transaction of `remove`.
  unfoldable pub remove_departamento : (org id : ℕ) → Method (Unit {0})
  remove_departamento org id = do
    find_departamento org id
    assert_none env departamento id
    find_departamento org id
    st ← current
    require
        (length (select (is_live_area_of id) st.areas) == 0
          && length (select (is_live_cargo_of id) st.cargos) == 0)
        has_dependencies
    require (count_active env departamento id st == 0) has_pending_operation
    change (set_departamento_deleted true org id)

unfoldable pub restore_departamento : (org id : ℕ) → Method Departamento
restore_departamento org id = do
  st ← current
  d ← found_or (find_if (is_departamento org id) st.departamentos) not_found
  require d.deleted not_deleted
  free_departamento_name org d.name
  change (set_departamento_deleted false org id)
  find_departamento org id

abbrev pub set_departamento_name : (name org id : ℕ) → Structure → Structure
set_departamento_name name org id st = record st {
  departamentos =
      update_where (is_departamento org id) (λ d. record d { name = name }) st.departamentos;
}

-- `update`; the description is left out.
unfoldable pub update_departamento : (org id : ℕ) → Option ℕ → Method Departamento
update_departamento org id name = do
  d ← find_departamento org id
  check_rename (free_departamento_name org) name d.name
  change (set_departamento_name (get_or name d.name) org id)
  give (record d { name = get_or name d.name })
