-- ===== src/Org/Calls.antt =====
-- One call after another on the structure of services/org-service/src/org-structure.
use sgd_backend.Base.{ℕ, Bool, true, false, Option, none, List, [], ◌∷◌}
use sgd_backend.Org.Store.{StructureType, Structure, Env, Method}
use sgd_backend.Org.Leases.{reserve}
use sgd_backend.Org.Departamentos.{
  create_departamento, remove_departamento, restore_departamento, update_departamento,
}
use sgd_backend.Org.Areas.{create_area, remove_area, restore_area, update_area}
use sgd_backend.Org.Cargos.{create_cargo, remove_cargo, restore_cargo, update_cargo}

-- The methods that change the tree or the leases, with their arguments.
pub data Call : Type 0 where
  departamento_created departamento_removed departamento_restored : (org it : ℕ) → Call
  area_created area_removed area_restored : (org dep it : ℕ) → Call
  cargo_created cargo_removed cargo_restored : (org dep : ℕ) → Option ℕ → (it : ℕ) → Call
  departamento_renamed : (org it : ℕ) → Option ℕ → Call
  area_renamed : (org dep it : ℕ) → Option ℕ → Call
  cargo_renamed : (org dep : ℕ) → Option ℕ → (it : ℕ) → Option ℕ → Call
  reserved : StructureType → ℕ → Call

abbrev left_by {ℓ} : {A : Type ℓ} → Method A → Structure → Structure
left_by m st = (m st).1

unfoldable pub serve : Env → Call → Structure → Structure
serve env (departamento_created org name) st = left_by (create_departamento env org name) st
serve env (departamento_removed org id) st = left_by (remove_departamento env org id) st
serve env (departamento_restored org id) st = left_by (restore_departamento org id) st
serve env (area_created org dep name) st = left_by (create_area env org dep name) st
serve env (area_removed org dep id) st = left_by (remove_area env org dep id) st
serve env (area_restored org dep id) st = left_by (restore_area org dep id) st
serve env (cargo_created org dep o name) st = left_by (create_cargo env org dep o name) st
serve env (cargo_removed org dep o id) st = left_by (remove_cargo env org dep o id) st
serve env (cargo_restored org dep o id) st = left_by (restore_cargo org dep o id) st
serve env (departamento_renamed org id name) st = left_by (update_departamento org id name) st
serve env (area_renamed org dep id name) st = left_by (update_area org dep id name) st
serve env (cargo_renamed org dep o id name) st = left_by (update_cargo org dep o id name) st
serve env (reserved t id) st = reserve env t id st

-- `restoreDept`
abbrev pub is_dept_restore : Call → Bool
is_dept_restore (cargo_restored org dep none id) = true
is_dept_restore _ = false

unfoldable pub run : List (Env × Call) → Structure → Structure
run [] st = st
run ((env, call) ∷ calls) st = run calls (serve env call st)
