-- ===== src/Org/Tree/Histories.antt =====
-- Calls of services/org-service/src/org-structure, one after the other, keep the tree, but for the
-- restoring of a position without an area.
use sgd_backend.Base.{◌≡◌, true, false, none, some, List, [], ◌∷◌, All}
use sgd_backend.Org.Store.{Structure, Env}
use sgd_backend.Org.Leases.{reserve}
use sgd_backend.Org.Tree.Names.{update_departamento-IsTree, update_area-IsTree, update_cargo-IsTree}
use sgd_backend.Org.Calls.{
  departamento_renamed, area_renamed, cargo_renamed, Call, departamento_created,
  departamento_removed, departamento_restored, area_created, area_removed, area_restored,
  cargo_created, cargo_removed, cargo_restored, reserved, is_dept_restore, serve, run,
}
use sgd_backend.Org.Tree.{IsTree}
use sgd_backend.Org.Tree.Methods.{
  create_departamento-IsTree, restore_departamento-IsTree, remove_departamento-IsTree,
}
use sgd_backend.Org.Tree.Rows.{
  create_area-IsTree, remove_area-IsTree, restore_area-IsTree, create_cargo-IsTree,
  remove_cargo-IsTree, restore_cargo-IsTree,
}

serve-IsTree :
    (env : Env) (call : Call)
    → is_dept_restore call ≡ false
    → (st : Structure) → IsTree st
    → IsTree (serve env call st)
unfolding serve reserve
serve-IsTree env (departamento_created org name) other st =
    (create_departamento-IsTree env org name).after st
serve-IsTree env (departamento_removed org id) other st =
    (remove_departamento-IsTree env org id).after st
serve-IsTree env (departamento_restored org id) other st =
    (restore_departamento-IsTree org id).after st
serve-IsTree env (area_created org dep name) other st =
    (create_area-IsTree env org dep name).after st
serve-IsTree env (area_removed org dep id) other st = (remove_area-IsTree env org dep id).after st
serve-IsTree env (area_restored org dep id) other st = (restore_area-IsTree org dep id).after st
serve-IsTree env (cargo_created org dep o name) other st =
    (create_cargo-IsTree env org dep o name).after st
serve-IsTree env (cargo_removed org dep o id) other st =
    (remove_cargo-IsTree env org dep o id).after st
serve-IsTree env (cargo_restored org dep (some a) id) other st =
    (restore_cargo-IsTree org dep a id).after st
serve-IsTree env (cargo_restored org dep none id) other st = absurd (never other)
  where
    never : true ≡ false → ⊥
    never e = cc
serve-IsTree env (departamento_renamed org id name) other st =
    (update_departamento-IsTree org id name).after st
serve-IsTree env (area_renamed org dep id name) other st =
    (update_area-IsTree org dep id name).after st
serve-IsTree env (cargo_renamed org dep o id name) other st =
    (update_cargo-IsTree org dep o id name).after st
serve-IsTree env (reserved t id) other st =
    λ h. record { areas_under = h.areas_under; cargos_under = h.cargos_under }

abbrev pub IsCareful : Env × Call → Type 0
IsCareful (env, call) = is_dept_restore call ≡ false

-- After any calls that create, rename, delete and restore departamentos, areas and positions and reserve them,
-- one after the other, failed ones included, and where no position without an area is restored, what
-- is not deleted still lies under what is not deleted.
pub run-IsTree :
    (calls : List (Env × Call)) (st : Structure)
    → All IsCareful calls
    → IsTree st
    → IsTree (run calls st)
unfolding run
run-IsTree [] st careful h = h
run-IsTree ((env, call) ∷ calls) st (now, later) h =
    run-IsTree calls _ later (serve-IsTree env call now st h)
