-- ===== src/Org/Leases/Kept.antt =====
-- No method of services/org-service/src/org-structure takes a lease back before it expires.
use sgd_backend.Base.{ℕ, Bool, Option, List, [], ◌∷◌, Memᴰ}
use sgd_backend.Base.Actions.Keeps.{Keeps, Keeps-change}
use sgd_backend.Org.Store.{Departamento, Area, Cargo, Lease, Structure, Env}
use sgd_backend.Org.Departamentos.{
  set_departamento_deleted, set_departamento_name, with_departamento, create_departamento,
  remove_departamento, restore_departamento, update_departamento,
}
use sgd_backend.Org.Areas.{
  set_area_deleted, set_area_name, with_area, create_area, remove_area, restore_area, update_area,
}
use sgd_backend.Org.Cargos.{
  set_cargo_deleted, set_cargo_name, with_cargo, create_cargo, remove_cargo, restore_cargo,
  update_cargo,
}
use sgd_backend.Org.Leases.{reserve}
use sgd_backend.Org.Calls.{
  Call, departamento_created, departamento_removed, departamento_restored, area_created,
  area_removed, area_restored, cargo_created, cargo_removed, cargo_restored, departamento_renamed,
  area_renamed, cargo_renamed, reserved, serve, run,
}
use sgd_backend.Org.Tree.Methods.{query_rules}
use sgd_backend.Org.Tree.Names.{Keeps-check_rename}

pub record IsLeased (l : Lease) (st : Structure) : Type 0 where
  pub there : Memᴰ l st.leases

module _ (l : Lease) where
  with_departamento-IsLeased :
      (d : Departamento) (st : Structure) → IsLeased l st → IsLeased l (with_departamento d st)
  with_departamento-IsLeased d st h = record { there = h.there }

  with_area-IsLeased : (a : Area) (st : Structure) → IsLeased l st → IsLeased l (with_area a st)
  with_area-IsLeased a st h = record { there = h.there }

  with_cargo-IsLeased : (c : Cargo) (st : Structure) → IsLeased l st → IsLeased l (with_cargo c st)
  with_cargo-IsLeased c st h = record { there = h.there }

  departamento_deleted-IsLeased :
      (b : Bool) (org id : ℕ) (st : Structure)
      → IsLeased l st
      → IsLeased l (set_departamento_deleted b org id st)
  departamento_deleted-IsLeased b org id st h = record { there = h.there }

  area_deleted-IsLeased :
      (b : Bool) (org dep id : ℕ) (st : Structure)
      → IsLeased l st
      → IsLeased l (set_area_deleted b org dep id st)
  area_deleted-IsLeased b org dep id st h = record { there = h.there }

  cargo_deleted-IsLeased :
      (b : Bool) (org dep : ℕ) (o : Option ℕ) (id : ℕ) (st : Structure)
      → IsLeased l st
      → IsLeased l (set_cargo_deleted b org dep o id st)
  cargo_deleted-IsLeased b org dep o id st h = record { there = h.there }

  departamento_name-IsLeased :
      (name org id : ℕ) (st : Structure)
      → IsLeased l st
      → IsLeased l (set_departamento_name name org id st)
  departamento_name-IsLeased name org id st h = record { there = h.there }

  area_name-IsLeased :
      (name org dep id : ℕ) (st : Structure)
      → IsLeased l st
      → IsLeased l (set_area_name name org dep id st)
  area_name-IsLeased name org dep id st h = record { there = h.there }

  cargo_name-IsLeased :
      (name org dep : ℕ) (o : Option ℕ) (id : ℕ) (st : Structure)
      → IsLeased l st
      → IsLeased l (set_cargo_name name org dep o id st)
  cargo_name-IsLeased name org dep o id st h = record { there = h.there }

  ruleset writes = (
    query_rules, Keeps-check_rename, Keeps-change, with_departamento-IsLeased, with_area-IsLeased,
    with_cargo-IsLeased, departamento_deleted-IsLeased, area_deleted-IsLeased,
    cargo_deleted-IsLeased, departamento_name-IsLeased, area_name-IsLeased, cargo_name-IsLeased,
  )

  serve-IsLeased :
      (env : Env) (call : Call) (st : Structure) → IsLeased l st → IsLeased l (serve env call st)
  unfolding serve create_departamento remove_departamento restore_departamento update_departamento
      create_area remove_area restore_area update_area create_cargo remove_cargo restore_cargo
      update_cargo reserve
  serve-IsLeased env (departamento_created org name) st h =
      let k : Keeps (IsLeased l) (create_departamento env org name) = search writes depth 16 in
      k.after st h
  serve-IsLeased env (departamento_removed org id) st h =
      let k : Keeps (IsLeased l) (remove_departamento env org id) = search writes depth 16 in
      k.after st h
  serve-IsLeased env (departamento_restored org id) st h =
      let k : Keeps (IsLeased l) (restore_departamento org id) = search writes depth 16 in
      k.after st h
  serve-IsLeased env (area_created org dep name) st h =
      let k : Keeps (IsLeased l) (create_area env org dep name) = search writes depth 16 in
      k.after st h
  serve-IsLeased env (area_removed org dep id) st h =
      let k : Keeps (IsLeased l) (remove_area env org dep id) = search writes depth 16 in
      k.after st h
  serve-IsLeased env (area_restored org dep id) st h =
      let k : Keeps (IsLeased l) (restore_area org dep id) = search writes depth 16 in k.after st h
  serve-IsLeased env (cargo_created org dep o name) st h =
      let k : Keeps (IsLeased l) (create_cargo env org dep o name) = search writes depth 16 in
      k.after st h
  serve-IsLeased env (cargo_removed org dep o id) st h =
      let k : Keeps (IsLeased l) (remove_cargo env org dep o id) = search writes depth 16 in
      k.after st h
  serve-IsLeased env (cargo_restored org dep o id) st h =
      let k : Keeps (IsLeased l) (restore_cargo org dep o id) = search writes depth 16 in
      k.after st h
  serve-IsLeased env (departamento_renamed org id name) st h =
      let k : Keeps (IsLeased l) (update_departamento org id name) = search writes depth 16 in
      k.after st h
  serve-IsLeased env (area_renamed org dep id name) st h =
      let k : Keeps (IsLeased l) (update_area org dep id name) = search writes depth 16 in
      k.after st h
  serve-IsLeased env (cargo_renamed org dep o id name) st h =
      let k : Keeps (IsLeased l) (update_cargo org dep o id name) = search writes depth 16 in
      k.after st h
  serve-IsLeased env (reserved t id) st h = record { there = Memᴰ.tail h.there }

  pub run-IsLeased :
      (calls : List (Env × Call)) (st : Structure) → IsLeased l st → IsLeased l (run calls st)
  unfolding run
  run-IsLeased [] st h = h
  run-IsLeased ((env, call) ∷ calls) st h =
      run-IsLeased calls (serve env call st) (serve-IsLeased env call st h)
