-- ===== src/Org/Tests.antt =====
-- A small structure.
use sgd_backend.Base.{
  ℕ, ◌≡◌, refl, true, false, none, some, List, [], ◌∷◌, find_if, select, update_where, arith,
}
use sgd_backend.Base.Actions.{answer, throws, ◌>>=◌}
use sgd_backend.Org.Store.{
  departamento, area, cargo, Departamento, Area, Cargo, Structure, Reason, has_pending_operation,
  Env, reply_or_throw, assert_none,
}
use sgd_backend.Org.Leases.{reserve, count_active}
use sgd_backend.Org.Leases.Blocks.{reserve-blocks}
use sgd_backend.Org.Departamentos.{find_departamento, remove_departamento}
use sgd_backend.Org.Areas.{find_area, remove_area}
use sgd_backend.Org.Cargos.{find_cargo, remove_cargo, restore_cargo, is_cargo, is_named_cargo}
use sgd_backend.Org.Calls.{
  Call, departamento_renamed, departamento_removed, cargo_created, area_removed, run,
}
use sgd_backend.Org.Tree.{IsTree, has_departamento}
use sgd_backend.Org.Tree.Histories.{run-IsTree}
use sgd_backend.Org.Tree.Orphans.{restore_cargo-orphans}

abbrev env_at : (now new_id : ℕ) → Env
env_at now new_id = record {
  now = now;
  new_id = new_id;
  typologies_count = λ t id. answer 0;
  users_count = λ t id. answer 0;
}

abbrev finance : Departamento
finance = record { id = 1; org_id = 9; name = 10; deleted = false }

abbrev treasury : Area
treasury = record { id = 2; org_id = 9; departamento_id = 1; name = 20; deleted = false }

abbrev director : Cargo
director = record {
  id = 3;
  org_id = 9;
  departamento_id = 1;
  area_id = none;
  name = 30;
  deleted = true;
}

abbrev structure : Structure
structure = record {
  departamentos = finance ∷ [];
  areas = treasury ∷ [];
  cargos = director ∷ [];
  leases = [];
}

structure-IsTree : IsTree structure
unfolding find_if
structure-IsTree = record {
  areas_under = ((λ live. refl), tt);
  cargos_under = ((λ live. absurd (dead live)), tt);
}
  where
    dead : true ≡ false → ⊥
    dead e = cc

abbrev calls : List (Env × Call)
calls =
    (env_at 100 4, cargo_created 9 1 (some 2) 40)
    ∷ (env_at 200 5, area_removed 9 1 2)
    ∷ (env_at 300 6, departamento_removed 9 1)
    ∷ []

run-IsTree_example : IsTree (run calls structure)
run-IsTree_example = run-IsTree calls structure (refl, (refl, (refl, tt))) structure-IsTree

-- The departamento has been deleted.
abbrev closed : Structure
closed = record structure { departamentos = record finance { deleted = true } ∷ []; areas = [] }

director_stored : find_if (is_cargo 9 1 none 3) closed.cargos ≡ some director
unfolding find_if
director_stored = refl

name_free : find_if (is_named_cargo 1 none 30) closed.cargos ≡ none
unfolding find_if
name_free = refl

no_departamento : has_departamento 1 closed.departamentos ≡ false
unfolding find_if
no_departamento = refl

restore_cargo-orphans_example : ¬ IsTree (restore_cargo 9 1 none 3 closed).1
restore_cargo-orphans_example =
    restore_cargo-orphans 9 1 3 director closed director_stored refl name_free no_departamento

-- Three rows that nothing but a lease protects.
abbrev unused : Structure
unused = record {
  departamentos = finance ∷ record { id = 3; org_id = 9; name = 11; deleted = false } ∷ [];
  areas = record { id = 3; org_id = 9; departamento_id = 1; name = 21; deleted = false } ∷ [];
  cargos = record director { deleted = false } ∷ [];
  leases = [];
}

abbrev renaming : List (Env × Call)
renaming = (env_at 100 5, departamento_renamed 9 1 (some 12)) ∷ []

reserve-blocks_example :
    ((why : Reason) × (remove_departamento
          (env_at 29999 6)
          9
          3
          (run renaming (reserve (env_at 0 5) departamento 3 unused))
        ≡ (throws why, run renaming (reserve (env_at 0 5) departamento 3 unused))))
    × ((why : Reason) × (remove_area
            (env_at 29999 6)
            9
            1
            3
            (run renaming (reserve (env_at 0 5) area 3 unused))
          ≡ (throws why, run renaming (reserve (env_at 0 5) area 3 unused))))
    × ((why : Reason) × (remove_cargo
            (env_at 29999 6)
            9
            1
            none
            3
            (run renaming (reserve (env_at 0 5) cargo 3 unused))
          ≡ (throws why, run renaming (reserve (env_at 0 5) cargo 3 unused))))
reserve-blocks_example =
    reserve-blocks (env_at 0 5) (env_at 29999 6) 9 1 3 none renaming unused (omega arith)

departamento_waits :
    (remove_departamento (env_at 29999 6) 9 3 (reserve (env_at 0 5) departamento 3 unused)).0
    ≡ throws has_pending_operation
unfolding remove_departamento find_departamento assert_none reply_or_throw count_active reserve
    select find_if ◌>>=◌
departamento_waits = refl

area_waits :
    (remove_area (env_at 29999 6) 9 1 3 (reserve (env_at 0 5) area 3 unused)).0
    ≡ throws has_pending_operation
unfolding remove_area find_area find_departamento assert_none reply_or_throw count_active reserve
    select find_if ◌>>=◌
area_waits = refl

cargo_waits :
    (remove_cargo (env_at 29999 6) 9 1 none 3 (reserve (env_at 0 5) cargo 3 unused)).0
    ≡ throws has_pending_operation
unfolding remove_cargo find_cargo assert_none reply_or_throw count_active reserve select find_if
    ◌>>=◌
cargo_waits = refl

-- Nothing stops this deletion.
abbrev empty_one : Structure
empty_one = record structure { areas = [] }

removed : (remove_departamento (env_at 0 6) 9 1 empty_one).1 ≡ closed
unfolding remove_departamento find_departamento assert_none reply_or_throw count_active select
    find_if update_where ◌>>=◌
removed = refl
