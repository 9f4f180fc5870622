-- ===== src/Org/Tree/Methods.antt =====
-- The methods of services/org-service/src/org-structure/departamentos.service.ts keep the tree.
use sgd_backend.Base.{ℕ, ◌≡◌, refl, Bool, true, false, ◌&&◌, find_if, arith}
use sgd_backend.Base.Actions.{returns, found_or, change, require}
use sgd_backend.Base.Actions.Keeps.{Keeps, action_rules}
use sgd_backend.Base.Actions.Results.{require-returns}
use sgd_backend.Org.Store.{departamento, Departamento, Area, Structure, not_found, Env, assert_none}
use sgd_backend.Org.Departamentos.{
  is_departamento, is_live_departamento, find_departamento, free_departamento_name,
  create_departamento, remove_departamento, restore_departamento,
}
use sgd_backend.Org.Areas.{is_live_area, find_area}
use sgd_backend.Org.Reads.{
  Keeps-assert_none, Keeps-find_departamento, Keeps-free_departamento_name, Keeps-find_area,
  Keeps-free_area_name, Keeps-find_parent, Keeps-find_area_first, Keeps-find_cargo,
  Keeps-free_cargo_name, read, read_now, write, find_departamento-returns, find_area-returns,
}
use sgd_backend.Org.Tree.{
  is_departamento_there, is_area_there, has_departamento, has_area, IsTree, found-some,
}
use sgd_backend.Org.Tree.Kept.{
  IsTree-with_departamento, IsTree-restore_departamento, IsTree-remove_departamento,
}

pub ruleset query_rules = (
  action_rules, Keeps-assert_none, Keeps-find_departamento, Keeps-free_departamento_name,
  Keeps-find_area, Keeps-free_area_name, Keeps-find_parent, Keeps-find_area_first, Keeps-find_cargo,
  Keeps-free_cargo_name,
)

there_departamento :
    (org k : ℕ) (d : Departamento)
    → is_live_departamento org k d ≡ true
    → is_departamento_there k d ≡ true
there_departamento org k d e = ground arith

there_area : (org dep k : ℕ) (a : Area) → is_live_area org dep k a ≡ true → is_area_there k a ≡ true
there_area org dep k a e = ground arith

-- A departamento that was found is there, and an area too.
pub found_departamento :
    (org id : ℕ) (st : Structure) {d : Departamento}
    → (find_departamento org id st).0 ≡ returns d
    → has_departamento id st.departamentos ≡ true
found_departamento org id st e =
    found-some (is_departamento_there id) (is_live_departamento org id) st.departamentos
      (find_departamento-returns org id st e) (there_departamento org id)

pub found_area :
    (org dep id : ℕ) (st : Structure) {a : Area}
    → (find_area org dep id st).0 ≡ returns a
    → (has_departamento dep st.departamentos ≡ true) × (has_area id st.areas ≡ true)
found_area org dep id st e =
    let (above, here) = find_area-returns org dep id st e in
    (
      found-some (is_departamento_there dep) (is_live_departamento org dep) st.departamentos above.1
          (there_departamento org dep),
      found-some (is_area_there id) (is_live_area org dep id) st.areas here (there_area org dep id),
    )

pub create_departamento-IsTree :
    (env : Env) (org name : ℕ) → Keeps IsTree (create_departamento env org name)
unfolding create_departamento
create_departamento-IsTree env org name = record {
  after = λ st h.
      read IsTree (free_departamento_name org name) _ st (λ now. search query_rules) h
        (λ t free. write IsTree _ _ st (IsTree-with_departamento _ st h) (λ u. search query_rules));
}

pub restore_departamento-IsTree : (org id : ℕ) → Keeps IsTree (restore_departamento org id)
unfolding restore_departamento
restore_departamento-IsTree org id = record {
  after = λ st h. read_now IsTree _ st (
      read IsTree (found_or (find_if (is_departamento org id) st.departamentos) not_found) _ st
        (λ now. search query_rules) h
        (λ d found.
          read IsTree (require d.deleted _) _ st (λ now. search query_rules) h
            (λ t gone.
              read IsTree (free_departamento_name org d.name) _ st (λ now. search query_rules) h
                (λ t free.
                  write IsTree _ _ st (IsTree-restore_departamento org id st h)
                    (λ u. search query_rules)))));
}

and_both : (a b : Bool) → (a && b) ≡ true → (a ≡ true) × (b ≡ true)
and_both true b e = (refl, e)
and_both false b e = cc

pub remove_departamento-IsTree :
    (env : Env) (org id : ℕ) → Keeps IsTree (remove_departamento env org id)
unfolding remove_departamento change
remove_departamento-IsTree env org id = record {
  after = λ st h.
      read IsTree (find_departamento org id) _ st (λ now. search query_rules) h
        (λ d found.
          read IsTree (assert_none env departamento id) _ st (λ now. search query_rules) h
            (λ t clear.
              read IsTree (find_departamento org id) _ st (λ now. search query_rules) h
                (λ d found. read_now IsTree _ st (
                  read IsTree (require _ _) _ st (λ now. search query_rules) h
                    (λ t empty.
                      read IsTree (require _ _) _ st (λ now. search query_rules) h
                        (λ t free.
                          let (no_areas, no_cargos) = and_both _ _ (require-returns _ _ st empty) in
                          IsTree-remove_departamento org id st no_areas no_cargos h))))));
}
