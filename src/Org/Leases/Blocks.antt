-- ===== src/Org/Leases/Blocks.antt =====
-- A lease of services/org-service/src/org-structure/structure-leases.service.ts stops a deletion.
use sgd_backend.Base.{
  Option, find_if-passes, ℕ, ◌+◌, ◌<◌, ◌≡◌, refl, sym, ◌∙◌, true, false, ◌==◌, ==_refl, ltb,
  find_if, Memᴰ, Memᴰ-All, List, arith,
}
use sgd_backend.Base.Actions.{Outcome, returns, throws, current, go_on, found_or, require, ◌>>=◌}
use sgd_backend.Base.Actions.Keeps.{Keeps, action_rules}
use sgd_backend.Base.Actions.Results.{found_or-returns, require-returns}
use sgd_backend.Org.Store.{
  Cargo, StructureType, departamento, area, cargo, Lease, Structure, Reason, not_found, Env, Method,
  assert_none,
}
use sgd_backend.Org.Leases.{same_type, reserve, is_active_for, count_active}
use sgd_backend.Org.Leases.Kept.{IsLeased, run-IsLeased}
use sgd_backend.Org.Departamentos.{find_departamento, remove_departamento}
use sgd_backend.Org.Areas.{is_live_area, find_area, remove_area}
use sgd_backend.Org.Cargos.{is_live_cargo, find_cargo, remove_cargo}
use sgd_backend.Org.Calls.{Call, run}
use sgd_backend.Org.Tree.{none-selected}
use sgd_backend.Org.Reads.{
  Keeps-find_cargo, Keeps-assert_none, Keeps-find_departamento, Keeps-find_area,
}

-- The call throws and changes nothing.
abbrev pub Refuses {ℓ} : {A : Type ℓ} → Method A → Structure → Type ℓ
Refuses {A} m st = (why : Reason) × (m st ≡ (throws why, st))

module _ {ℓ κ} {A : Type ℓ} {B : Type κ} where
  go_on-Refuses :
      (r : Outcome Reason A) (next : A → Method B) (st now : Structure)
      → now ≡ st
      → ((a : A) → r ≡ returns a → Refuses (next a) st)
      → (why : Reason) × (go_on r next now ≡ (throws why, st))
  go_on-Refuses (returns a) next st now same k = let (why, e) = k a refl in (why, rw same e)
  go_on-Refuses (throws why) next st now same k = (why, rw same refl)

  after_query :
      (first : Method A) (next : A → Method B) (st : Structure)
      → ((now : Structure) → Keeps (λ s. s ≡ now) first)
      → ((a : A) → (first st).0 ≡ returns a → Refuses (next a) st)
      → Refuses (first >>= next) st
  unfolding ◌>>=◌
  after_query first next st keeps k =
      go_on-Refuses (first st).0 next st (first st).1 ((keeps st).after st refl) k

module _ {ℓ} {B : Type ℓ} where
  read_current :
      (next : Structure → Method B) (st : Structure)
      → Refuses (next st) st
      → Refuses (current >>= next) st
  unfolding ◌>>=◌
  read_current next st h = h

ltb-true : (a b : ℕ) → a < b → ltb a b ≡ true
ltb-true a b h = ground arith

same_type_refl : (t : StructureType) → same_type t t ≡ true
same_type_refl departamento = refl
same_type_refl area = refl
same_type_refl cargo = refl

-- The lease that a reservation writes.
abbrev lease_at : ℕ → StructureType → ℕ → Lease
lease_at now t id = record { structure_type = t; structure_id = id; expires_at = now + 30000 }

module _ (then_at : ℕ) (later : Env) (soon : later.now < then_at + 30000) (at : Structure) where
  counted :
      (t : StructureType) (id : ℕ)
      → IsLeased (lease_at then_at t id) at
      → (count_active later t id at == 0) ≡ true
      → ⊥
  unfolding count_active
  counted t id leased none_counted =
      let inactive : is_active_for later.now t id (lease_at then_at t id) ≡ false =
        Memᴰ-All _ at.leases leased.there
          (none-selected (is_active_for later.now t id) at.leases none_counted) in
      let active : is_active_for later.now t id (lease_at then_at t id) ≡ true =
        rw (same_type_refl t, ==_refl id, ltb-true later.now (then_at + 30000) soon) refl in
      let wrong : true ≡ false = sym active ∙ inactive in cc

  departamento_blocked :
      (org id : ℕ)
      → IsLeased (lease_at then_at departamento id) at
      → Refuses (remove_departamento later org id) at
  unfolding remove_departamento
  departamento_blocked org id leased =
      after_query (find_departamento org id) _ at (λ now. search Keeps-find_departamento)
        (λ d found.
          after_query (assert_none later departamento id) _ at (λ now. search Keeps-assert_none)
            (λ t clear.
              after_query (find_departamento org id) _ at (λ now. search Keeps-find_departamento)
                (λ d again. read_current _ at (
                  after_query (require _ _) _ at (λ now. search action_rules)
                    (λ t empty.
                      after_query (require _ _) _ at (λ now. search action_rules)
                        (λ t free.
                          absurd
                            (counted departamento id leased (require-returns _ _ at free))))))))

  area_blocked :
      (org dep id : ℕ)
      → IsLeased (lease_at then_at area id) at
      → Refuses (remove_area later org dep id) at
  unfolding remove_area
  area_blocked org dep id leased =
      after_query (find_area org dep id) _ at (λ now. search Keeps-find_area)
        (λ a found.
          after_query (assert_none later area id) _ at (λ now. search Keeps-assert_none)
            (λ t clear. read_current _ at (
              after_query (found_or (find_if (is_live_area org dep id) at.areas) not_found) _ at
                (λ now. search action_rules)
                (λ a again.
                  after_query (require _ _) _ at (λ now. search action_rules)
                    (λ t empty.
                      after_query (require _ _) _ at (λ now. search action_rules)
                        (λ t free.
                          absurd (counted area id leased (require-returns _ _ at free))))))))

  -- The row that is locked is the one that was asked for.
  its_id :
      (org dep : ℕ) (o : Option ℕ) (id : ℕ) (c : Cargo)
      → is_live_cargo org dep o id c ≡ true
      → c.id ≡ id
  its_id org dep o id c e = ground arith

  cargo_blocked :
      (org dep : ℕ) (o : Option ℕ) (id : ℕ)
      → IsLeased (lease_at then_at cargo id) at
      → Refuses (remove_cargo later org dep o id) at
  unfolding remove_cargo
  cargo_blocked org dep o id leased =
      after_query (find_cargo org dep o id) _ at (λ now. search Keeps-find_cargo)
        (λ c found.
          after_query (assert_none later cargo c.id) _ at (λ now. search Keeps-assert_none)
            (λ t clear. read_current _ at (
              after_query (found_or (find_if (is_live_cargo org dep o id) at.cargos) not_found) _ at
                (λ now. search action_rules)
                (λ locked again.
                  after_query (require _ _) _ at (λ now. search action_rules)
                    (λ t free.
                      let same = its_id org dep o id locked (
                        find_if-passes (is_live_cargo org dep o id) at.cargos
                          (found_or-returns _ not_found at again)) in
                      absurd
                        (counted cargo id leased (rw same at (require-returns _ _ at free))))))))

leased :
    (env : Env) (t : StructureType) (id : ℕ) (st : Structure) (calls : List (Env × Call))
    → IsLeased (lease_at env.now t id) (run calls (reserve env t id st))
unfolding reserve
leased env t id st calls =
    run-IsLeased (lease_at env.now t id) calls (reserve env t id st)
      (record { there = Memᴰ.head refl })

-- For thirty seconds (30,000 ms) after a lease on a departamento, an area or a position is taken, and
-- after any further calls that change the tree or the leases, the call that deletes the leased row
-- throws, whatever document-service and user-service answer, and changes nothing.
pub reserve-blocks :
    (env later : Env) (org dep id : ℕ) (o : Option ℕ) (calls : List (Env × Call)) (st : Structure)
    → later.now < env.now + 30000
    → ((why : Reason) × (remove_departamento later org id
            (run calls (reserve env departamento id st))
          ≡ (throws why, run calls (reserve env departamento id st))))
      × ((why : Reason) × (remove_area later org dep id (run calls (reserve env area id st))
            ≡ (throws why, run calls (reserve env area id st))))
      × ((why : Reason) × (remove_cargo later org dep o id (run calls (reserve env cargo id st))
            ≡ (throws why, run calls (reserve env cargo id st))))
reserve-blocks env later org dep id o calls st soon = (
  departamento_blocked env.now later soon _ org id (leased env departamento id st calls),
  area_blocked env.now later soon _ org dep id (leased env area id st calls),
  cargo_blocked env.now later soon _ org dep o id (leased env cargo id st calls),
)
