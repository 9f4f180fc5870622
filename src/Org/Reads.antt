-- ===== src/Org/Reads.antt =====
-- The queries of services/org-service/src/org-structure change nothing, and what they find is there.
use sgd_backend.Base.{ℕ, ◌≡◌, refl, sym, ap, ◌∙◌, Option, none, some, find_if}
use sgd_backend.Base.Actions.{
  Outcome, returns, throws, Reply, answer, missing, failed, current, change, go_on, ◌>>=◌,
}
use sgd_backend.Base.Actions.Keeps.{Keeps, action_rules}
use sgd_backend.Base.Actions.Results.{bind-returns, found_or-returns}
use sgd_backend.Org.Store.{
  Departamento, Area, StructureType, Structure, Reason, not_found, Env, Method, reply_or_throw,
  assert_none,
}
use sgd_backend.Org.Departamentos.{is_live_departamento, find_departamento, free_departamento_name}
use sgd_backend.Org.Areas.{is_live_area, find_area, free_area_name}
use sgd_backend.Org.Cargos.{find_parent, find_area_first, find_cargo, free_cargo_name}

module _ {P : Structure → Type 0} where
  Keeps-reply_or_throw : (r : Reply ℕ) → Keeps P (reply_or_throw r)
  unfolding reply_or_throw
  Keeps-reply_or_throw (answer n) = search action_rules
  Keeps-reply_or_throw missing = search action_rules
  Keeps-reply_or_throw failed = search action_rules

  pub Keeps-assert_none : (env : Env) (t : StructureType) (id : ℕ) → Keeps P (assert_none env t id)
  unfolding assert_none
  Keeps-assert_none env t id = search (action_rules, Keeps-reply_or_throw) depth 12

  pub Keeps-find_departamento : (org id : ℕ) → Keeps P (find_departamento org id)
  unfolding find_departamento
  Keeps-find_departamento org id = search action_rules

  pub Keeps-free_departamento_name : (org name : ℕ) → Keeps P (free_departamento_name org name)
  unfolding free_departamento_name
  Keeps-free_departamento_name org name = search action_rules

  pub Keeps-find_area : (org dep id : ℕ) → Keeps P (find_area org dep id)
  unfolding find_area
  Keeps-find_area org dep id = search (action_rules, Keeps-find_departamento) depth 12

  pub Keeps-free_area_name : (dep name : ℕ) → Keeps P (free_area_name dep name)
  unfolding free_area_name
  Keeps-free_area_name dep name = search action_rules

  pub Keeps-find_parent : (org dep : ℕ) (o : Option ℕ) → Keeps P (find_parent org dep o)
  Keeps-find_parent org dep (some a) = search (action_rules, Keeps-find_area)
  Keeps-find_parent org dep none = search (action_rules, Keeps-find_departamento)

  pub Keeps-find_area_first : (org dep : ℕ) (o : Option ℕ) → Keeps P (find_area_first org dep o)
  Keeps-find_area_first org dep (some a) = search (action_rules, Keeps-find_area)
  Keeps-find_area_first org dep none = search action_rules

  pub Keeps-find_cargo : (org dep : ℕ) (o : Option ℕ) (id : ℕ) → Keeps P (find_cargo org dep o id)
  unfolding find_cargo
  Keeps-find_cargo org dep o id = search (action_rules, Keeps-find_area_first) depth 12

  pub Keeps-free_cargo_name :
      (dep : ℕ) (o : Option ℕ) (name : ℕ) → Keeps P (free_cargo_name dep o name)
  unfolding free_cargo_name
  Keeps-free_cargo_name dep o name = search action_rules

-- One statement, and then the next one on the same store.
module _ {ℓ κ} {A : Type ℓ} {B : Type κ} (Q : Structure → Type 0) where
  go_on-same :
      (r : Outcome Reason A) (next : A → Method B) (st now : Structure)
      → now ≡ st
      → Q st
      → ((a : A) → r ≡ returns a → Q (next a st).1)
      → Q (go_on r next now).1
  go_on-same (returns a) next st now same h k = rw same (k a refl)
  go_on-same (throws why) next st now same h k = rw same h

  pub read :
      (first : Method A) (next : A → Method B) (st : Structure)
      → ((now : Structure) → Keeps (λ s. s ≡ now) first)
      → Q st
      → ((a : A) → (first st).0 ≡ returns a → Q (next a st).1)
      → Q ((first >>= next) st).1
  unfolding ◌>>=◌
  read first next st keeps h k =
      go_on-same (first st).0 next st (first st).1 ((keeps st).after st refl) h k

module _ {ℓ} {B : Type ℓ} (Q : Structure → Type 0) where
  -- What is written is what the rest starts from.
  pub write :
      (f : Structure → Structure) (next : Unit {0} → Method B) (st : Structure)
      → Q (f st)
      → ((u : Unit {0}) → Keeps Q (next u))
      → Q ((change f >>= next) st).1
  unfolding ◌>>=◌
  write f next st h keeps = (keeps tt).after (f st) h

  pub read_now :
      (next : Structure → Method B) (st : Structure)
      → Q (next st st).1
      → Q ((current >>= next) st).1
  unfolding ◌>>=◌
  read_now next st h = h

pub find_departamento-returns :
    (org id : ℕ) (st : Structure) {d : Departamento}
    → (find_departamento org id st).0 ≡ returns d
    → find_if (is_live_departamento org id) st.departamentos ≡ some d
unfolding find_departamento ◌>>=◌
find_departamento-returns org id st e = found_or-returns _ not_found st e

pub find_area-returns :
    (org dep id : ℕ) (st : Structure) {a : Area}
    → (find_area org dep id st).0 ≡ returns a
    → ((d : Departamento) × (find_if (is_live_departamento org dep) st.departamentos ≡ some d))
      × (find_if (is_live_area org dep id) st.areas ≡ some a)
unfolding find_area current
find_area-returns org dep id st {a} e =
    let (d, found, rest) = bind-returns (find_departamento org dep) _ st _ e in
    let (now, at, last) = bind-returns current _ _ _ rest in
    let here : (find_departamento org dep st).1 ≡ now = cc in
    let there : (find_departamento org dep st).1 ≡ st =
      (Keeps-find_departamento {P = λ s. s ≡ st} org dep).after st refl in
    let same : st ≡ now = sym there ∙ here in
    (
      (d, find_departamento-returns org dep st found),
      ap (λ s. find_if (is_live_area org dep id) s.areas) same
          ∙ found_or-returns (find_if (is_live_area org dep id) now.areas) not_found _ last,
    )
