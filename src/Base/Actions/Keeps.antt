-- ===== src/Base/Actions/Keeps.antt =====
-- What an action leaves true of its store, whether it answers or throws.
use mathlib.Core.Path.{◌≡◌, refl}
use mathlib.Core.Bool.{Bool, true, false}
use mathlib.Core.Option.{Option, none, some}
use sgd_backend.Base.Actions.{
  Outcome, returns, throws, Action, give, throw_it, found_or, require, current, change, go_on,
  ◌>>=◌,
}

pub record Keeps {ℓ κ} {Store Why : Type 0} {Answer : Type ℓ} (P : Store → Type κ)
    (m : Action Store Why Answer) : Type κ where
  pub after : (st : Store) → P st → P (m st).1

module _ {ℓ μ} {Store Why : Type 0} {Answer : Type ℓ} {P : Store → Type μ} where
  pub Keeps-give : (a : Answer) → Keeps {Why = Why} P (give a)
  unfolding give
  Keeps-give a = record { after = λ st h. h }

  pub Keeps-throw_it : (why : Why) → Keeps {Answer = Answer} P (throw_it why)
  unfolding throw_it
  Keeps-throw_it why = record { after = λ st h. h }

  pub Keeps-found_or : (o : Option Answer) (why : Why) → Keeps P (found_or o why)
  unfolding found_or
  Keeps-found_or (some a) why = record { after = λ st h. h }
  Keeps-found_or none why = record { after = λ st h. h }

module _ {μ} {Store Why : Type 0} {P : Store → Type μ} where
  pub Keeps-current : Keeps {Why = Why} P current
  unfolding current
  Keeps-current = record { after = λ st h. h }

  pub Keeps-require : (b : Bool) (why : Why) → Keeps P (require b why)
  unfolding require
  Keeps-require true why = record { after = λ st h. h }
  Keeps-require false why = record { after = λ st h. h }

  pub Keeps-change :
      (f : Store → Store) → ((st : Store) → P st → P (f st)) → Keeps {Why = Why} P (change f)
  unfolding change
  Keeps-change f h = record { after = h }

module _ {ℓ κ μ} {Store Why : Type 0} {Answer : Type ℓ} {Next : Type κ} {P : Store → Type μ} where
  Keeps-go_on :
      (r : Outcome Why Answer) (next : Answer → Action Store Why Next)
      → ((a : Answer) → Keeps P (next a))
      → Keeps P (go_on r next)
  Keeps-go_on (returns a) next then_keeps = then_keeps a
  Keeps-go_on (throws why) next then_keeps = record { after = λ st h. h }

  pub Keeps-bind :
      (first : Action Store Why Answer) (next : Answer → Action Store Why Next)
      → Keeps P first
      → ((a : Answer) → Keeps P (next a))
      → Keeps P (first >>= next)
  unfolding ◌>>=◌
  Keeps-bind first next keeps then_keeps = record {
    after = λ st h.
        let (r, now) = first st in (Keeps-go_on r next then_keeps).after now (keeps.after st h);
  }

pub ruleset action_rules =
    (Keeps-give, Keeps-throw_it, Keeps-found_or, Keeps-current, Keeps-require, Keeps-bind)

module _ {Store Why : Type 0} where
  -- A check leaves the store as it is.
  pub require_same : (b : Bool) (why : Why) (st : Store) → (require b why st).1 ≡ st
  unfolding require
  require_same true why st = refl
  require_same false why st = refl
