-- ===== src/Base/Actions/Results.antt =====
-- What must have happened for an action to answer.
use mathlib.Core.Path.{◌≡◌, refl}
use mathlib.Core.Bool.{Bool, true, false}
use mathlib.Core.Option.{Option, none, some}
use sgd_backend.Base.Actions.{
  Outcome, returns, throws, Action, give, found_or, require, go_on, ◌>>=◌,
}

module _ {ℓ κ} {Store Why : Type 0} {Answer : Type ℓ} {Next : Type κ} where
  go_on-returns :
      (r : Outcome Why Answer) (next : Answer → Action Store Why Next) (st : Store) (b : Next)
      → (go_on r next st).0 ≡ returns b
      → (a : Answer) × (r ≡ returns a) × ((next a st).0 ≡ returns b)
  go_on-returns (returns a) next st b e = (a, refl, e)
  go_on-returns (throws why) next st b e = cc

  -- Both parts of an action have answered.
  pub bind-returns :
      (first : Action Store Why Answer) (next : Answer → Action Store Why Next) (st : Store)
      (b : Next)
      → ((first >>= next) st).0 ≡ returns b
      → (a : Answer) × ((first st).0 ≡ returns a) × ((next a (first st).1).0 ≡ returns b)
  unfolding ◌>>=◌
  bind-returns first next st b e = go_on-returns (first st).0 next (first st).1 b e

module _ {Store Why : Type 0} where
  pub require-returns :
      (b : Bool) (why : Why) (st : Store) {u : Unit {0}}
      → (require b why st).0 ≡ returns u
      → b ≡ true
  unfolding require
  require-returns true why st e = refl
  require-returns false why st e = cc

  pub found_or-returns {ℓ} :
      {Answer : Type ℓ} (o : Option Answer) (why : Why) (st : Store) {a : Answer}
      → (found_or o why st).0 ≡ returns a
      → o ≡ some a
  unfolding found_or
  found_or-returns (some a) why st e = cc
  found_or-returns none why st e = cc

module _ {ℓ} {Store Why : Type 0} {Answer : Type ℓ} where
  pub give-returns :
      (a : Answer) (st : Store) {b : Answer} → (give {Why = Why} a st).0 ≡ returns b → a ≡ b
  unfolding give
  give-returns a st e = cc
