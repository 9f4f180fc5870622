-- ===== src/Base/Actions.antt =====
-- Methods that change a store and may throw: what was written before the throw stays written.
pub mod Keeps
pub mod Results
use mathlib.Core.Path.{◌≡◌, refl}
use mathlib.Core.Bool.{Bool, true, false}
use mathlib.Core.Option.{Option, none, some}

pub data Outcome {ℓ} (Why : Type 0) (Answer : Type ℓ) : Type ℓ where
  returns : Answer → Outcome Why Answer
  throws : Why → Outcome Why Answer

-- The answer of another service: `missing` is a 404, `failed` any other error.
pub data Reply {ℓ} (A : Type ℓ) : Type ℓ where
  answer : A → Reply A
  missing failed : Reply A

abbrev pub Action {ℓ} : Type 0 → Type 0 → Type ℓ → Type ℓ
Action Store Why Answer = Store → Outcome Why Answer × Store

module _ {ℓ} {Store Why : Type 0} {Answer : Type ℓ} where
  unfoldable pub give : Answer → Action Store Why Answer
  give a now = (returns a, now)

  unfoldable pub throw_it : Why → Action Store Why Answer
  throw_it why now = (throws why, now)

  -- `if (!row) throw why`
  unfoldable pub found_or : Option Answer → Why → Action Store Why Answer
  found_or (some a) why now = (returns a, now)
  found_or none why now = (throws why, now)

module _ {Store Why : Type 0} where
  unfoldable pub current : Action Store Why Store
  current now = (returns now, now)

  unfoldable pub change : (Store → Store) → Action Store Why (Unit {0})
  change f now = (returns tt, f now)

  -- `if (!test) throw why`
  unfoldable pub require : Bool → Why → Action Store Why (Unit {0})
  require true why now = (returns tt, now)
  require false why now = (throws why, now)

module _ {ℓ κ} {Store Why : Type 0} {Answer : Type ℓ} {Next : Type κ} where
  abbrev pub go_on : Outcome Why Answer → (Answer → Action Store Why Next) → Action Store Why Next
  go_on (returns a) next now = next a now
  go_on (throws why) next now = (throws why, now)

  infixl 5 ◌>>=◌ ◌>>◌
  -- With this unfolded, the actions above are.
  unfoldable pub ◌>>=◌ :
      Action Store Why Answer → (Answer → Action Store Why Next) → Action Store Why Next
  unfolding give throw_it found_or current change require
  ◌>>=◌ first next now = let (r, after) = first now in go_on r next after

  abbrev pub ◌>>◌ : Action Store Why Answer → Action Store Why Next → Action Store Why Next
  first >> next = first >>= λ a. next
