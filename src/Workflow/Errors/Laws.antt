-- ===== src/Workflow/Errors/Laws.antt =====
-- What a chain of checks has found when it succeeds.
use sgd_backend.Base.{◌≡◌, refl, some, none, Option}
use sgd_backend.Workflow.Errors.{Result, Error, ok, err, ◌>>=◌, or_fail}

pub >>=-eq-ok {ℓ κ} :
    {Answer : Type ℓ} {Next : Type κ} (first : Result Answer) (next : Answer → Result Next)
    {result : Next}
    → (first >>= next) ≡ ok result
    → (answer : Answer) × (first ≡ ok answer) × (next answer ≡ ok result)
>>=-eq-ok (err thrown) next passed = cc
>>=-eq-ok (ok answer) next passed = (answer, refl, passed)

pub or_fail-eq-ok {ℓ} :
    {A : Type ℓ} (o : Option A) (e : Error) {a : A} → or_fail o e ≡ ok a → o ≡ some a
or_fail-eq-ok none e h = cc
or_fail-eq-ok (some b) e h = cc
