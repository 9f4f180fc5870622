-- ===== src/Auth/Lockout/Stages.antt =====
-- The stages of the lock of services/auth-service/src/auth/auth.service.ts, written out, and several
-- logins of one address.
use sgd_backend.Base.{
  ℕ, ◌≤◌, ◌<◌, ◌≡◌, refl, ap, ◌∙◌, String, true, none, some, List, [], ◌∷◌, All, arith,
}
use sgd_backend.Base.Actions.{throws, ◌>>=◌}
use sgd_backend.Auth.Store.{forbidden, account_locked, Redis, State, Env, find_by_email}
use sgd_backend.Auth.Lockout.{lock_duration, is_locked, check_password}
use sgd_backend.Auth.Sessions.{login}

-- How many milliseconds the account is locked for after so many failures.
pub data Stage : ℕ → ℕ → Type 0 where
  from_five : {n : ℕ} → 5 ≤ n → n < 10 → Stage n 300000
  from_ten : {n : ℕ} → 10 ≤ n → n < 15 → Stage n 900000
  from_fifteen : {n : ℕ} → 15 ≤ n → Stage n 3600000

pub lock_duration-Stage : {n duration : ℕ} → Stage n duration → lock_duration n ≡ some duration
lock_duration-Stage (from_five low high) = ground arith
lock_duration-Stage (from_ten low high) = ground arith
lock_duration-Stage (from_fifteen low) = ground arith

pub lock_duration-few : (n : ℕ) → n < 5 → lock_duration n ≡ none
lock_duration-few n few = ground arith

module _ {Keys : Type 0} (redis : Redis Keys) (email : ℕ) where
  -- One login of the address after the other, each at its time and with its password.
  unfoldable pub logins : List (Env × String) → State Keys → State Keys
  logins [] st = st
  logins ((env, password) ∷ more) st = logins more (login redis env email password st).1

  pub locked :
      (env : Env) (password : String) (st : State Keys)
      → is_locked env.now (find_by_email email st.credentials) ≡ true
      → login redis env email password st ≡ (throws (forbidden account_locked), st)
  unfolding login check_password ◌>>=◌
  locked env password st h = rw h refl

  -- Logins change nothing while the account is locked.
  pub logins_while_locked :
      (attempts : List (Env × String)) (st : State Keys)
      → All
          (λ (a : Env × String). is_locked a.0.now (find_by_email email st.credentials) ≡ true)
          attempts
      → logins attempts st ≡ st
  unfolding logins
  logins_while_locked [] st h = refl
  logins_while_locked ((env, password) ∷ more) st (now_locked, h) =
      ap (λ (r : _ × State Keys). logins more r.1) (locked env password st now_locked)
      ∙ logins_while_locked more st h
