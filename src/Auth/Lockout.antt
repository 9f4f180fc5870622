-- ===== src/Auth/Lockout.antt =====
-- `login` of services/auth-service/src/auth/auth.service.ts up to the accepted password: the counter
-- of failures and the lock that it leads to.
pub mod Stages
pub mod Locks
use sgd_backend.Base.{
  ℕ, suc, ◌+◌, ◌*◌, String, Bool, true, false, not, ◌&&◌, Option, none, some, is_some, List, [],
  ltb, leb, if◌then◌else◌,
}
use sgd_backend.Base.Actions.{give, throw_it, current, change, require, ◌>>=◌, ◌>>◌}
use sgd_backend.Auth.Store.{
  Error, unauthorized, forbidden, invalid_credentials, account_locked, Credential, is_active,
  failures_key, Value, number, Redis, State, Env, seconds, find_by_email, on_keys, save_credential,
  Method,
}

-- `LOCKOUT_STAGES`, searched from the highest threshold down.
abbrev pub lock_duration : ℕ → Option ℕ
lock_duration count =
    if leb 15 count
    then some (60 * 60 * 1000)
    else (if leb 10 count
        then some (15 * 60 * 1000)
        else (if leb 5 count then some (5 * 60 * 1000) else none))

abbrev pub failure_counter_ttl_seconds : ℕ
failure_counter_ttl_seconds = 24 * 60 * 60

-- `credential?.status === ACTIVE`
abbrev pub is_active_one : Option Credential → Bool
is_active_one none = false
is_active_one (some c) = is_active c.status

-- `lockedUntil && lockedUntil > new Date()`, of an active credential.
abbrev pub is_locked : ℕ → Option Credential → Bool
is_locked now none = false
is_locked now (some c) =
    is_active c.status && elim c.locked_until [ none ↦ false | some until ↦ ltb now until ]

-- The password of `dummyHash`.
abbrev pub dummy_password : String
dummy_password = "__invalid_password__"

-- `passwordHash` of an active credential, and `dummyHash` where it is null.
abbrev pub hash_to_check : Env → Option Credential → String
hash_to_check env none = env.hash dummy_password
hash_to_check env (some c) =
    if is_active c.status then usable c.password_hash else env.hash dummy_password
  where
    usable : Option String → String
    usable none = env.hash dummy_password
    usable (some h) = h

-- `INCR` answers the count after it.
abbrev pub count_after : Option Value → ℕ
count_after (some (number n)) = suc n
count_after _ = 1

module _ {Keys : Type 0} (redis : Redis Keys) (env : Env) where
  unfoldable pub failures : ℕ → State Keys → ℕ
  failures email st = count_after (redis.lookup env.now (failures_key email) st.keys)

  abbrev pub lock_for : Option ℕ → Credential → State Keys → State Keys
  lock_for none c st = st
  lock_for (some duration) c st =
      save_credential (record c { locked_until = some (env.now + duration) }) st

  -- `recordFailedAttempt`: INCR, EXPIRE, and the lock.
  unfoldable pub record_failed_attempt : Credential → State Keys → State Keys
  record_failed_attempt c st =
      let count = failures c.email st in
      lock_for (lock_duration count) c (
        on_keys
          (redis.put (failures_key c.email) (number count)
            (env.now + seconds failure_counter_ttl_seconds))
          st)

  -- `clearLoginFailures`
  unfoldable pub clear_login_failures : Credential → State Keys → State Keys
  clear_login_failures c st =
      let cleared = on_keys (redis.erase (failures_key c.email)) st in
      if is_some c.locked_until
      then save_credential (record c { locked_until = none }) cleared
      else cleared

  -- The second check of `login`.
  unfoldable pub accept : Option Credential → Bool → Method Keys Credential
  accept none valid = throw_it (unauthorized invalid_credentials)
  accept (some c) valid =
      if is_active c.status
      then (if valid
          then give c
          else (do change (record_failed_attempt c); throw_it (unauthorized invalid_credentials)))
      else throw_it (unauthorized invalid_credentials)

  unfoldable pub check_password : (email : ℕ) (password : String) → Method Keys Credential
  check_password email password = do
    st ← current
    let found = find_by_email email st.credentials
    let valid = env.compare_hash password (hash_to_check env found)
    require (not (is_locked env.now found)) (forbidden account_locked)
    c ← accept found valid
    change (clear_login_failures c)
    give c
