-- ===== src/Auth/Passwords.antt =====
-- `provisionCredentials`, `disableCredential`, `enableCredential`, `forgotPassword` and
-- `resetPassword` of services/auth-service/src/auth/auth.service.ts
pub mod Resets
use sgd_backend.Base.{
  ℕ, ◌+◌, ◌*◌, String, Bool, true, false, not, Option, none, some, is_some, List, [], ◌∷◌, ◌++◌,
  ◌==◌, if◌then◌else◌,
}
use sgd_backend.Base.Actions.{
  Outcome, returns, throws, give, throw_it, found_or, current, change, require, ◌>>=◌, ◌>>◌,
}
use sgd_backend.Auth.Store.{
  Error, bad_request, conflict, forbidden, internal, service_failure, reset_token_invalid,
  email_already_registered, credentials_disabled, CredentialStatus, active, disabled, is_active,
  Credential, Key, reset_key, Value, number, Redis, ResetMail, State, Env, seconds, find_by_email,
  find_by_user, take, stored_number, on_keys, save_credential, Method,
}
use sgd_backend.Auth.Sessions.{active_credential, revoke_all}

abbrev pub reset_token_ttl_seconds : ℕ
reset_token_ttl_seconds = 60 * 60

abbrev with_status : CredentialStatus → Credential → Credential
with_status status c = record c { status = status }

module _ {Keys : Type 0} (redis : Redis Keys) (env : Env) where
  -- An invitation that was not completed gets its password now.
  abbrev pub fill_password : (password : String) → Credential → State Keys → State Keys
  fill_password password c st =
      if is_some c.password_hash
      then st
      else save_credential (record c { password_hash = some (env.hash password); status = active })
          st

  abbrev pub new_credential : (user email : ℕ) (password : String) → State Keys → State Keys
  new_credential user email password st = record st {
    credentials =
        st.credentials
        ++ record {
          id = env.new_id;
          email = email;
          user_id = user;
          password_hash = some (env.hash password);
          status = active;
          locked_until = none;
        }
          ∷ [];
  }

  -- `user_id` has a unique index.
  abbrev pub provision_for :
      (user email : ℕ) (password : String) → Option Credential → Method Keys (Unit {0})
  provision_for user email password none = do
    st ← current
    require (not (is_some (find_by_user user st.credentials))) (internal service_failure)
    change (new_credential user email password)
  provision_for user email password (some c) = do
    require (c.user_id == user) (conflict email_already_registered)
    require (is_active c.status) (forbidden credentials_disabled)
    change (fill_password password c)

  unfoldable pub provision_credentials :
      (user email : ℕ) (password : String) → Method Keys (Unit {0})
  provision_credentials user email password = do
    st ← current
    provision_for user email password (find_by_email email st.credentials)

  abbrev pub set_status : CredentialStatus → Option Credential → State Keys → State Keys
  set_status status none st = st
  set_status status (some c) st = save_credential (with_status status c) st

  unfoldable pub disable_credential : (user : ℕ) → State Keys → State Keys
  disable_credential user st = set_status disabled (find_by_user user st.credentials) st

  unfoldable pub enable_credential : (user : ℕ) → State Keys → State Keys
  enable_credential user st = set_status active (find_by_user user st.credentials) st

  -- The answer is the same whether or not the address is known.
  abbrev pub issue_reset : (email : ℕ) → Option Credential → State Keys → State Keys
  issue_reset email none st = st
  issue_reset email (some c) st =
      if is_active c.status
      then (let until = env.now + seconds reset_token_ttl_seconds in
          record (on_keys (redis.put (reset_key env.random) (number c.user_id) until) st) {
            mails =
                st.mails
                ++ record { email = email; reset_token = env.random; expires_at = until } ∷ [];
          })
      else st

  unfoldable pub forgot_password : (email : ℕ) → State Keys → State Keys
  forgot_password email st = issue_reset email (find_by_email email st.credentials) st

  unfoldable pub reset_password : (token : ℕ) (password : String) → Method Keys (Unit {0})
  reset_password token password = do
    saved ← take redis env (reset_key token)
    user ← stored_number saved (bad_request reset_token_invalid)
    c ← active_credential redis env user (bad_request reset_token_invalid)
    change (save_credential (record c { password_hash = some (env.hash password) }))
    change (revoke_all redis env user)
