-- ===== src/Auth/Passwords/Resets.antt =====
-- `resetPassword` of services/auth-service/src/auth/auth.service.ts.
use sgd_backend.Base.{ℕ, String, some}
use sgd_backend.Auth.Store.{Credential, reset_key, Redis, State, Env, on_keys, save_credential}
use sgd_backend.Auth.Sessions.{revoke_all}

module _ {Keys : Type 0} (redis : Redis Keys) (env : Env) (token user : ℕ) (password : String) where
  abbrev with_password : Credential → Credential
  with_password c = record c { password_hash = some (env.hash password) }

  -- What `resetPassword` leaves with a good token.
  abbrev reset_to : Credential → State Keys → State Keys
  reset_to c st =
      revoke_all redis env user
        (save_credential (with_password c) (on_keys (redis.erase (reset_key token)) st))
