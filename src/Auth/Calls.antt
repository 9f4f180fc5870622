-- ===== src/Auth/Calls.antt =====
-- One call after another on the service of services/auth-service/src/auth/auth.service.ts, each at
-- its own time and with its own answers from outside. Calls of one store come one by one, since
-- each touches a key by one command of Redis.
use sgd_backend.Base.{ℕ, ◌≢◌, String, List, [], ◌∷◌}
use sgd_backend.Auth.Store.{Redis, State, Env, Method}
use sgd_backend.Auth.Sessions.{login, refresh, logout, revoke_all}
use sgd_backend.Auth.Context.{switch_company, save_global_context, exit_company_context}
use sgd_backend.Auth.Passwords.{
  provision_credentials, disable_credential, enable_credential, forgot_password, reset_password,
}

-- The public methods that change what is stored, with their arguments.
pub data Call : Type 0 where
  provision_call : (user email : ℕ) → String → Call
  login_call : (email : ℕ) → String → Call
  refresh_call logout_call exit_company_call : String → Call
  disable_call enable_call revoke_all_call forgot_call : ℕ → Call
  save_global_call : (user : ℕ) → String → Call
  switch_company_call : (user company : ℕ) → Call
  reset_call : (token : ℕ) → String → Call

-- The call does not give a new token the number `jti`.
abbrev pub IsFresh : ℕ → Env × Call → Type 0
IsFresh jti (env, call) = env.random ≢ jti

module _ {Keys : Type 0} (redis : Redis Keys) where
  abbrev left_by {ℓ} : {A : Type ℓ} → Method Keys A → State Keys → State Keys
  left_by m st = (m st).1

  unfoldable pub serve : Env → Call → State Keys → State Keys
  serve env (provision_call user email password) st =
      left_by (provision_credentials redis env user email password) st
  serve env (login_call email password) st = left_by (login redis env email password) st
  serve env (refresh_call token) st = left_by (refresh redis env token) st
  serve env (logout_call token) st = logout redis env token st
  serve env (exit_company_call token) st = left_by (exit_company_context redis env token) st
  serve env (disable_call user) st = disable_credential redis env user st
  serve env (enable_call user) st = enable_credential redis env user st
  serve env (revoke_all_call user) st = revoke_all redis env user st
  serve env (forgot_call email) st = forgot_password redis env email st
  serve env (save_global_call user token) st = save_global_context redis env user token st
  serve env (switch_company_call user company) st =
      left_by (switch_company redis env user company) st
  serve env (reset_call token password) st = left_by (reset_password redis env token password) st

  unfoldable pub run : List (Env × Call) → State Keys → State Keys
  run [] st = st
  run ((env, call) ∷ calls) st = run calls (serve env call st)
