-- ===== src/Auth/Gone/Run.antt =====
-- A refresh token that is gone stays gone, whatever the service is called for next.
use sgd_backend.Base.{ℕ, ◌≢◌, refl, String, Option, none, some, is_some, List, [], ◌∷◌, All}
use sgd_backend.Base.Actions.Keeps.{Keeps, Keeps-change, action_rules}
use sgd_backend.Auth.Store.{Credential, CredentialStatus, Redis, State, Env, is_active}
use sgd_backend.Auth.Sessions.{logout}
use sgd_backend.Auth.Context.{save_global_context, exit_company_context}
use sgd_backend.Auth.Passwords.{
  fill_password, new_credential, provision_for, set_status, issue_reset, provision_credentials,
  disable_credential, enable_credential, forgot_password, reset_password,
}
use sgd_backend.Auth.Calls.{
  Call, IsFresh, provision_call, login_call, refresh_call, logout_call, exit_company_call,
  disable_call, enable_call, revoke_all_call, forgot_call, save_global_call, switch_company_call,
  reset_call, serve, run,
}
use sgd_backend.Auth.Gone.{IsGone, Keeps-stored_number, Keeps-active_credential}
use sgd_backend.Auth.Gone.Calls.{
  IsGone-put, IsGone-save, IsGone-if, IsGone-revoke_all, IsGone-revoke_of, IsGone-save_decoded,
  Keeps-take, Keeps-login, Keeps-refresh, Keeps-switch_company, Keeps-exit_checked,
}

module _ {Keys : Type 0} (redis : Redis Keys) (user jti : ℕ) where
  module _ (env : Env) where
    IsGone-fill_password :
        (password : String) (c : Credential) (st : State Keys)
        → IsGone redis user jti st
        → IsGone redis user jti (fill_password redis env password c st)
    IsGone-fill_password password c st h =
        IsGone-if redis env user jti (is_some c.password_hash) _ _ h
          (IsGone-save redis env user jti _ st h)

    IsGone-new_credential :
        (u email : ℕ) (password : String) (st : State Keys)
        → IsGone redis user jti st
        → IsGone redis user jti (new_credential redis env u email password st)
    IsGone-new_credential u email password st h = record { at = h.at }

    Keeps-provision_for :
        (u email : ℕ) (password : String) (o : Option Credential)
        → Keeps (IsGone redis user jti) (provision_for redis env u email password o)
    Keeps-provision_for u email password none =
        search (action_rules, Keeps-change, IsGone-new_credential) depth 12
    Keeps-provision_for u email password (some c) =
        search (action_rules, Keeps-change, IsGone-fill_password) depth 12

    Keeps-provision :
        (u email : ℕ) (password : String)
        → Keeps (IsGone redis user jti) (provision_credentials redis env u email password)
    unfolding provision_credentials
    Keeps-provision u email password = search (action_rules, Keeps-provision_for)

    IsGone-set_status :
        (status : CredentialStatus) (o : Option Credential) (st : State Keys)
        → IsGone redis user jti st
        → IsGone redis user jti (set_status redis env status o st)
    IsGone-set_status status none st h = h
    IsGone-set_status status (some c) st h = IsGone-save redis env user jti _ st h

    IsGone-issue_reset :
        (email : ℕ) (o : Option Credential) (st : State Keys)
        → IsGone redis user jti st
        → IsGone redis user jti (issue_reset redis env email o st)
    IsGone-issue_reset email none st h = h
    IsGone-issue_reset email (some c) st h =
        IsGone-if redis env user jti (is_active c.status) _ st
          (record { at = (IsGone-put redis env user jti _ _ _ st refl h).at }) h

    Keeps-reset_password :
        (token : ℕ) (password : String)
        → Keeps (IsGone redis user jti) (reset_password redis env token password)
    unfolding reset_password
    Keeps-reset_password token password =
        search
          (
            action_rules, Keeps-change, Keeps-take, Keeps-stored_number, Keeps-active_credential,
            IsGone-save, IsGone-revoke_all,
          )
          depth 24

    IsGone-serve :
        (call : Call) (st : State Keys)
        → env.random ≢ jti
        → IsGone redis user jti st
        → IsGone redis user jti (serve redis env call st)
    unfolding serve disable_credential enable_credential forgot_password logout save_global_context
        exit_company_context
    IsGone-serve (provision_call u email password) st fresh =
        (Keeps-provision u email password).after st
    IsGone-serve (login_call email password) st fresh =
        (Keeps-login redis env user jti email password fresh).after st
    IsGone-serve (refresh_call token) st fresh =
        (Keeps-refresh redis env user jti token fresh).after st
    IsGone-serve (logout_call token) st fresh = IsGone-revoke_of redis env user jti _ _ st
    IsGone-serve (exit_company_call token) st fresh =
        (Keeps-exit_checked redis env user jti _ fresh).after st
    IsGone-serve (disable_call u) st fresh = IsGone-set_status _ _ st
    IsGone-serve (enable_call u) st fresh = IsGone-set_status _ _ st
    IsGone-serve (revoke_all_call u) st fresh = IsGone-revoke_all redis env user jti u st
    IsGone-serve (forgot_call email) st fresh = IsGone-issue_reset email _ st
    IsGone-serve (save_global_call u token) st fresh = IsGone-save_decoded redis env user jti u _ st
    IsGone-serve (switch_company_call u company) st fresh =
        (Keeps-switch_company redis env user jti u company fresh).after st
    IsGone-serve (reset_call token password) st fresh =
        (Keeps-reset_password token password).after st

  pub IsGone-run :
      (calls : List (Env × Call)) (st : State Keys)
      → All (IsFresh jti) calls
      → IsGone redis user jti st
      → IsGone redis user jti (run redis calls st)
  unfolding run
  IsGone-run [] st fresh h = h
  IsGone-run ((env, call) ∷ calls) st (new, fresh) h =
      IsGone-run calls _ fresh (IsGone-serve env call st new h)
