-- ===== src/Auth/Context.antt =====
-- `switchCompany`, `saveGlobalContext` and `exitCompanyContext` of
-- services/auth-service/src/auth/auth.service.ts
use sgd_backend.Base.{
  ℕ, ◌+◌, String, Bool, true, false, not, Option, none, some, is_some, List, [], is_empty, includes,
  if◌then◌else◌,
}
use sgd_backend.Base.Actions.{give, throw_it, require, ◌>>=◌, ◌>>◌}
use sgd_backend.Auth.Store.{
  unauthorized, not_found, user_not_in_company, user_not_found_or_inactive,
  company_refresh_token_invalid, company_session_revoked, global_session_expired, scope_revoked,
  refresh_key, global_key, number, Redis, Claims, TokenPair, State, Env, seconds, take,
  stored_number, on_keys, Method,
}
use sgd_backend.Auth.Scope.{
  as_login, reply_or_throw, cached_user_info, cached_user_companies, assert_company_active,
  effective_permissions, claims_of, generate_token_pair,
}
use sgd_backend.Auth.Sessions.{active_credential, consume}

module _ {Keys : Type 0} (env : Env) where
  -- `getUserCompanies`, not cached.
  unfoldable pub user_companies : (user : ℕ) → Method Keys (List ℕ)
  user_companies user = reply_or_throw (env.user_companies user)

module _ {Keys : Type 0} (redis : Redis Keys) (env : Env) where
  unfoldable pub switch_company : (user company : ℕ) → Method Keys TokenPair
  switch_company user company = do
    companies ← user_companies env user
    require (includes companies company) (not_found user_not_in_company)
    assert_company_active env company
    c ← active_credential redis env user (unauthorized user_not_found_or_inactive)
    permissions ← effective_permissions env c.user_id company
    generate_token_pair redis env c (claims_of c (some company) false permissions)

  -- SET with NX: a session that was saved before is kept.
  unfoldable pub save_global : (user jti : ℕ) → Keys → Keys
  save_global user jti keys =
      if is_some (redis.lookup env.now (global_key user) keys)
      then keys
      else redis.put (global_key user) (number jti) (env.now + seconds env.refresh_ttl_seconds) keys

  abbrev pub save_some : (user : ℕ) → Option ℕ → Keys → Keys
  save_some user none keys = keys
  save_some user (some jti) keys = save_global user jti keys

  abbrev pub save_decoded : (user : ℕ) → Option Claims → Keys → Keys
  save_decoded user none keys = keys
  save_decoded user (some claims) keys = save_some user claims.jti keys

  unfoldable pub save_global_context : (user : ℕ) → String → State Keys → State Keys
  save_global_context user token st = on_keys (save_decoded user (env.decode token)) st

  -- GETDEL of the saved session, then of its refresh token.
  unfoldable pub take_global : (user : ℕ) → Method Keys (Unit {0})
  take_global user = do
    saved ← take redis env (global_key user)
    jti ← stored_number saved (unauthorized global_session_expired)
    found ← take redis env (refresh_key user jti)
    require (is_some found) (unauthorized global_session_expired)

  abbrev pub check_companies : (user : ℕ) → Bool → Method Keys (Unit {0})
  check_companies user true = give tt
  check_companies user false = do
    companies ← cached_user_companies redis env user
    require (not (is_empty companies)) (unauthorized scope_revoked)

  unfoldable pub exit_company : Claims → Method Keys TokenPair
  exit_company claims = do
    consume redis env claims (unauthorized company_session_revoked)
    take_global claims.sub
    c ← active_credential redis env claims.sub (unauthorized user_not_found_or_inactive)
    is_super_admin ← as_login (cached_user_info redis env claims.sub)
    check_companies claims.sub is_super_admin
    generate_token_pair redis env c (claims_of c none is_super_admin [])

  abbrev pub exit_checked : Option Claims → Method Keys TokenPair
  exit_checked none = throw_it (unauthorized company_refresh_token_invalid)
  exit_checked (some claims) = exit_company claims

  unfoldable pub exit_company_context : String → Method Keys TokenPair
  exit_company_context token = exit_checked (env.verify_refresh token)
