-- ===== src/Auth/Sessions.antt =====
-- `login`, `refresh`, `revokeAllRefreshTokens` and `logout` of
-- services/auth-service/src/auth/auth.service.ts
pub mod Once
pub mod Answers
pub mod Scopes
use sgd_backend.Base.{
  ℕ, ◌+◌, String, Bool, true, false, not, ◌||◌, ◌&&◌, Option, none, some, is_some, List, [],
  is_empty, includes, if◌then◌else◌,
}
use sgd_backend.Base.Actions.{give, throw_it, found_or, current, change, require, ◌>>=◌, ◌>>◌}
use sgd_backend.Auth.Store.{
  Error, unauthorized, invalid_credentials, refresh_token_invalid, refresh_token_revoked,
  user_not_found_or_inactive, scope_revoked, Credential, is_active, Key, refresh_key, global_key,
  revoked_key, Value, number, Redis, Claims, TokenPair, State, Env, seconds, find_by_user, take,
  on_keys, Method,
}
use sgd_backend.Auth.Lockout.{is_active_one, check_password}
use sgd_backend.Auth.Scope.{
  info_and_companies, companies_and_info, assert_company_active, effective_permissions, claims_of,
  generate_token_pair,
}

-- The text after the second colon of the key; 0 stands for `undefined`.
abbrev pub jti_of : Claims → ℕ
jti_of claims = elim claims.jti [ none ↦ 0 | some j ↦ j ]

abbrev pub key_of : Claims → Key
key_of claims = refresh_key claims.sub (jti_of claims)

-- `!(payload.companyId && !companies.includes(payload.companyId))`
abbrev pub in_scope : Option ℕ → List ℕ → Bool
in_scope none companies = true
in_scope (some company) companies = includes companies company

module _ {Keys : Type 0} (redis : Redis Keys) (env : Env) where
  unfoldable pub login : (email : ℕ) (password : String) → Method Keys TokenPair
  login email password = do
    c ← check_password redis env email password
    (is_super_admin, companies) ← info_and_companies redis env c.user_id
    require (is_super_admin || not (is_empty companies)) (unauthorized invalid_credentials)
    generate_token_pair redis env c (claims_of c none is_super_admin [])

  unfoldable pub consume : Claims → Error → Method Keys (Unit {0})
  consume claims why = do found ← take redis env (key_of claims); require (is_some found) why

  -- The credential of the user, if it is active.
  unfoldable pub active_credential : (user : ℕ) → Error → Method Keys Credential
  active_credential user why = do
    st ← current
    c ← found_or (find_by_user user st.credentials) why
    require (is_active c.status) why
    give c

  -- The permissions of a scoped token; the global token has none.
  abbrev pub scoped_claims : Credential → Bool → Option ℕ → Method Keys Claims
  scoped_claims c is_super_admin none = give (claims_of c none is_super_admin [])
  scoped_claims c is_super_admin (some company) = do
    assert_company_active env company
    permissions ← effective_permissions env c.user_id company
    give (claims_of c (some company) false permissions)

  -- EXPIRE of a key that is there.
  abbrev pub extend_one : Key → Option Value → Keys → Keys
  extend_one key none keys = keys
  extend_one key (some v) keys = redis.put key v (env.now + seconds env.refresh_ttl_seconds) keys

  abbrev pub extend : Key → Keys → Keys
  extend key keys = extend_one key (redis.lookup env.now key keys) keys

  -- The saved global session lives on with the session in the company.
  abbrev pub extend_saved : (user : ℕ) → Option Value → Keys → Keys
  extend_saved user (some (number jti)) keys =
      extend (refresh_key user jti) (extend (global_key user) keys)
  extend_saved user _ keys = keys

  unfoldable pub extend_global : (user : ℕ) → Option ℕ → Keys → Keys
  extend_global user none keys = keys
  extend_global user (some company) keys =
      extend_saved user (redis.lookup env.now (global_key user) keys) keys

  -- What `refresh` does with a session that it has used up.
  unfoldable pub renew : Claims → Method Keys TokenPair
  renew claims = do
    c ← active_credential claims.sub (unauthorized user_not_found_or_inactive)
    (companies, is_super_admin) ← companies_and_info redis env claims.sub
    require (is_super_admin || not (is_empty companies)) (unauthorized scope_revoked)
    require (in_scope claims.company_id companies) (unauthorized scope_revoked)
    scoped ← scoped_claims c is_super_admin claims.company_id
    pair ← generate_token_pair redis env c scoped
    change (on_keys (extend_global c.user_id claims.company_id))
    give pair

  -- `refresh` once the signature of the token is checked.
  unfoldable pub rotate : Claims → Method Keys TokenPair
  rotate claims = do consume claims (unauthorized refresh_token_revoked); renew claims

  abbrev pub rotate_checked : Option Claims → Method Keys TokenPair
  rotate_checked none = throw_it (unauthorized refresh_token_invalid)
  rotate_checked (some claims) = rotate claims

  unfoldable pub refresh : String → Method Keys TokenPair
  refresh token = rotate_checked (env.verify_refresh token)

  -- `revokeAllRefreshTokens`
  unfoldable pub revoke_all : (user : ℕ) → State Keys → State Keys
  revoke_all user st =
      on_keys
        (λ keys.
          redis.put (revoked_key user) (number 1) (env.now + seconds env.access_ttl_seconds)
            (redis.erase_refresh user keys))
        st

  -- A token that does not verify is read without its signature.
  abbrev pub revoke_of : (verified decoded : Option Claims) → State Keys → State Keys
  revoke_of (some claims) decoded st = revoke_all claims.sub st
  revoke_of none (some claims) st = revoke_all claims.sub st
  revoke_of none none st = st

  unfoldable pub logout : String → State Keys → State Keys
  logout token st = revoke_of (env.verify_refresh token) (env.decode token) st
