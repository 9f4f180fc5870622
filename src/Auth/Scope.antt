-- ===== src/Auth/Scope.antt =====
-- What `login`, `refresh` and `exitCompanyContext` of services/auth-service/src/auth/auth.service.ts
-- ask user-service and org-service, and `generateTokenPair`.
use sgd_backend.Base.{ℕ, ◌+◌, String, Bool, Option, none, some, List}
use sgd_backend.Base.Actions.{
  Outcome, returns, throws, Reply, answer, missing, failed, give, throw_it, require, ◌>>=◌,
}
use sgd_backend.Auth.Store.{
  Error, unauthorized, forbidden, not_found, internal, invalid_credentials, company_not_active,
  no_such_user_or_company, service_failure, Credential, Key, refresh_key, info_key, companies_key,
  Value, number, flag, ids, Redis, Claims, TokenPair, Env, seconds, on_keys, Method,
}

abbrev pub user_data_ttl_seconds : ℕ
user_data_ttl_seconds = 60

abbrev as_flag : Option Value → Option Bool
as_flag (some (flag b)) = some b
as_flag _ = none

abbrev as_ids : Option Value → Option (List ℕ)
as_ids (some (ids us)) = some us
as_ids _ = none

-- The cached answer, or the error.
abbrev or_cached {ℓ} : {A : Type ℓ} → Option A → Error → Outcome Error A
or_cached (some a) why = returns a
or_cached none why = throws why

-- `if (err instanceof NotFoundException) throw new UnauthorizedException(…)`
abbrev pub as_login_error : Error → Error
as_login_error (not_found no_such_user_or_company) = unauthorized invalid_credentials
as_login_error why = why

abbrev pub for_login {ℓ} : {A : Type ℓ} → Outcome Error A → Outcome Error A
for_login (returns a) = returns a
for_login (throws why) = throws (as_login_error why)

abbrev pub together {ℓ κ} :
    {A : Type ℓ} {B : Type κ} → Outcome Error A → Outcome Error B → Outcome Error (A × B)
together (returns a) (returns b) = returns (a, b)
together (throws why) b = throws why
together (returns a) (throws why) = throws why

-- `try { … } catch (err) { if (err instanceof NotFoundException) throw new UnauthorizedException(…) }`
unfoldable pub as_login {ℓ} : {Keys : Type 0} {A : Type ℓ} → Method Keys A → Method Keys A
as_login m st = let (r, after) = m st in (for_login r, after)

-- `Promise.all` of two answers; where both fail, the error of the first.
unfoldable pub both {ℓ κ} :
    {Keys : Type 0} {A : Type ℓ} {B : Type κ} → Method Keys A → Method Keys B → Method Keys (A × B)
both m n st = let (a, after) = m st in let (b, then_after) = n after in (together a b, then_after)

-- An answer that is not cached.
unfoldable pub reply_or_throw {ℓ} : {Keys : Type 0} {A : Type ℓ} → Reply A → Method Keys A
reply_or_throw (answer a) = give a
reply_or_throw missing = throw_it (not_found no_such_user_or_company)
reply_or_throw failed = throw_it (internal service_failure)

-- The claims of `basePayload`.
abbrev pub claims_of : Credential → Option ℕ → Bool → List String → Claims
claims_of c company is_super_admin permissions = record {
  sub = c.user_id;
  email = c.email;
  company_id = company;
  is_super_admin = is_super_admin;
  permissions = permissions;
  jti = none;
}

module _ {Keys : Type 0} (env : Env) where
  -- `assertCompanyActive`
  unfoldable pub assert_company_active : ℕ → Method Keys (Unit {0})
  assert_company_active company = do
    is_active_org ← reply_or_throw (env.is_org_active company)
    require is_active_org (forbidden company_not_active)

  unfoldable pub effective_permissions : (user company : ℕ) → Method Keys (List String)
  effective_permissions user company = reply_or_throw (env.effective_permissions user company)

module _ {Keys : Type 0} (redis : Redis Keys) (env : Env) where
  -- The answer of user-service, kept for a minute, and what was kept if there is none.
  abbrev pub ask {ℓ} : {A : Type ℓ} → Key → (A → Value) → Option A → Reply A → Method Keys A
  ask key as_value cached (answer a) st =
      (returns a, on_keys (redis.put key (as_value a) (env.now + seconds user_data_ttl_seconds)) st)
  ask key as_value cached missing st = (or_cached cached (not_found no_such_user_or_company), st)
  ask key as_value cached failed st = (or_cached cached (internal service_failure), st)

  -- `getCachedUserInfo`
  unfoldable pub cached_user_info : ℕ → Method Keys Bool
  cached_user_info user st =
      ask (info_key user) flag (as_flag (redis.lookup env.now (info_key user) st.keys))
        (env.user_info user) st

  -- `getCachedUserCompanies`
  unfoldable pub cached_user_companies : ℕ → Method Keys (List ℕ)
  cached_user_companies user st =
      ask (companies_key user) ids (as_ids (redis.lookup env.now (companies_key user) st.keys))
        (env.user_companies user) st

  -- Both, with the errors of a login; `login` asks in this order, `refresh` in the other.
  unfoldable pub info_and_companies : ℕ → Method Keys (Bool × List ℕ)
  info_and_companies user = as_login (both (cached_user_info user) (cached_user_companies user))

  unfoldable pub companies_and_info : ℕ → Method Keys (List ℕ × Bool)
  companies_and_info user = as_login (both (cached_user_companies user) (cached_user_info user))

  -- `generateTokenPair`: the refresh token is valid while its key is in Redis.
  unfoldable pub generate_token_pair : Credential → Claims → Method Keys TokenPair
  generate_token_pair c claims st = (
    returns (record {
      access_token = env.sign_access claims;
      refresh_token = env.sign_refresh (record claims { jti = some env.random });
    }),
    on_keys
        (redis.put (refresh_key c.user_id env.random) (number 1)
          (env.now + seconds env.refresh_ttl_seconds))
        st,
  )
