-- ===== src/Auth/Tests/Sessions.antt =====
-- Sessions of a user in a company.
use sgd_backend.Base.{
  none, ℕ, ◌≡◌, refl, String, true, some, is_some, List, [], ◌∷◌, inl, includes, find_if, arith,
}
use sgd_backend.Base.Actions.{returns, throws, answer, ◌>>=◌}
use sgd_backend.Auth.Store.{
  unauthorized, refresh_token_revoked, Credential, is_active, TokenPair, Env, find_by_user, take,
}
use sgd_backend.Auth.Scope.{
  assert_company_active, effective_permissions, reply_or_throw, companies_and_info,
  cached_user_info, cached_user_companies, both, as_login, generate_token_pair,
}
use sgd_backend.Auth.Sessions.{
  key_of, refresh, rotate, consume, renew, active_credential, extend_global, logout,
}
use sgd_backend.Auth.Sessions.Once.{refresh-once, logout-ends_sessions}
use sgd_backend.Auth.Sessions.Scopes.{of_company, switch_company_sound, refresh_sound}
use sgd_backend.Auth.Context.{switch_company, user_companies}
use sgd_backend.Auth.Calls.{Call, login_call, run}
use sgd_backend.Auth.Tests.{last_value, log_redis, company_claims, env_at, start}

abbrev a_login : List (Env × Call)
a_login = (env_at 1500 15, login_call 70 "good") ∷ []

refresh-once_example :
    (refresh log_redis
      (env_at 2000 13)
      "token"
      (run log_redis a_login (refresh log_redis (env_at 1000 12) "token" start).1)).0
    ≡ throws (unauthorized refresh_token_revoked)
refresh-once_example =
    refresh-once log_redis (env_at 1000 12) (env_at 2000 13) "token" company_claims a_login start
      refl refl (λ e. absurd (omega arith)) ((λ e. absurd (omega arith)), tt)

logout-ends_sessions_example :
    (refresh log_redis
      (env_at 2000 13)
      "old"
      (run log_redis a_login (logout log_redis (env_at 1000 12) "token" start))).0
    ≡ throws (unauthorized refresh_token_revoked)
logout-ends_sessions_example =
    logout-ends_sessions log_redis (env_at 1000 12) (env_at 2000 13) "token" "old" company_claims
      company_claims a_login start (inl refl) refl refl ((λ e. absurd (omega arith)), tt)

abbrev issued : TokenPair
issued = record { access_token = "access"; refresh_token = "refresh" }

switches : (switch_company log_redis (env_at 1000 12) 7 5 start).0 ≡ returns issued
unfolding switch_company user_companies reply_or_throw assert_company_active active_credential
    find_by_user find_if effective_permissions generate_token_pair ◌>>=◌
switches = refl

refreshes : (refresh log_redis (env_at 1000 12) "token" start).0 ≡ returns issued
unfolding refresh rotate consume renew take last_value companies_and_info as_login both
    cached_user_info cached_user_companies reply_or_throw assert_company_active active_credential
    find_by_user find_if effective_permissions generate_token_pair extend_global ◌>>=◌
refreshes = refl

switch_company_sound_example :
    ((companies : List ℕ) × ((env_at 1000 12).user_companies 7 ≡ answer companies)
      × (includes companies 5 ≡ true))
    × ((env_at 1000 12).is_org_active 5 ≡ answer true)
    × ((c : Credential) × (find_by_user 7 start.credentials ≡ some c)
        × (is_active c.status ≡ true)
        × ((permissions : List String) × ((env_at 1000 12).effective_permissions c.user_id 5
              ≡ answer permissions)
            × (issued.access_token
                ≡ (env_at 1000 12).sign_access (of_company c.user_id c.email 5 permissions none))
            × (issued.refresh_token
                ≡ (env_at 1000 12).sign_refresh
                    (of_company c.user_id c.email 5 permissions (some 12)))))
switch_company_sound_example =
    switch_company_sound log_redis (env_at 1000 12) 7 5 start issued switches

refresh_sound_example :
    (is_some (log_redis.lookup 1000 (key_of company_claims) start.keys) ≡ true)
    × ((env_at 1000 12).is_org_active 5 ≡ answer true)
    × ((companies : List ℕ)
        → (env_at 1000 12).user_companies 7 ≡ answer companies
        → includes companies 5 ≡ true)
    × ((c : Credential) × (find_by_user 7 start.credentials ≡ some c)
        × (is_active c.status ≡ true)
        × ((permissions : List String) × ((env_at 1000 12).effective_permissions c.user_id 5
              ≡ answer permissions)
            × (issued.access_token
                ≡ (env_at 1000 12).sign_access (of_company c.user_id c.email 5 permissions none))
            × (issued.refresh_token
                ≡ (env_at 1000 12).sign_refresh
                    (of_company c.user_id c.email 5 permissions (some 12)))))
refresh_sound_example =
    refresh_sound log_redis (env_at 1000 12) "token" company_claims 5 start issued refl refl
      refreshes
