-- ===== src/Auth/Tests.antt =====
-- A concrete Redis, and concrete calls of auth-service.
pub mod Sessions
pub mod Accounts
pub mod Durations
use sgd_backend.Base.{
  ℕ, ◌≡◌, refl, String, Bool, true, false, Option, none, some, List, [], ◌∷◌, ltb, if◌then◌else◌,
  arith,
}
use text.Mathlib.Text.{◌==◌}
use sgd_backend.Base.Actions.{Reply, answer, missing, failed}
use sgd_backend.Auth.Store.{
  CredentialStatus, active, Credential, Key, refresh_key, failures_key, reset_key, same_key,
  is_refresh_of, Value, number, Redis, Claims, State, Env,
}

-- The commands that were given, the last one first.
pub data Command : Type 0 where
  wrote : Key → Value → ℕ → Command
  erased : Key → Command
  erased_refresh : ℕ → Command

unfoldable pub last_value : ℕ → Key → List Command → Option Value
last_value now j [] = none
last_value now j (wrote k v until ∷ log) =
    let before = last_value now j log in
    if same_key k j then (if ltb now until then some v else none) else before
last_value now j (erased k ∷ log) =
    let before = last_value now j log in if same_key k j then none else before
last_value now j (erased_refresh user ∷ log) =
    let before = last_value now j log in if is_refresh_of user j then none else before

abbrev pub log_redis : Redis (List Command)
unfolding last_value
log_redis = record {
  lookup = last_value;
  put = λ k v until log. wrote k v until ∷ log;
  erase = λ k log. erased k ∷ log;
  erase_refresh = λ user log. erased_refresh user ∷ log;
  lookup_put = λ now j k v until log. refl;
  lookup_erase = λ now j k log. refl;
  lookup_erase_refresh = λ now j user log. refl;
}

-- A session of user 7 in company 5.
abbrev pub company_claims : Claims
company_claims = record {
  sub = 7;
  email = 70;
  company_id = some 5;
  is_super_admin = false;
  permissions = "workflow:create" ∷ [];
  jti = some 11;
}

abbrev pub good_credential : Credential
good_credential = record {
  id = 1;
  email = 70;
  user_id = 7;
  password_hash = some "good";
  status = active;
  locked_until = none;
}

-- A call at a time, with the number of its new token. The hash of a password is the password.
abbrev pub env_at : (now random : ℕ) → Env
env_at now random = record {
  now = now;
  random = random;
  new_id = 2;
  hash = λ password. password;
  compare_hash = λ password hash. password == hash;
  sign_access = λ claims. "access";
  sign_refresh = λ claims. "refresh";
  verify_refresh = λ token. some company_claims;
  decode = λ token. some company_claims;
  user_info = λ user. answer true;
  user_companies = λ user. answer (5 ∷ []);
  effective_permissions = λ user company. answer ("workflow:create" ∷ []);
  is_org_active = λ company. answer true;
  refresh_ttl_seconds = 43200;
  access_ttl_seconds = 300;
}

-- The stored session, four failures of a login, and a reset token.
abbrev pub start : State (List Command)
start = record {
  credentials = good_credential ∷ [];
  keys =
      wrote (refresh_key 7 11) (number 1) 43200000
      ∷ wrote (failures_key 70) (number 4) 86400000
      ∷ wrote (reset_key 90) (number 7) 3600000
      ∷ [];
  mails = [];
}
