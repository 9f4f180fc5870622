-- ===== src/Auth/Store.antt =====
-- The credentials table, the keys that auth-service keeps in Redis, and what it gets from outside.
-- An e-mail address, a user, a company and the random texts of tokens are numbers, compared for
-- equality only. Times are in milliseconds.
use sgd_backend.Base.{
  ℕ, ◌*◌, ◌≡◌, String, Bool, true, false, ◌&&◌, Option, none, some, List, ltb, ◌==◌, if◌then◌else◌,
  find_if, update_where,
}
use sgd_backend.Base.Actions.{Reply, Action, give, throw_it, current, change, ◌>>=◌, ◌>>◌}

pub data Reason : Type 0 where
  invalid_credentials account_locked refresh_token_invalid refresh_token_revoked : Reason
  user_not_found_or_inactive scope_revoked company_not_active user_not_in_company : Reason
  company_refresh_token_invalid company_session_revoked global_session_expired : Reason
  reset_token_invalid email_already_registered credentials_disabled : Reason
  no_such_user_or_company service_failure : Reason

-- The exceptions of NestJS: 401, 403, 404, 400, 409, and any failure that ends as 5xx.
pub data Error : Type 0 where
  unauthorized forbidden not_found bad_request conflict internal : Reason → Error

pub data CredentialStatus : Type 0 where
  active disabled : CredentialStatus

abbrev pub is_active : CredentialStatus → Bool
is_active active = true
is_active disabled = false

pub record Credential : Type 0 where
  pub id : ℕ
  pub email : ℕ
  pub user_id : ℕ
  pub password_hash : Option String
  pub status : CredentialStatus
  pub locked_until : Option ℕ

-- The keys, with their prefixes as constructors: `refresh:<user>:<jti>`, `sa-global-rt:<user>`,
-- `sa-revoked:<user>`, `login-failures:<email>`, `pwd-reset:<token>`, `user-info-cache:<user>` and
-- `user-companies-cache:<user>`.
pub data Key : Type 0 where
  refresh_key : (user jti : ℕ) → Key
  global_key revoked_key failures_key reset_key info_key companies_key : ℕ → Key

abbrev pub same_key : Key → Key → Bool
same_key (refresh_key u j) (refresh_key v k) = u == v && j == k
same_key (global_key u) (global_key v) = u == v
same_key (revoked_key u) (revoked_key v) = u == v
same_key (failures_key e) (failures_key f) = e == f
same_key (reset_key t) (reset_key v) = t == v
same_key (info_key u) (info_key v) = u == v
same_key (companies_key u) (companies_key v) = u == v
same_key _ _ = false

-- `refresh:<user>:*`
abbrev pub is_refresh_of : ℕ → Key → Bool
is_refresh_of user (refresh_key u j) = u == user
is_refresh_of user _ = false

-- What is stored: a number, or the JSON of an answer of user-service.
pub data Value : Type 0 where
  number : ℕ → Value
  flag : Bool → Value
  ids : List ℕ → Value

-- The commands of Redis that the service relies on, with their documented effect. `put` is SETEX,
-- and SET with EX; `erase` is DEL; GETDEL is a lookup and a DEL in one step; `erase_refresh` is the
-- loop of SCAN and DEL over one pattern. A key is there until its time is up.
pub record Redis (Keys : Type 0) : Type 0 where
  pub lookup : (now : ℕ) → Key → Keys → Option Value
  pub put : Key → Value → (until : ℕ) → Keys → Keys
  pub erase : Key → Keys → Keys
  pub erase_refresh : (user : ℕ) → Keys → Keys
  pub lookup_put :
      (now : ℕ) (j k : Key) (v : Value) (until : ℕ) (keys : Keys)
      → lookup now j (put k v until keys)
        ≡ (if same_key k j then (if ltb now until then some v else none) else lookup now j keys)
  pub lookup_erase :
      (now : ℕ) (j k : Key) (keys : Keys)
      → lookup now j (erase k keys) ≡ (if same_key k j then none else lookup now j keys)
  pub lookup_erase_refresh :
      (now : ℕ) (j : Key) (user : ℕ) (keys : Keys)
      → lookup now j (erase_refresh user keys)
        ≡ (if is_refresh_of user j then none else lookup now j keys)

-- `RefreshTokenPayload` and the claims of the access token; `jti` is only in the former.
pub record Claims : Type 0 where
  pub sub : ℕ
  pub email : ℕ
  pub company_id : Option ℕ
  pub is_super_admin : Bool
  pub permissions : List String
  pub jti : Option ℕ

pub record TokenPair : Type 0 where
  pub access_token : String
  pub refresh_token : String

-- The e-mail with a reset token that notification-service sends.
pub record ResetMail : Type 0 where
  pub email : ℕ
  pub reset_token : ℕ
  pub expires_at : ℕ

pub record State (Keys : Type 0) : Type 0 where
  pub credentials : List Credential
  pub keys : Keys
  pub mails : List ResetMail

-- Clock, random numbers, bcrypt, the signing and checking of tokens, user-service, org-service and
-- the configuration, at the time of one call.
pub record Env : Type 0 where
  pub now : ℕ
  pub random : ℕ
  pub new_id : ℕ
  pub hash : String → String
  pub compare_hash : String → String → Bool
  pub sign_access : Claims → String
  pub sign_refresh : Claims → String
  pub verify_refresh : String → Option Claims
  pub decode : String → Option Claims
  pub user_info : ℕ → Reply Bool
  pub user_companies : ℕ → Reply (List ℕ)
  pub effective_permissions : ℕ → ℕ → Reply (List String)
  pub is_org_active : ℕ → Reply Bool
  pub refresh_ttl_seconds : ℕ
  pub access_ttl_seconds : ℕ

abbrev pub seconds : ℕ → ℕ
seconds n = n * 1000

-- `credentialRepo.findOne({ where: { email } })` and `{ where: { userId } }`
abbrev pub has_email : ℕ → Credential → Bool
has_email email c = c.email == email

abbrev pub is_of_user : ℕ → Credential → Bool
is_of_user user c = c.user_id == user

unfoldable pub find_by_email : ℕ → List Credential → Option Credential
find_by_email email cs = find_if (has_email email) cs

unfoldable pub find_by_user : ℕ → List Credential → Option Credential
find_by_user user cs = find_if (is_of_user user) cs

-- `credentialRepo.save(credential)` of a row that was read.
abbrev pub has_id : ℕ → Credential → Bool
has_id id c = c.id == id

unfoldable pub save : Credential → List Credential → List Credential
save c cs = update_where (has_id c.id) (λ d. c) cs

module _ {Keys : Type 0} where
  abbrev pub on_keys : (Keys → Keys) → State Keys → State Keys
  on_keys f st = record st { keys = f st.keys }

  abbrev pub save_credential : Credential → State Keys → State Keys
  save_credential c st = record st { credentials = save c st.credentials }

abbrev pub Method {ℓ} : Type 0 → Type ℓ → Type ℓ
Method Keys Answer = Action (State Keys) Error Answer

-- A `number` where one is stored.
abbrev pub stored_number : {Keys : Type 0} → Option Value → Error → Method Keys ℕ
stored_number (some (number n)) why = give n
stored_number _ why = throw_it why

module _ {Keys : Type 0} (redis : Redis Keys) (env : Env) where
  -- GETDEL: the key is gone whatever comes after.
  unfoldable pub take : Key → Method Keys (Option Value)
  take key = do
    st ← current
    change (on_keys (redis.erase key))
    give (redis.lookup env.now key st.keys)
