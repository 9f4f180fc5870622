-- ===== src/Auth/Gone/Calls.antt =====
-- Every call that gives a new token another number leaves a gone token gone.
use sgd_backend.Base.{
  if◌then◌else◌, ℕ, ◌≡◌, ◌≢◌, refl, ◌∙◌, String, Bool, true, false, Option, none, some, is_some,
}
use sgd_backend.Base.Actions.Keeps.{Keeps, Keeps-change, action_rules}
use sgd_backend.Auth.Store.{
  Credential, Key, refresh_key, global_key, revoked_key, same_key, Value, Redis, Claims, State, Env,
  take, on_keys, save_credential, Method,
}
use sgd_backend.Auth.Lockout.{
  lock_duration, failures, record_failed_attempt, clear_login_failures, lock_for, accept,
  check_password,
}
use sgd_backend.Auth.Sessions.{
  login, refresh, rotate, consume, rotate_checked, revoke_of, revoke_all,
}
use sgd_backend.Auth.Context.{
  switch_company, user_companies, save_global, take_global, check_companies, save_some,
  save_decoded, exit_checked, exit_company,
}
use sgd_backend.Auth.Scope.{assert_company_active, effective_permissions}
use sgd_backend.Auth.Gone.{
  IsAbsent, IsGone, Keeps-reply_or_throw, Keeps-as_login, Keeps-stored_number,
  Keeps-cached_user_info, Keeps-cached_user_companies, Keeps-info_and_companies, Keeps-generate,
  Keeps-active_credential, Keeps-renew,
}

if_none : (b : Bool) {o : Option Value} → o ≡ none → (if b then none else o) ≡ none
if_none true e = refl
if_none false e = e

module _ {Keys : Type 0} (redis : Redis Keys) (env : Env) (user jti : ℕ) where
  -- SETEX of any key but a refresh token's, and DEL of any.
  pub IsGone-put :
      (key : Key) (v : Value) (until : ℕ) (st : State Keys)
      → same_key key (refresh_key user jti) ≡ false
      → IsGone redis user jti st
      → IsGone redis user jti (on_keys (redis.put key v until) st)
  IsGone-put key v until st other h = record {
    at = λ now. redis.lookup_put now _ key v until st.keys ∙ rw other (h.at now);
  }

  IsGone-erase :
      (key : Key) (st : State Keys)
      → IsGone redis user jti st
      → IsGone redis user jti (on_keys (redis.erase key) st)
  IsGone-erase key st h = record {
    at = λ now. redis.lookup_erase now _ key st.keys ∙ if_none _ (h.at now);
  }

  pub IsGone-save :
      (c : Credential) (st : State Keys)
      → IsGone redis user jti st
      → IsGone redis user jti (save_credential c st)
  IsGone-save c st h = record { at = h.at }

  pub Keeps-take : (key : Key) → Keeps (IsGone redis user jti) (take redis env key)
  unfolding take
  Keeps-take key = search (action_rules, Keeps-change, IsGone-erase)

  pub IsGone-if :
      (b : Bool) (st now : State Keys)
      → IsGone redis user jti st
      → IsGone redis user jti now
      → IsGone redis user jti (if b then st else now)
  IsGone-if true st now h k = h
  IsGone-if false st now h k = k

  IsAbsent-if :
      (b : Bool) (keys others : Keys)
      → IsAbsent redis user jti keys
      → IsAbsent redis user jti others
      → IsAbsent redis user jti (if b then keys else others)
  IsAbsent-if true keys others h k = h
  IsAbsent-if false keys others h k = k

  IsGone-lock_for :
      (o : Option ℕ) (c : Credential) (st : State Keys)
      → IsGone redis user jti st
      → IsGone redis user jti (lock_for redis env o c st)
  IsGone-lock_for none c st h = h
  IsGone-lock_for (some duration) c st h = IsGone-save _ st h

  IsGone-record_failed_attempt :
      (c : Credential) (st : State Keys)
      → IsGone redis user jti st
      → IsGone redis user jti (record_failed_attempt redis env c st)
  unfolding record_failed_attempt
  IsGone-record_failed_attempt c st h =
      IsGone-lock_for (lock_duration (failures redis env c.email st)) c _
        (IsGone-put _ _ _ st refl h)

  IsGone-clear_login_failures :
      (c : Credential) (st : State Keys)
      → IsGone redis user jti st
      → IsGone redis user jti (clear_login_failures redis env c st)
  unfolding clear_login_failures
  IsGone-clear_login_failures c st h =
      IsGone-if (is_some c.locked_until) _ _ (IsGone-save _ _ (IsGone-erase _ st h))
        (IsGone-erase _ st h)

  pub IsGone-revoke_all :
      (u : ℕ) (st : State Keys)
      → IsGone redis user jti st
      → IsGone redis user jti (revoke_all redis env u st)
  unfolding revoke_all
  IsGone-revoke_all u st h =
      IsGone-put (revoked_key u) _ _ (on_keys (redis.erase_refresh u) st) refl
        (record { at = λ now. redis.lookup_erase_refresh now _ u st.keys ∙ if_none _ (h.at now) })

  Keeps-if {ℓ} :
      {A : Type ℓ} (b : Bool) (m n : Method Keys A)
      → Keeps (IsGone redis user jti) m
      → Keeps (IsGone redis user jti) n
      → Keeps (IsGone redis user jti) (if b then m else n)
  Keeps-if true m n k l = k
  Keeps-if false m n k l = l

  Keeps-accept :
      (o : Option Credential) (b : Bool) → Keeps (IsGone redis user jti) (accept redis env o b)
  unfolding accept
  Keeps-accept none b = search action_rules
  Keeps-accept (some c) b =
      search (action_rules, Keeps-if, Keeps-change, IsGone-record_failed_attempt) depth 12

  Keeps-check_password :
      (email : ℕ) (password : String)
      → Keeps (IsGone redis user jti) (check_password redis env email password)
  unfolding check_password
  Keeps-check_password email password =
      search (action_rules, Keeps-change, Keeps-accept, IsGone-clear_login_failures) depth 16

  pub Keeps-login :
      (email : ℕ) (password : String)
      → env.random ≢ jti
      → Keeps (IsGone redis user jti) (login redis env email password)
  unfolding login
  Keeps-login email password fresh =
      search (action_rules, Keeps-check_password, Keeps-info_and_companies, Keeps-generate) depth 16

  Keeps-rotate_checked :
      (o : Option Claims)
      → env.random ≢ jti
      → Keeps (IsGone redis user jti) (rotate_checked redis env o)
  unfolding rotate consume
  Keeps-rotate_checked none fresh = search action_rules
  Keeps-rotate_checked (some claims) fresh = search (action_rules, Keeps-take, Keeps-renew) depth 16

  pub Keeps-refresh :
      (token : String) → env.random ≢ jti → Keeps (IsGone redis user jti) (refresh redis env token)
  unfolding refresh
  Keeps-refresh token fresh = Keeps-rotate_checked (env.verify_refresh token) fresh

  pub IsGone-revoke_of :
      (o p : Option Claims) (st : State Keys)
      → IsGone redis user jti st
      → IsGone redis user jti (revoke_of redis env o p st)
  IsGone-revoke_of (some claims) p st h = IsGone-revoke_all claims.sub st h
  IsGone-revoke_of none (some claims) st h = IsGone-revoke_all claims.sub st h
  IsGone-revoke_of none none st h = h

  IsGone-save_some :
      (u : ℕ) (o : Option ℕ) (st : State Keys)
      → IsGone redis user jti st
      → IsGone redis user jti (on_keys (save_some redis env u o) st)
  unfolding save_global
  IsGone-save_some u none st h = h
  IsGone-save_some u (some j) st h = record {
    at =
        IsAbsent-if (is_some (redis.lookup env.now (global_key u) st.keys)) _ _ h.at
          (IsGone-put (global_key u) _ _ st refl h).at;
  }

  pub IsGone-save_decoded :
      (u : ℕ) (o : Option Claims) (st : State Keys)
      → IsGone redis user jti st
      → IsGone redis user jti (on_keys (save_decoded redis env u o) st)
  IsGone-save_decoded u none st h = h
  IsGone-save_decoded u (some claims) st h = IsGone-save_some u claims.jti st h

  pub Keeps-switch_company :
      (u company : ℕ)
      → env.random ≢ jti
      → Keeps (IsGone redis user jti) (switch_company redis env u company)
  unfolding switch_company user_companies assert_company_active effective_permissions
  Keeps-switch_company u company fresh =
      search (action_rules, Keeps-reply_or_throw, Keeps-active_credential, Keeps-generate) depth 16

  Keeps-check_companies :
      (u : ℕ) (b : Bool) → Keeps (IsGone redis user jti) (check_companies redis env u b)
  Keeps-check_companies u true = search action_rules
  Keeps-check_companies u false = search (action_rules, Keeps-cached_user_companies)

  pub Keeps-exit_checked :
      (o : Option Claims)
      → env.random ≢ jti
      → Keeps (IsGone redis user jti) (exit_checked redis env o)
  unfolding exit_company consume take_global
  Keeps-exit_checked none fresh = search action_rules
  Keeps-exit_checked (some claims) fresh =
      search
        (
          action_rules, Keeps-take, Keeps-stored_number, Keeps-active_credential, Keeps-as_login,
          Keeps-cached_user_info, Keeps-check_companies, Keeps-generate,
        )
        depth 24
