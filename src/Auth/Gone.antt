-- ===== src/Auth/Gone.antt =====
-- That a refresh token is stored no more, and the actions that leave it so.
pub mod Calls
pub mod Run
use sgd_backend.Base.{
  ℕ, ◌+◌, ◌≡◌, ◌≢◌, refl, sym, ap, ◌∙◌, String, Bool, true, false, not, ◌||◌, ◌&&◌, Bool-cases,
  Option, Option-cases, none, some, is_some, List, [], inl, inr, ltb, ◌==◌, ==_refl, if◌then◌else◌,
  arith,
}
use sgd_backend.Base.Actions.{
  Outcome, returns, throws, Reply, answer, missing, failed, give, current, found_or, change,
  require, go_on, ◌>>=◌, ◌>>◌,
}
use sgd_backend.Base.Actions.Keeps.{Keeps, Keeps-change, action_rules, require_same}
use sgd_backend.Auth.Store.{
  Error, unauthorized, refresh_token_revoked, Credential, Key, refresh_key, global_key, revoked_key,
  failures_key, reset_key, info_key, companies_key, same_key, is_refresh_of, Value, number, flag,
  ids, Redis, Claims, TokenPair, State, Env, take, stored_number, find_by_user, is_active, on_keys,
  Method,
}
use sgd_backend.Auth.Scope.{
  as_login, both, reply_or_throw, ask, info_and_companies, companies_and_info, cached_user_info,
  cached_user_companies, generate_token_pair, assert_company_active, effective_permissions,
}
use sgd_backend.Auth.Sessions.{
  jti_of, key_of, consume, active_credential, scoped_claims, extend_one, extend, extend_saved,
  extend_global, renew, rotate, refresh, revoke_all,
}

==_false : (a b : ℕ) → a ≢ b → (a == b) ≡ false
==_false a b h = ground arith

none_is_some : {v : Value} → none ≡ some v → ⊥
none_is_some e = cc

pub ==_same : (a b : ℕ) → (a == a && b == b) ≡ true
==_same a b = rw (==_refl a, ==_refl b) refl

both_equal : (u v j k : ℕ) → (u == v && j == k) ≡ true → refresh_key u j ≡ refresh_key v k
both_equal u v j k e = ground arith

and_false : (a : Bool) {b : Bool} → b ≡ false → (a && b) ≡ false
and_false true e = e
and_false false e = refl

-- The ways in which the service asks another one.
module _ {κ} {Keys : Type 0} {P : State Keys → Type κ} where
  pub Keeps-reply_or_throw {ℓ} : {A : Type ℓ} (r : Reply A) → Keeps P (reply_or_throw r)
  unfolding reply_or_throw
  Keeps-reply_or_throw (answer a) = search action_rules
  Keeps-reply_or_throw missing = search action_rules
  Keeps-reply_or_throw failed = search action_rules

  pub Keeps-as_login {ℓ} : {A : Type ℓ} (m : Method Keys A) → Keeps P m → Keeps P (as_login m)
  unfolding as_login
  Keeps-as_login m h = record { after = λ st p. h.after st p }

  pub Keeps-both {ℓ μ} :
      {A : Type ℓ} {B : Type μ} (m : Method Keys A) (n : Method Keys B)
      → Keeps P m
      → Keeps P n
      → Keeps P (both m n)
  unfolding both
  Keeps-both m n h k = record { after = λ st p. k.after _ (h.after st p) }

  pub Keeps-stored_number : (o : Option Value) (why : Error) → Keeps P (stored_number o why)
  Keeps-stored_number none why = search action_rules
  Keeps-stored_number (some (number n)) why = search action_rules
  Keeps-stored_number (some (flag b)) why = search action_rules
  Keeps-stored_number (some (ids us)) why = search action_rules

module _ {Keys : Type 0} (redis : Redis Keys) where
  -- No such session is stored, now or later.
  abbrev pub IsAbsent : (user jti : ℕ) → Keys → Type 0
  IsAbsent user jti keys = (now : ℕ) → redis.lookup now (refresh_key user jti) keys ≡ none

  pub record IsGone (user jti : ℕ) (st : State Keys) : Type 0 where
    pub at : IsAbsent user jti st.keys

  module _ (env : Env) (user jti : ℕ) where
    Keeps-ask {ℓ} :
        {A : Type ℓ} (key : Key) (as_value : A → Value) (cached : Option A) (r : Reply A)
        → same_key key (refresh_key user jti) ≡ false
        → Keeps (IsGone user jti) (ask redis env key as_value cached r)
    Keeps-ask key as_value cached (answer a) other = record {
      after = λ st h. record {
        at = λ now. redis.lookup_put now _ key _ _ st.keys ∙ rw other (h.at now);
      };
    }
    Keeps-ask key as_value cached missing other = record { after = λ st h. h }
    Keeps-ask key as_value cached failed other = record { after = λ st h. h }

    pub Keeps-cached_user_info : (u : ℕ) → Keeps (IsGone user jti) (cached_user_info redis env u)
    unfolding cached_user_info
    Keeps-cached_user_info u = record {
      after = λ st h. (Keeps-ask (info_key u) flag _ (env.user_info u) refl).after st h;
    }

    pub Keeps-cached_user_companies :
        (u : ℕ) → Keeps (IsGone user jti) (cached_user_companies redis env u)
    unfolding cached_user_companies
    Keeps-cached_user_companies u = record {
      after = λ st h. (Keeps-ask (companies_key u) ids _ (env.user_companies u) refl).after st h;
    }

    pub Keeps-info_and_companies :
        (u : ℕ) → Keeps (IsGone user jti) (info_and_companies redis env u)
    unfolding info_and_companies
    Keeps-info_and_companies u =
        search (Keeps-as_login, Keeps-both, Keeps-cached_user_info, Keeps-cached_user_companies)

    pub Keeps-companies_and_info :
        (u : ℕ) → Keeps (IsGone user jti) (companies_and_info redis env u)
    unfolding companies_and_info
    Keeps-companies_and_info u =
        search (Keeps-as_login, Keeps-both, Keeps-cached_user_info, Keeps-cached_user_companies)

    pub Keeps-generate :
        (c : Credential) (claims : Claims)
        → env.random ≢ jti
        → Keeps (IsGone user jti) (generate_token_pair redis env c claims)
    unfolding generate_token_pair
    Keeps-generate c claims fresh = record {
      after = λ st h. record {
        at = λ now.
            redis.lookup_put now _ _ _ _ st.keys
            ∙ rw (and_false (c.user_id == user) (==_false env.random jti fresh)) (h.at now);
      };
    }

    -- A key that is there is another one.
    other_of :
        (key : Key) (b : Bool) (v : Value) (keys : Keys)
        → same_key key (refresh_key user jti) ≡ b
        → redis.lookup env.now key keys ≡ some v
        → IsAbsent user jti keys
        → b ≡ false
    other_of (refresh_key u k) false v keys e found h = refl
    other_of (refresh_key u k) true v keys e found h = absurd (none_is_some (sym gone ∙ found))
      where
        same : refresh_key u k ≡ refresh_key user jti
        same = both_equal u user k jti e

        gone : redis.lookup env.now (refresh_key u k) keys ≡ none
        gone = rw same (h env.now)
    other_of (global_key u) b v keys e found h = sym e
    other_of (revoked_key u) b v keys e found h = sym e
    other_of (failures_key u) b v keys e found h = sym e
    other_of (reset_key u) b v keys e found h = sym e
    other_of (info_key u) b v keys e found h = sym e
    other_of (companies_key u) b v keys e found h = sym e

    extend_one-keeps :
        (key : Key) (o : Option Value) (keys : Keys)
        → redis.lookup env.now key keys ≡ o
        → IsAbsent user jti keys
        → IsAbsent user jti (extend_one redis env key o keys)
    extend_one-keeps key none keys e h now = h now
    extend_one-keeps key (some v) keys e h now =
        redis.lookup_put now (refresh_key user jti) key v _ keys
        ∙ rw (other_of key _ v keys refl e h) (h now)

    extend-keeps :
        (key : Key) (keys : Keys)
        → IsAbsent user jti keys
        → IsAbsent user jti (extend redis env key keys)
    extend-keeps key keys h = extend_one-keeps key _ keys refl h

    extend_saved-keeps :
        (u : ℕ) (o : Option Value) (keys : Keys)
        → IsAbsent user jti keys
        → IsAbsent user jti (extend_saved redis env u o keys)
    extend_saved-keeps u none keys h = h
    extend_saved-keeps u (some (number j)) keys h = extend-keeps _ _ (extend-keeps _ keys h)
    extend_saved-keeps u (some (flag b)) keys h = h
    extend_saved-keeps u (some (ids us)) keys h = h

    extend_global-keeps :
        (u : ℕ) (company : Option ℕ) (keys : Keys)
        → IsAbsent user jti keys
        → IsAbsent user jti (extend_global redis env u company keys)
    unfolding extend_global
    extend_global-keeps u none keys h = h
    extend_global-keeps u (some company) keys h = extend_saved-keeps u _ keys h

    Keeps-extend_global :
        (u : ℕ) (company : Option ℕ)
        → Keeps {Why = Error}
            (IsGone user jti)
            (change (on_keys (extend_global redis env u company)))
    Keeps-extend_global u company =
        Keeps-change _ (λ st h. record { at = extend_global-keeps u company st.keys h.at })

    Keeps-scoped_claims :
        (c : Credential) (super : Bool) (company : Option ℕ)
        → Keeps (IsGone user jti) (scoped_claims redis env c super company)
    unfolding assert_company_active effective_permissions
    Keeps-scoped_claims c super none = search action_rules
    Keeps-scoped_claims c super (some company) = search (action_rules, Keeps-reply_or_throw)

    pub Keeps-active_credential :
        (u : ℕ) (why : Error) → Keeps (IsGone user jti) (active_credential redis env u why)
    unfolding active_credential
    Keeps-active_credential u why = search action_rules depth 12

    pub Keeps-renew :
        (claims : Claims) → env.random ≢ jti → Keeps (IsGone user jti) (renew redis env claims)
    unfolding renew
    Keeps-renew claims fresh =
        search
          (
            action_rules, Keeps-active_credential, Keeps-companies_and_info, Keeps-scoped_claims,
            Keeps-generate, Keeps-extend_global,
          )
          depth 16
