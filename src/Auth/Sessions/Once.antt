-- ===== src/Auth/Sessions/Once.antt =====
-- A refresh token is good for one call, and for none once its user's sessions are revoked:
-- `refresh`, `logout` and `resetPassword` of services/auth-service/src/auth/auth.service.ts.
use sgd_backend.Base.{
  ℕ, ◌≡◌, ◌≢◌, refl, ◌∙◌, String, Bool, none, some, is_some, List, ==_refl, ◌⊎◌, inl, inr, All,
}
use sgd_backend.Base.Actions.{throws, require, ◌>>=◌, ◌>>◌}
use sgd_backend.Base.Actions.Keeps.{Keeps, action_rules}
use sgd_backend.Auth.Store.{
  Error, unauthorized, refresh_token_revoked, Redis, Claims, State, Env, take, on_keys,
}
use sgd_backend.Auth.Sessions.{jti_of, key_of, consume, renew, rotate, refresh, revoke_all, logout}
use sgd_backend.Auth.Calls.{Call, IsFresh, run}
use sgd_backend.Auth.Gone.{IsGone, Keeps-renew, ==_same}
use sgd_backend.Auth.Gone.Run.{IsGone-run}

module _ {Keys : Type 0} (redis : Redis Keys) where
  -- A token whose key is gone is refused.
  pub refresh-gone :
      (env : Env) (token : String) (claims : Claims) (st : State Keys)
      → env.verify_refresh token ≡ some claims
      → IsGone redis claims.sub (jti_of claims) st
      → (refresh redis env token st).0 ≡ throws (unauthorized refresh_token_revoked)
  unfolding refresh rotate consume take ◌>>=◌
  refresh-gone env token claims st checks h = rw (checks, h.at env.now) refl

  Keeps-rest :
      (env : Env) (claims : Claims) (b : Bool) (why : Error)
      → env.random ≢ jti_of claims
      → Keeps (IsGone redis claims.sub (jti_of claims)) (require b why >> renew redis env claims)
  Keeps-rest env claims b why fresh = search (action_rules, Keeps-renew)

  -- `refresh` uses the key up first.
  rotate-IsGone :
      (env : Env) (claims : Claims) (st : State Keys)
      → env.random ≢ jti_of claims
      → IsGone redis claims.sub (jti_of claims) (rotate redis env claims st).1
  unfolding rotate consume take ◌>>=◌
  rotate-IsGone env claims st fresh =
      (Keeps-rest env claims (is_some (redis.lookup env.now (key_of claims) st.keys))
          (unauthorized refresh_token_revoked) fresh).after
        (on_keys (redis.erase (key_of claims)) st)
        (record {
          at = λ now.
              redis.lookup_erase now _ _ st.keys ∙ rw (==_same claims.sub (jti_of claims)) refl;
        })

  refresh-IsGone :
      (env : Env) (token : String) (claims : Claims) (st : State Keys)
      → env.verify_refresh token ≡ some claims
      → env.random ≢ jti_of claims
      → IsGone redis claims.sub (jti_of claims) (refresh redis env token st).1
  unfolding refresh
  refresh-IsGone env token claims st checks fresh = rw checks (rotate-IsGone env claims st fresh)

  pub revoke_all-IsGone :
      (env : Env) (user jti : ℕ) (st : State Keys)
      → IsGone redis user jti (revoke_all redis env user st)
  unfolding revoke_all
  revoke_all-IsGone env user jti st = record {
    at = λ now.
        redis.lookup_put now _ _ _ _ _
        ∙ redis.lookup_erase_refresh now _ user st.keys
        ∙ rw (==_refl user) refl;
  }

  logout-IsGone :
      (env : Env) (token : String) (claims : Claims) (jti : ℕ) (st : State Keys)
      → (env.verify_refresh token ≡ some claims)
        ⊎ ((env.verify_refresh token ≡ none) × (env.decode token ≡ some claims))
      → IsGone redis claims.sub jti (logout redis env token st)
  unfolding logout
  logout-IsGone env token claims jti st (inl checks) =
      rw checks (revoke_all-IsGone env claims.sub jti st)
  logout-IsGone env token claims jti st (inr (fails, reads)) =
      rw (fails, reads) (revoke_all-IsGone env claims.sub jti st)

-- A refresh token is good for one call of `refresh` at most, whatever that call ends with: after it,
-- and after any further calls of the service, none of which draws the token's own number for a new
-- one, the same token, where its signature is still accepted, is answered with
-- REFRESH_TOKEN_REVOKED, whatever the other services answer.
pub refresh-once :
    {Keys : Type 0} (redis : Redis Keys) (env later : Env) (token : String) (claims : Claims)
    (calls : List (Env × Call)) (st : State Keys)
    → env.verify_refresh token ≡ some claims
    → later.verify_refresh token ≡ some claims
    → env.random ≢ jti_of claims
    → All (IsFresh (jti_of claims)) calls
    → (refresh redis later token (run redis calls (refresh redis env token st).1)).0
      ≡ throws (unauthorized refresh_token_revoked)
refresh-once redis env later token claims calls st checks still_checks fresh others =
    refresh-gone redis later token claims _ still_checks (
      IsGone-run redis claims.sub (jti_of claims) calls _ others
        (refresh-IsGone redis env token claims st checks fresh))

-- `logout` ends every session of the token's owner, also with a token that is read only without its
-- signature: after it, and after any further calls that do not draw the number of an old refresh
-- token of that user again, that old token, where its signature is accepted, is answered with
-- REFRESH_TOKEN_REVOKED.
pub logout-ends_sessions :
    {Keys : Type 0} (redis : Redis Keys) (env later : Env) (token old : String)
    (claims owned : Claims) (calls : List (Env × Call)) (st : State Keys)
    → (env.verify_refresh token ≡ some claims)
      ⊎ ((env.verify_refresh token ≡ none) × (env.decode token ≡ some claims))
    → later.verify_refresh old ≡ some owned
    → owned.sub ≡ claims.sub
    → All (IsFresh (jti_of owned)) calls
    → (refresh redis later old (run redis calls (logout redis env token st))).0
      ≡ throws (unauthorized refresh_token_revoked)
logout-ends_sessions redis env later token old claims owned calls st names checks same others =
    refresh-gone redis later old owned _ checks (
      IsGone-run redis owned.sub (jti_of owned) calls _ others
        (rw same (logout-IsGone redis env token claims (jti_of owned) st names)))
