-- ===== src/Auth/Sessions/Answers.antt =====
-- What must hold where the steps of `refresh` and `switchCompany` of
-- services/auth-service/src/auth/auth.service.ts answer.
use sgd_backend.Base.{
  ℕ, ◌≡◌, refl, sym, ap, ◌∙◌, String, Bool, true, false, Option, some, is_some, List, includes,
}
use sgd_backend.Base.Actions.{
  Outcome, returns, throws, Reply, answer, missing, failed, give, throw_it, found_or, current,
  require, ◌>>=◌,
}
use sgd_backend.Base.Actions.Results.{bind-returns, give-returns, require-returns, found_or-returns}
use sgd_backend.Base.Actions.Keeps.{Keeps, require_same, action_rules}
use sgd_backend.Auth.Gone.{Keeps-reply_or_throw}
use sgd_backend.Auth.Store.{
  Error, Credential, is_active, Redis, Claims, TokenPair, State, Env, find_by_user, take,
}
use sgd_backend.Auth.Scope.{
  claims_of, for_login, together, as_login, both, cached_user_companies, reply_or_throw,
  assert_company_active, effective_permissions, companies_and_info, generate_token_pair,
}
use sgd_backend.Auth.Sessions.{key_of, in_scope, consume, active_credential, scoped_claims}

pub reply-returns {ℓ} :
    {Keys : Type 0} {A : Type ℓ} (r : Reply A) (st : State Keys) {a : A}
    → (reply_or_throw r st).0 ≡ returns a
    → r ≡ answer a
unfolding reply_or_throw give throw_it
reply-returns (answer b) st e = cc
reply-returns missing st e = cc
reply-returns failed st e = cc

abbrev pub HasCredentials : {Keys : Type 0} → List Credential → State Keys → Type 0
HasCredentials cs st = st.credentials ≡ cs

pub in_scope-some :
    (o : Option ℕ) (company : ℕ) (us companies : List ℕ)
    → o ≡ some company
    → us ≡ companies
    → in_scope o us ≡ true
    → includes companies company ≡ true
in_scope-some o company us companies is same e = rw (sym same) (rw is at e)

pub checks-credentials :
    {Keys : Type 0} (b : Bool) (why : Error) (st : State Keys) (cs : List Credential)
    → HasCredentials cs st
    → HasCredentials cs (require b why st).1
checks-credentials b why st cs h = rw (require_same b why st) h

module _ {Keys : Type 0} (redis : Redis Keys) (env : Env) where
  pub assert-returns :
      (company : ℕ) (st : State Keys) {u : Unit {0}}
      → (assert_company_active env company st).0 ≡ returns u
      → env.is_org_active company ≡ answer true
  unfolding assert_company_active
  assert-returns company st e =
      let (b, asked, checked) = bind-returns _ _ st _ e in
      reply-returns (env.is_org_active company) st asked
      ∙ ap (λ x. answer x) (require-returns b _ _ checked)

  pub active-returns :
      (user : ℕ) (why : Error) (st : State Keys) {c : Credential}
      → (active_credential redis env user why st).0 ≡ returns c
      → (find_by_user user st.credentials ≡ some c) × (is_active c.status ≡ true)
  unfolding active_credential current
  active-returns user why st {c} e =
      let (read, at_start, rest) = bind-returns current _ st _ e in
      let (d, found, checked) =
        bind-returns (found_or (find_by_user user read.credentials) why) _ st _ rest in
      let (t, works, given) = bind-returns (require (is_active d.status) why) _ _ _ checked in
      let same : d ≡ c = give-returns d _ given in
      let here : st ≡ read = cc in
      (
        ap (λ s. find_by_user user s.credentials) here
            ∙ found_or-returns (find_by_user user read.credentials) why st found
            ∙ ap (λ x. some x) same,
        ap (λ x. is_active x.status) (sym same) ∙ require-returns (is_active d.status) why _ works,
      )

  pub generate-returns :
      (c : Credential) (claims : Claims) (st : State Keys) {pair : TokenPair}
      → (generate_token_pair redis env c claims st).0 ≡ returns pair
      → (pair.access_token ≡ env.sign_access claims)
        × (pair.refresh_token ≡ env.sign_refresh (record claims { jti = some env.random }))
  unfolding generate_token_pair
  generate-returns c claims st e = (cc, cc)

  pub scoped-returns :
      (c : Credential) (super : Bool) (company : ℕ) (st : State Keys) {claims : Claims}
      → (scoped_claims redis env c super (some company) st).0 ≡ returns claims
      → (env.is_org_active company ≡ answer true)
        × ((permissions : List String) × (env.effective_permissions c.user_id company
              ≡ answer permissions)
            × (claims ≡ claims_of c (some company) false permissions))
  unfolding effective_permissions
  scoped-returns c super company st e =
      let (t, checked, rest) = bind-returns (assert_company_active env company) _ st _ e in
      let (permissions, asked, given) =
        bind-returns (reply_or_throw (env.effective_permissions c.user_id company)) _ _ _ rest in
      (
        assert-returns company st checked,
        (
          permissions,
          reply-returns (env.effective_permissions c.user_id company) _ asked,
          sym (give-returns _ _ given),
        ),
      )

  pub scoped_by-returns :
      (c : Credential) (super : Bool) (o : Option ℕ) (company : ℕ) (st : State Keys)
      {claims : Claims}
      → o ≡ some company
      → (scoped_claims redis env c super o st).0 ≡ returns claims
      → (env.is_org_active company ≡ answer true)
        × ((permissions : List String) × (env.effective_permissions c.user_id company
              ≡ answer permissions)
            × (claims ≡ claims_of c (some company) false permissions))
  scoped_by-returns c super o company st is e = scoped-returns c super company st (rw is at e)

  -- The answer of user-service goes before what is cached.
  companies_of_pair :
      (x : Outcome Error Bool) {super : Bool} {us companies : List ℕ}
      → for_login (together (returns us) x) ≡ returns (companies, super)
      → companies ≡ us
  companies_of_pair (returns b) e = cc
  companies_of_pair (throws why) e = cc

  pub info-returns :
      (user : ℕ) (st : State Keys) {super : Bool} {us companies : List ℕ}
      → (companies_and_info redis env user st).0 ≡ returns (companies, super)
      → env.user_companies user ≡ answer us
      → companies ≡ us
  unfolding companies_and_info as_login both cached_user_companies
  info-returns user st e answered = companies_of_pair _ (rw answered at e)

  pub consume-returns :
      (claims : Claims) (why : Error) (st : State Keys) {u : Unit {0}}
      → (consume redis env claims why st).0 ≡ returns u
      → is_some (redis.lookup env.now (key_of claims) st.keys) ≡ true
  unfolding consume take ◌>>=◌
  consume-returns claims why st e = require-returns _ why _ e

  pub consume-credentials :
      (claims : Claims) (why : Error) (st : State Keys)
      → HasCredentials st.credentials (consume redis env claims why st).1
  unfolding consume take ◌>>=◌
  consume-credentials claims why st = checks-credentials _ why _ st.credentials refl

  -- What the checks do not change.
  module _ {P : State Keys → Type 0} where
    pub Keeps-assert : (company : ℕ) → Keeps P (assert_company_active env company)
    unfolding assert_company_active
    Keeps-assert company = search (action_rules, Keeps-reply_or_throw)
