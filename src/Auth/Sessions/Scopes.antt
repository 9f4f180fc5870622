-- ===== src/Auth/Sessions/Scopes.antt =====
-- What a session must have for `login`, `refresh` and `switchCompany` of
-- services/auth-service/src/auth/auth.service.ts to issue tokens, and what those say.
use sgd_backend.Base.{
  ℕ, ◌≡◌, refl, sym, ap, ◌∙◌, String, true, false, not, ◌||◌, Option, none, some, is_some, List,
  is_empty, includes,
}
use sgd_backend.Base.Actions.{returns, answer, change, require}
use sgd_backend.Base.Actions.Results.{bind-returns, give-returns, require-returns}
use sgd_backend.Auth.Gone.{Keeps-reply_or_throw}
use sgd_backend.Auth.Store.{
  unauthorized, not_found, user_not_in_company, refresh_token_revoked, user_not_found_or_inactive,
  scope_revoked, Credential, is_active, Redis, Claims, TokenPair, State, Env, find_by_user, on_keys,
}
use sgd_backend.Auth.Scope.{
  reply_or_throw, assert_company_active, effective_permissions, companies_and_info,
  generate_token_pair,
}
use sgd_backend.Auth.Sessions.{
  key_of, in_scope, consume, active_credential, scoped_claims, extend_global, renew, rotate,
  refresh,
}
use sgd_backend.Auth.Context.{user_companies, switch_company}
use sgd_backend.Auth.Sessions.Answers.{
  reply-returns, in_scope-some, HasCredentials, checks-credentials, assert-returns, active-returns,
  generate-returns, scoped_by-returns, info-returns, consume-returns, consume-credentials,
  Keeps-assert,
}

-- What is signed for a session of a user in a company, with the number of the refresh token.
abbrev pub of_company :
    (user email company : ℕ) → (permissions : List String) → (number : Option ℕ) → Claims
of_company user email company permissions number = record {
  sub = user;
  email = email;
  company_id = some company;
  is_super_admin = false;
  permissions = permissions;
  jti = number;
}

-- `switchCompany` issues tokens for a company only to one of its members (as user-service answers),
-- of a company that org-service calls active, who has an active credential; what is signed in both
-- tokens is the user's number and e-mail address, the company, the effective permissions in it and no
-- super administrator's mark, and in the refresh token its own number too.
pub switch_company_sound :
    {Keys : Type 0} (redis : Redis Keys) (env : Env) (user company : ℕ) (st : State Keys)
    (pair : TokenPair)
    → (switch_company redis env user company st).0 ≡ returns pair
    → ((companies : List ℕ) × (env.user_companies user ≡ answer companies)
        × (includes companies company ≡ true))
      × (env.is_org_active company ≡ answer true)
      × ((c : Credential) × (find_by_user user st.credentials ≡ some c)
          × (is_active c.status ≡ true)
          × ((permissions : List String) × (env.effective_permissions c.user_id company
                ≡ answer permissions)
              × (pair.access_token
                  ≡ env.sign_access (of_company c.user_id c.email company permissions none))
              × (pair.refresh_token
                  ≡ env.sign_refresh
                      (of_company c.user_id c.email company permissions (some env.random)))))
unfolding switch_company user_companies effective_permissions
switch_company_sound {Keys} redis env user company st pair e =
    let (companies, told, rest) =
      bind-returns (reply_or_throw (env.user_companies user)) _ st _ e in
    let (t, member, rest) = bind-returns (require (includes companies company) _) _ _ _ rest in
    let (t, works, rest) = bind-returns (assert_company_active env company) _ _ _ rest in
    let (c, found, rest) = bind-returns (active_credential redis env user _) _ _ _ rest in
    let (permissions, asked, made) =
      bind-returns (reply_or_throw (env.effective_permissions c.user_id company)) _ _ _ rest in
    let told_at = (reply_or_throw {Keys = Keys} (env.user_companies user) st).1 in
    let checked_at =
      (require (includes companies company) (not_found user_not_in_company) told_at).1 in
    let kept =
      (Keeps-assert redis env {P = HasCredentials st.credentials} company).after checked_at (
        checks-credentials (includes companies company) (not_found user_not_in_company) told_at
          st.credentials
          ((Keeps-reply_or_throw {P = HasCredentials st.credentials}
              (env.user_companies user)).after
            st refl)) in
    let (is_found, is_works) = active-returns redis env user _ _ found in
    (
      (
        companies,
        reply-returns (env.user_companies user) st told,
        require-returns (includes companies company) _ _ member,
      ),
      assert-returns redis env company _ works,
      (
        c,
        ap (find_by_user user) (sym kept) ∙ is_found,
        is_works,
        (
          permissions,
          reply-returns (env.effective_permissions c.user_id company) _ asked,
          (generate-returns redis env c _ _ made).0,
          (generate-returns redis env c _ _ made).1,
        ),
      ),
    )

-- `refresh` of a session in a company issues tokens only while the session is stored, its user's
-- credential is active, org-service calls the company active and user-service, where it answers,
-- names the company among the user's; what is signed in both tokens is the user's number and e-mail
-- address, that company, the permissions of that time in it and no super administrator's mark, and in
-- the refresh token its own number too.
pub refresh_sound :
    {Keys : Type 0} (redis : Redis Keys) (env : Env) (token : String) (claims : Claims)
    (company : ℕ) (st : State Keys) (pair : TokenPair)
    → env.verify_refresh token ≡ some claims
    → claims.company_id ≡ some company
    → (refresh redis env token st).0 ≡ returns pair
    → (is_some (redis.lookup env.now (key_of claims) st.keys) ≡ true)
      × (env.is_org_active company ≡ answer true)
      × ((companies : List ℕ)
          → env.user_companies claims.sub ≡ answer companies
          → includes companies company ≡ true)
      × ((c : Credential) × (find_by_user claims.sub st.credentials ≡ some c)
          × (is_active c.status ≡ true)
          × ((permissions : List String) × (env.effective_permissions c.user_id company
                ≡ answer permissions)
              × (pair.access_token
                  ≡ env.sign_access (of_company c.user_id c.email company permissions none))
              × (pair.refresh_token
                  ≡ env.sign_refresh
                      (of_company c.user_id c.email company permissions (some env.random)))))
unfolding refresh rotate renew
refresh_sound redis env token claims company st pair checks scoped e =
    let (t, used, rest) =
      bind-returns (consume redis env claims (unauthorized refresh_token_revoked))
        (λ t. renew redis env claims) st _ (rw checks at e) in
    let (c, found, rest) =
      bind-returns
        (active_credential redis env claims.sub (unauthorized user_not_found_or_inactive)) _ _ _
        rest in
    let ((us, super), info, rest) =
      bind-returns (companies_and_info redis env claims.sub) _ _ _ rest in
    let (t, member, rest) =
      bind-returns (require (super || not (is_empty us)) (unauthorized scope_revoked)) _ _ _ rest in
    let (t, in_company, rest) =
      bind-returns (require (in_scope claims.company_id us) (unauthorized scope_revoked)) _ _ _
        rest in
    let (issued, now_scoped, rest) =
      bind-returns (scoped_claims redis env c super claims.company_id) _ _ _ rest in
    let (made, generated, rest) =
      bind-returns (generate_token_pair redis env c issued) _ _ _ rest in
    let (t, extended, last) =
      bind-returns (change (on_keys (extend_global redis env c.user_id claims.company_id))) _ _ _
        rest in
    let (is_found, works) = active-returns redis env claims.sub _ _ found in
    let (org, (permissions, asked, issues)) =
      scoped_by-returns redis env c super _ company _ scoped now_scoped in
    (
      consume-returns redis env claims _ st used,
      org,
      λ companies told.
          in_scope-some claims.company_id company us companies scoped
            (info-returns redis env claims.sub _ info told)
            (require-returns (in_scope claims.company_id us) _ _ in_company),
      (
        c,
        ap (find_by_user claims.sub) (sym (consume-credentials redis env claims _ st)) ∙ is_found,
        works,
        (
          permissions,
          asked,
          ap (λ p. p.access_token) (sym (give-returns made _ last))
              ∙ (generate-returns redis env c issued _ generated).0
              ∙ ap env.sign_access issues,
          ap (λ p. p.refresh_token) (sym (give-returns made _ last))
              ∙ (generate-returns redis env c issued _ generated).1
              ∙ ap (λ (x : Claims). env.sign_refresh (record x { jti = some env.random })) issues,
        ),
      ),
    )
