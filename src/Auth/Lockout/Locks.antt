-- ===== src/Auth/Lockout/Locks.antt =====
-- When `login` of services/auth-service/src/auth/auth.service.ts locks an account, and for how long.
use sgd_backend.Base.{
  ℕ, ◌<◌, ◌≡◌, refl, sym, ap, ◌∙◌, Bool, true, false, none, some, List, [], ◌∷◌, inl, inr,
  Bool-cases, some_injective, ltb, ==_iff, find_if, update_where, arith,
}
use sgd_backend.Base.Actions.{returns, ◌>>=◌}
use sgd_backend.Auth.Store.{Credential, is_active, Redis, State, Env, find_by_email, has_id, save}
use sgd_backend.Auth.Lockout.{is_locked, dummy_password, accept, check_password}

-- A saved row is what is found where the old one was.
pub find_if-save :
    (q : Credential → Bool) (c new : Credential) (cs : List Credential)
    → find_if q cs ≡ some c
    → q new ≡ true
    → new.id ≡ c.id
    → find_if q (save new cs) ≡ some new
unfolding find_if save update_where
find_if-save q c new [] found passes same = cc
find_if-save q c new (d ∷ cs) found passes same = elim (Bool-cases (q d)) [
  | inl t ↦
      (let d_is : d ≡ c = some_injective (rw t at found) in
        let hit : has_id new.id d ≡ true =
          (==_iff d.id new.id).1 (ap (λ x. x.id) d_is ∙ sym same) in
        rw (hit, passes) refl)
  | inr f ↦ elim (Bool-cases (has_id new.id d)) [
    | inl hit ↦ rw (hit, passes) refl
    | inr other ↦ rw (other, f) (find_if-save q c new cs (rw f at found) passes same)
  ]
]

pub ltb-true : (a b : ℕ) → a < b → ltb a b ≡ true
ltb-true a b h = ground arith

-- An active account with no password yet (`passwordHash` is null) is checked against the hash of a
-- constant text of the source: where bcrypt accepts a text against its own hash, that text is
-- accepted as the account's password.
pub check_password-dummy :
    {Keys : Type 0} (redis : Redis Keys) (env : Env) (email : ℕ) (c : Credential) (st : State Keys)
    → find_by_email email st.credentials ≡ some c
    → is_active c.status ≡ true
    → c.password_hash ≡ none
    → is_locked env.now (some c) ≡ false
    → env.compare_hash dummy_password (env.hash dummy_password) ≡ true
    → (check_password redis env email dummy_password st).0 ≡ returns c
unfolding check_password accept ◌>>=◌
check_password-dummy redis env email c st found works empty free own =
    rw (found, free, works, empty, own) refl
