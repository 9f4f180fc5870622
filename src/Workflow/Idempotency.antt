-- ===== src/Workflow/Idempotency.antt =====
-- services/workflow-service/src/workflows/idempotency.service.ts, and `withIdempotency` of
-- workflows.controller.ts. A key, the text of a header, is a number, compared by equality only.
pub mod Laws
use sgd_backend.Base.{
  ℕ, ◌+◌, String, Bool, true, false, not, ◌&&◌, Option, none, some, List, [], ◌∷◌, find_if, select,
  ltb, ◌==◌, if◌then◌else◌,
}
use sgd_backend.Workflow.Errors.{Result, ok, err}

-- `IdempotencyKey`
pub record IdempotencyKey : Type 0 where
  pub idem_key : ℕ
  pub user_id : ℕ
  pub response : String
  pub expires_at : ℕ

-- `JSON.stringify`, `JSON.parse` and `=== null`.
pub record Json {ℓ} (A : Type ℓ) : Type ℓ where
  pub stringify : A → String
  pub parse : String → A
  pub is_null : A → Bool

-- 24 hours in milliseconds.
abbrev pub ttl_ms : ℕ
ttl_ms = 86400000

-- `findOne({ where: { idemKey: key, userId } })`
abbrev pub is_for : (key user : ℕ) → IdempotencyKey → Bool
is_for key user r = r.idem_key == key && r.user_id == user

unfoldable pub find_key : (key user : ℕ) → List IdempotencyKey → Option IdempotencyKey
find_key key user rows = find_if (is_for key user) rows

-- `repo.delete(key)`
unfoldable pub delete_key : (key : ℕ) → List IdempotencyKey → List IdempotencyKey
delete_key key rows = select (λ r. not (r.idem_key == key)) rows

-- `repo.upsert(row, ['idemKey'])`: the row with this key is replaced, whoever it belongs to.
unfoldable pub upsert : IdempotencyKey → List IdempotencyKey → List IdempotencyKey
upsert new [] = new ∷ []
upsert new (r ∷ rs) =
    let later = upsert new rs in if r.idem_key == new.idem_key then new ∷ rs else r ∷ later

module _ {ℓ} {A : Type ℓ} (json : Json A) where
  abbrev unless_null : A → Option A
  unless_null a = if json.is_null a then none else some a

  -- The answer for the key, `none` for null; an expired row is deleted.
  unfoldable pub get : (now key user : ℕ) → List IdempotencyKey → Option A × List IdempotencyKey
  get now key user rows = elim (find_key key user rows) [
    | none ↦ (none, rows)
    | some r ↦
        if ltb r.expires_at now
        then (none, delete_key key rows)
        else (unless_null (json.parse r.response), rows)
  ]

  unfoldable pub set : (now key user : ℕ) → A → List IdempotencyKey → List IdempotencyKey
  set now key user answer rows =
      upsert
        (record {
          idem_key = key;
          user_id = user;
          response = json.stringify answer;
          expires_at = now + ttl_ms;
        })
        rows

  -- The answer of the operation is stored; what it throws is not.
  unfoldable pub store_answer {κ} :
      {S : Type κ}
      → (now key user : ℕ) → Result (A × S)
      → List IdempotencyKey
      → Result (A × S) × List IdempotencyKey
  unfolding set
  store_answer now key user (ok (answer, s)) rows = (ok (answer, s), set now key user answer rows)
  store_answer now key user (err e) rows = (err e, rows)

  -- `fn` runs on the state `s` of the rest of the system; `now` is the time of the lookup, `later`
  -- that of the answer.
  unfoldable pub with_idempotency {κ} :
      {S : Type κ}
      → (now later : ℕ) (key : Option ℕ) (user : ℕ) → (S → Result (A × S))
      → S
      → List IdempotencyKey
      → Result (A × S) × List IdempotencyKey
  unfolding store_answer
  with_idempotency now later none user fn s rows = (fn s, rows)
  with_idempotency now later (some key) user fn s rows =
      let found = get now key user rows in
      elim found.0 [
        | some answer ↦ (ok (answer, s), found.1)
        | none ↦ store_answer later key user (fn s) found.1
      ]
