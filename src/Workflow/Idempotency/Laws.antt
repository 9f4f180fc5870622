-- ===== src/Workflow/Idempotency/Laws.antt =====
-- What a repeated key does.
use sgd_backend.Base.{
  ℕ, ◌+◌, ◌≤◌, ◌<◌, ◌≡◌, ◌≢◌, refl, sym, ap, ◌∙◌, inl, inr, true, false, Option, none, some, List,
  [], ◌∷◌, find_if, All, All-imp, Distinct, ltb, ◌==◌, ==_refl, Bool-cases, arith,
}
use sgd_backend.Workflow.Errors.{Result, ok, err}
use sgd_backend.Workflow.Idempotency.{
  IdempotencyKey, Json, ttl_ms, find_key, upsert, delete_key, get, set, store_answer,
  with_idempotency,
}

find_key-upsert :
    (new : IdempotencyKey) (rows : List IdempotencyKey)
    → find_key new.idem_key new.user_id (upsert new rows) ≡ some new
unfolding find_key upsert find_if
find_key-upsert new [] = rw (==_refl new.idem_key, ==_refl new.user_id) refl
find_key-upsert new (r ∷ rs) = elim (Bool-cases (r.idem_key == new.idem_key)) [
  | inl t ↦ rw (t, ==_refl new.idem_key, ==_refl new.user_id) refl
  | inr f ↦ rw (f, f) (find_key-upsert new rs)
]

abbrev by_key : IdempotencyKey → ℕ
by_key r = r.idem_key

find_key_absent :
    (key user : ℕ) (rows : List IdempotencyKey)
    → All (λ (r : IdempotencyKey). key ≢ r.idem_key) rows
    → find_key key user rows ≡ none
unfolding find_key find_if
find_key_absent key user [] h = refl
find_key_absent key user (r ∷ rs) h =
    let apart = h.0 in ground (arith, find_key_absent key user rs h.1)

-- A key stored for one user is no longer found for another.
find_key-upsert_other :
    (new : IdempotencyKey) (user : ℕ) (rows : List IdempotencyKey)
    → Distinct by_key rows
    → new.user_id ≢ user
    → find_key new.idem_key user (upsert new rows) ≡ none
unfolding find_key upsert find_if
find_key-upsert_other new user [] d other = ground arith
find_key-upsert_other new user (r ∷ rs) d other = elim (Bool-cases (r.idem_key == new.idem_key)) [
  | inl t ↦
      let absent =
        find_key_absent new.idem_key user rs
          (All-imp _ _ (λ y apart e. apart (ground arith)) rs d.0) in
      ground (arith, absent)
  | inr f ↦ rw (f, f) (find_key-upsert_other new user rs d.1 other)
]

All-upsert {ℓ} :
    (P : IdempotencyKey → Type ℓ) (new : IdempotencyKey) (rows : List IdempotencyKey)
    → P new
    → All P rows
    → All P (upsert new rows)
unfolding upsert
All-upsert P new [] p h = (p, tt)
All-upsert P new (r ∷ rs) p h = elim (Bool-cases (r.idem_key == new.idem_key)) [
  | inl t ↦ rw t (p, h.1)
  | inr f ↦ rw f (h.0, All-upsert P new rs p h.1)
]

Distinct-upsert :
    (new : IdempotencyKey) (rows : List IdempotencyKey)
    → Distinct by_key rows
    → Distinct by_key (upsert new rows)
unfolding upsert
Distinct-upsert new [] d = (tt, tt)
Distinct-upsert new (r ∷ rs) d = elim (Bool-cases (r.idem_key == new.idem_key)) [
  | inl t ↦ rw t (All-imp _ _ (λ y apart e. apart (ground arith)) rs d.0, d.1)
  | inr f ↦ rw f (
    All-upsert (λ y. by_key r ≢ by_key y) new rs (λ e. ground arith) d.0,
    Distinct-upsert new rs d.1,
  )
]

-- The row that an answer leaves.
abbrev answer_row {ℓ} : {A : Type ℓ} → Json A → (key user later : ℕ) → A → IdempotencyKey
answer_row json key user later a = record {
  idem_key = key;
  user_id = user;
  response = json.stringify a;
  expires_at = later + ttl_ms;
}

get-fresh {ℓ} :
    {A : Type ℓ} (json : Json A) (now key user : ℕ) (rows : List IdempotencyKey)
    → find_key key user rows ≡ none
    → get json now key user rows ≡ (none, rows)
unfolding get
get-fresh json now key user rows fresh = rw (fresh, get) refl

get-answered {ℓ} :
    {A : Type ℓ} (json : Json A) (now key user : ℕ) (rows : List IdempotencyKey) (at : ℕ) (a : A)
    → find_key key user rows ≡ some (answer_row json key user at a)
    → json.is_null (json.parse (json.stringify a)) ≡ false
    → now ≤ at + 86400000
    → get json now key user rows ≡ (some (json.parse (json.stringify a)), rows)
unfolding get
get-answered json now key user rows at a stored solid fresh =
    let valid : ltb (at + ttl_ms) now ≡ false = ground arith in rw (stored, get, valid, solid) refl

get-expired {ℓ} :
    {A : Type ℓ} (json : Json A) (now key user : ℕ) (rows : List IdempotencyKey) (at : ℕ) (a : A)
    → find_key key user rows ≡ some (answer_row json key user at a)
    → at + 86400000 < now
    → get json now key user rows ≡ (none, delete_key key rows)
unfolding get
get-expired json now key user rows at a stored old =
    let gone : ltb (at + ttl_ms) now ≡ true = ground arith in rw (stored, get, gone) refl

module _ {ℓ κ} {A : Type ℓ} {S : Type κ} (json : Json A) (key user : ℕ) where
  -- A key that is not stored lets the operation run.
  runs :
      (now later : ℕ) (fn : S → Result (A × S)) (s : S) (rows : List IdempotencyKey)
      → find_key key user rows ≡ none
      → with_idempotency json now later (some key) user fn s rows
        ≡ store_answer json later key user (fn s) rows
  unfolding with_idempotency
  runs now later fn s rows fresh =
      let found = get-fresh json now key user rows fresh in
      rw (found, with_idempotency)
        (ap (λ (g : Option A × List IdempotencyKey). store_answer json later key user (fn s) g.1)
          found)

  stores :
      (now later : ℕ) (fn : S → Result (A × S)) (s s' : S) (a : A) (rows : List IdempotencyKey)
      → find_key key user rows ≡ none
      → fn s ≡ ok (a, s')
      → with_idempotency json now later (some key) user fn s rows
        ≡ (ok (a, s'), upsert (answer_row json key user later a) rows)
  unfolding store_answer set
  stores now later fn s s' a rows fresh e = runs now later fn s rows fresh ∙ rw e refl

  answer_of-store_answer :
      (later : ℕ) (result : Result (A × S)) (rows : List IdempotencyKey)
      → (store_answer json later key user result rows).0 ≡ result
  unfolding store_answer
  answer_of-store_answer later (ok (a, s)) rows = refl
  answer_of-store_answer later (err e) rows = refl

  -- A row that has not expired is answered from, and stays as it is.
  answered :
      (now later : ℕ) (fn : S → Result (A × S)) (s : S) (rows : List IdempotencyKey) (at : ℕ)
      (a : A)
      → find_key key user rows ≡ some (answer_row json key user at a)
      → json.is_null (json.parse (json.stringify a)) ≡ false
      → now ≤ at + 86400000
      → with_idempotency json now later (some key) user fn s rows
        ≡ (ok (json.parse (json.stringify a), s), rows)
  unfolding with_idempotency
  answered now later fn s rows at a stored solid fresh =
      let found = get-answered json now key user rows at a stored solid fresh in
      rw (found, with_idempotency)
        (ap (λ (g : Option A × List IdempotencyKey). (ok (json.parse (json.stringify a), s), g.1))
          found)

  expired :
      (now later : ℕ) (fn : S → Result (A × S)) (s : S) (rows : List IdempotencyKey) (at : ℕ)
      (a : A)
      → find_key key user rows ≡ some (answer_row json key user at a)
      → at + 86400000 < now
      → with_idempotency json now later (some key) user fn s rows
        ≡ store_answer json later key user (fn s) (delete_key key rows)
  unfolding with_idempotency
  expired now later fn s rows at a stored old =
      let found = get-expired json now key user rows at a stored old in
      rw (found, with_idempotency)
        (ap (λ (g : Option A × List IdempotencyKey). store_answer json later key user (fn s) g.1)
          found)

  -- A call whose key is not stored runs the operation and answers what it answered. The same user's
  -- next call with this key, whatever it asks for, does not run its operation for 24 hours
  -- (86,400,000 ms) after the first answer: it answers what `JSON.parse` makes of the first answer's
  -- `JSON.stringify`, which is not to be null, and leaves the rest of the system and the stored keys
  -- as they are. Later it runs its own operation and answers as that does.
  pub with_idempotency-repeat :
      (now later now' later' : ℕ) (fn fn' : S → Result (A × S)) (s s' t : S) (a : A)
      (rows : List IdempotencyKey)
      → find_key key user rows ≡ none
      → fn s ≡ ok (a, s')
      → json.is_null (json.parse (json.stringify a)) ≡ false
      → (rows' : List IdempotencyKey) × (with_idempotency json now later (some key) user fn s rows
          ≡ (ok (a, s'), rows'))
        × (now' ≤ later + 86400000
            → with_idempotency json now' later' (some key) user fn' t rows'
              ≡ (ok (json.parse (json.stringify a), t), rows'))
        × (later + 86400000 < now'
            → (with_idempotency json now' later' (some key) user fn' t rows').0 ≡ fn' t)
  with_idempotency-repeat now later now' later' fn fn' s s' t a rows fresh e solid =
      let rows' = upsert (answer_row json key user later a) rows in
      let stored = find_key-upsert (answer_row json key user later a) rows in
      (
        rows',
        stores now later fn s s' a rows fresh e,
        λ soon. answered now' later' fn' t rows' later a stored solid soon,
        λ old.
            ap (λ (r : Result (A × S) × List IdempotencyKey). r.0)
              (expired now' later' fn' t rows' later a stored old)
            ∙ answer_of-store_answer later' (fn' t) (delete_key key rows'),
      )

-- When another user has used the same key in the meantime, the first user's stored answer is lost,
-- although it has not expired: the repeated call runs its operation again.
pub with_idempotency-taken {ℓ κ} :
    {A : Type ℓ} {S : Type κ} (json : Json A) (key user other now : ℕ)
    (first second again : S → Result (A × S)) (s s' t t' u : S) (a b : A)
    (rows : List IdempotencyKey)
    → Distinct by_key rows
    → user ≢ other
    → find_key key user rows ≡ none
    → first s ≡ ok (a, s')
    → second t ≡ ok (b, t')
    → (rows' : List IdempotencyKey) × (rows'' : List IdempotencyKey) × (with_idempotency json now
          now
          (some key)
          user
          first
          s
          rows
        ≡ (ok (a, s'), rows'))
      × (with_idempotency json now now (some key) other second t rows' ≡ (ok (b, t'), rows''))
      × ((with_idempotency json now now (some key) user again u rows'').0 ≡ again u)
with_idempotency-taken json key user other now first second again s s' t t' u a b rows d apart fresh
      e e' =
    let mine = answer_row json key user now a in
    let theirs = answer_row json key other now b in
    (
      upsert mine rows,
      upsert theirs (upsert mine rows),
      stores json key user now now first s s' a rows fresh e,
      stores json key other now now second t t' b (upsert mine rows)
          (find_key-upsert_other mine other rows d apart) e',
      ap (λ (r : Result (_ × _) × List IdempotencyKey). r.0)
            (runs json key user now now again u _ (
              find_key-upsert_other theirs user (upsert mine rows) (Distinct-upsert mine rows d)
                (λ same. apart (sym same))))
          ∙ answer_of-store_answer json key user now (again u) _,
    )
