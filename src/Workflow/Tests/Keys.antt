-- ===== src/Workflow/Tests/Keys.antt =====
-- Two users and one idempotency key. The answers are texts, and JSON leaves them as they are.
use sgd_backend.Base.{
  ℕ, ◌+◌, ◌≡◌, ◌≢◌, ◌≤◌, ◌<◌, refl, String, false, List, [], none, some, find_if, arith,
}
use sgd_backend.Workflow.Errors.{Result, ok}
use sgd_backend.Workflow.Idempotency.{IdempotencyKey, Json, find_key, with_idempotency}
use sgd_backend.Workflow.Idempotency.Laws.{with_idempotency-repeat, with_idempotency-taken}

abbrev texts : Json String
texts = record { stringify = λ a. a; parse = λ a. a; is_null = λ a. false }

-- The state counts the runs.
abbrev answers : String → ℕ → Result (String × ℕ)
answers text n = ok (text, n + 1)

nothing_stored : (user : ℕ) → find_key 8 user [] ≡ none
unfolding find_key find_if
nothing_stored user = refl

with_idempotency-repeat_example :
    (rows' : List IdempotencyKey) × (with_idempotency texts 100 101 (some 8) 1 (answers "a") 0 []
      ≡ (ok ("a", 1), rows'))
    × (200 ≤ 101 + 86400000
        → with_idempotency texts 200 201 (some 8) 1 (answers "b") 1 rows' ≡ (ok ("a", 1), rows'))
    × (101 + 86400000 < 200
        → (with_idempotency texts 200 201 (some 8) 1 (answers "b") 1 rows').0 ≡ answers "b" 1)
with_idempotency-repeat_example =
    with_idempotency-repeat texts 8 1 100 101 200 201 (answers "a") (answers "b") 0 1 1 "a" []
      (nothing_stored 1) refl refl

abbrev ann : ℕ
ann = 1

abbrev bob : ℕ
bob = 2

other_user : ann ≢ bob
other_user e = absurd (omega arith)

with_idempotency-taken_example :
    (rows' : List IdempotencyKey) × (rows'' : List IdempotencyKey) × (with_idempotency texts 100 100
        (some 8)
        1
        (answers "a")
        0
        []
      ≡ (ok ("a", 1), rows'))
    × (with_idempotency texts 100 100 (some 8) 2 (answers "b") 1 rows' ≡ (ok ("b", 2), rows''))
    × ((with_idempotency texts 100 100 (some 8) 1 (answers "a") 2 rows'').0 ≡ answers "a" 2)
with_idempotency-taken_example =
    with_idempotency-taken texts 8 ann bob 100 (answers "a") (answers "b") (answers "a") 0 1 1 2 2
      "a" "b" [] tt other_user (nothing_stored 1) refl refl
