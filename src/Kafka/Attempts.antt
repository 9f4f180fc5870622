-- ===== src/Kafka/Attempts.antt =====
-- How often `withDlt` of packages/common/src/kafka/kafka-consumer.util.ts calls its handler, and
-- how long it waits.
use sgd_backend.Base.{
  ℕ, zero, suc, ◌+◌, ◌-◌, ◌*◌, ◌≤◌, ◌<◌, ◌≡◌, ◌↔◌, refl, ◌∙◌, Bool, true, false, List, [], ◌∷◌,
  ◌++◌, ◌==◌, ==_refl, leb, Bool-cases, inl, inr, if◌then◌else◌, arith,
}
use sgd_backend.Kafka.{
  Step, handled, failed, waited, dead_lettered, lost, Params, max_attempts, initial_delay,
  power_of_two, route, attempts, with_dlt,
}

-- `n` failures from an attempt on, each with the wait after it.
unfoldable pub failures_from : (delay attempt n : ℕ) → List Step
failures_from delay attempt zero = []
failures_from delay attempt (suc n) =
    failed attempt
    ∷ waited (delay * power_of_two (attempt - 1))
    ∷ failures_from delay (attempt + 1) n

-- The milliseconds of all waits.
unfoldable pub time_waited : List Step → ℕ
time_waited [] = 0
time_waited (waited ms ∷ steps) = ms + time_waited steps
time_waited (_ ∷ steps) = time_waited steps

route_ends :
    (b : Bool)
    → (if b then dead_lettered ∷ [] else lost ∷ []) ++ []
      ≡ (if b then dead_lettered ∷ [] else lost ∷ [])
route_ends true = refl
route_ends false = refl

leb-true : (a b : ℕ) → a ≤ b → leb a b ≡ true
leb-true a b h = ground arith

==_apart : (a b : ℕ) → a < b → (a == b) ≡ false
==_apart a b h = ground arith

module _ (params : Params) (handler : ℕ → Bool) (dlt_works : Bool) where
  -- No attempt comes after the last one.
  attempts-past :
      (fuel a : ℕ) → max_attempts params < a → attempts params handler dlt_works fuel a ≡ []
  unfolding attempts
  attempts-past zero a h = refl
  attempts-past (suc fuel) a h = ground arith

  attempts-failures :
      (n fuel total a : ℕ)
      → total ≡ n + fuel
      → 1 ≤ a
      → a + n ≤ max_attempts params
      → ((j : ℕ) → a ≤ j → j < a + n → handler j ≡ false)
      → attempts params handler dlt_works total a
        ≡ failures_from (initial_delay params) a n ++ attempts params handler dlt_works fuel (a + n)
  unfolding attempts failures_from
  attempts-failures zero fuel total a is start h fails = rw (start_again, all_left) refl
    where
      start_again : a + 0 ≡ a
      start_again = omega arith

      all_left : total ≡ fuel
      all_left = omega arith
  attempts-failures (suc n) fuel zero a is start h fails = absurd (omega arith)
  attempts-failures (suc n) fuel (suc total) a is start h fails =
      let next : a + suc n ≡ a + 1 + n = omega arith in
      rw
        (
          leb-true a (max_attempts params) (omega arith),
          fails a (omega arith) (omega arith),
          ==_apart a (max_attempts params) (omega arith),
          attempts-failures n fuel total (a + 1) (omega arith) (omega arith) (omega arith)
              (λ j low high. fails j (omega arith) (omega arith)),
          next,
        )
        refl

  -- The loop makes no more than the attempts that are left.
  pub attempts-fuel :
      (fuel a : ℕ)
      → max_attempts params < a + fuel
      → attempts params handler dlt_works (suc fuel) a ≡ attempts params handler dlt_works fuel a
  unfolding attempts
  attempts-fuel zero a enough = attempts-past (suc zero) a (omega arith)
  attempts-fuel (suc fuel) a enough = rw (attempts-fuel fuel (a + 1) (omega arith)) refl

  last_handled :
      (fuel a : ℕ)
      → a ≤ max_attempts params
      → handler a ≡ true
      → attempts params handler dlt_works (suc fuel) a ≡ handled a ∷ []
  unfolding attempts
  last_handled fuel a h works = rw (leb-true a (max_attempts params) h, works) refl

  last_failed :
      (fuel : ℕ)
      → handler (max_attempts params) ≡ false
      → attempts params handler dlt_works (suc fuel) (max_attempts params)
        ≡ failed (max_attempts params) ∷ route params handler dlt_works
  unfolding attempts
  last_failed fuel fails =
      rw
        (
          leb-true (max_attempts params) (max_attempts params) (omega arith),
          fails,
          ==_refl (max_attempts params),
          attempts-past fuel (max_attempts params + 1) (omega arith),
          route_ends dlt_works,
        )
        refl

-- With `k` the first attempt, of those allowed, whose call of the handler succeeds, `withDlt` calls
-- the handler `k` times, waiting after each failure, and ends; nothing goes to the dead letter topic.
pub with_dlt-handled :
    (params : Params) (handler : ℕ → Bool) (dlt_works : Bool) (k : ℕ)
    → 1 ≤ k
    → k ≤ max_attempts params
    → ((j : ℕ) → 1 ≤ j → j < k → handler j ≡ false)
    → handler k ≡ true
    → with_dlt params handler dlt_works
      ≡ failures_from (initial_delay params) 1 (k - 1) ++ handled k ∷ []
unfolding with_dlt
with_dlt-handled params handler dlt_works k start allowed fails works =
    let before : 1 + (k - 1) ≡ k = omega arith in
    attempts-failures params handler dlt_works (k - 1) (suc (suc (max_attempts params) - k)) _ 1
      (omega arith) (omega arith) (omega arith) (λ j low high. fails j low (omega arith))
    ∙ rw
        (
          before,
          last_handled params handler dlt_works (suc (max_attempts params) - k) k allowed works,
        )
        refl

-- Where at least one attempt is allowed and every allowed attempt fails, the handler is called as often as is allowed, with a wait
-- between two calls, and the message then goes to the dead letter topic once, or is lost where that
-- fails.
pub with_dlt-exhausted :
    (params : Params) (handler : ℕ → Bool) (dlt_works : Bool)
    → 1 ≤ max_attempts params
    → ((j : ℕ) → 1 ≤ j → j ≤ max_attempts params → handler j ≡ false)
    → with_dlt params handler dlt_works
      ≡ failures_from (initial_delay params) 1 (max_attempts params - 1)
        ++ failed (max_attempts params) ∷ (if dlt_works then dead_lettered ∷ [] else lost ∷ [])
unfolding with_dlt
with_dlt-exhausted params handler dlt_works start fails =
    let before : 1 + (max_attempts params - 1) ≡ max_attempts params = omega arith in
    attempts-failures params handler dlt_works (max_attempts params - 1) 2 _ 1 (omega arith)
      (omega arith) (omega arith) (λ j low high. fails j low (omega arith))
    ∙ rw
        (
          before,
          last_failed params handler dlt_works 1 (fails (max_attempts params) start (omega arith)),
        )
        refl

-- The loop of `withDlt` ends: every bound on its rounds above the number of allowed attempts gives
-- the same steps.
pub with_dlt-ends :
    (params : Params) (handler : ℕ → Bool) (dlt_works : Bool) (more : ℕ)
    → attempts params handler dlt_works (more + suc (max_attempts params)) 1
      ≡ with_dlt params handler dlt_works
unfolding with_dlt
with_dlt-ends params handler dlt_works zero =
    let same : 0 + suc (max_attempts params) ≡ suc (max_attempts params) = omega arith in
    rw same refl
with_dlt-ends params handler dlt_works (suc more) =
    let same : suc more + suc (max_attempts params) ≡ suc (more + suc (max_attempts params)) =
      omega arith in
    rw same (
      attempts-fuel params handler dlt_works (more + suc (max_attempts params)) 1 (omega arith)
      ∙ with_dlt-ends params handler dlt_works more)

starts :
    (a : Bool) (k : ℕ) (xs : List Step) → (if a then handled k ∷ [] else failed k ∷ xs) ≡ [] → ⊥
starts true k xs e = cc
starts false k xs e = cc

-- A message is dropped without a call of the handler and without the dead letter topic exactly where
-- no attempt is allowed (`retries: 0`).
pub with_dlt-silent :
    (params : Params) (handler : ℕ → Bool) (dlt_works : Bool)
    → (with_dlt params handler dlt_works ≡ []) ↔ (max_attempts params ≡ 0)
unfolding with_dlt attempts
with_dlt-silent params handler dlt_works = (
  λ e. elim (Bool-cases (leb 1 (max_attempts params))) [
    | inl t ↦ absurd (starts (handler 1) 1 _ (rw t at e))
    | inr f ↦ ground arith
  ],
  λ e. attempts-past params handler dlt_works (suc (max_attempts params)) 1 (omega arith),
)
