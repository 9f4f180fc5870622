-- ===== src/Kafka/Waits.antt =====
-- How long `withDlt` of packages/common/src/kafka/kafka-consumer.util.ts waits in all.
use sgd_backend.Base.{
  ℕ, zero, suc, ◌+◌, ◌-◌, ◌*◌, ◌≤◌, ◌<◌, ◌≡◌, ◌⊎◌, refl, Bool, true, false, List, [], ◌∷◌, ◌++◌,
  leb, subst, Bool-cases, inl, inr, if◌then◌else◌, arith,
}
use sgd_backend.Kafka.{
  Step, handled, failed, waited, dead_lettered, lost, Params, max_attempts, initial_delay,
  power_of_two, with_dlt,
}
use sgd_backend.Kafka.Attempts.{failures_from, time_waited, with_dlt-handled, with_dlt-exhausted}

-- The first success up to an attempt, or none.
FirstUpTo : (ℕ → Bool) → ℕ → Type 0
FirstUpTo handler n =
    ((j : ℕ) → 1 ≤ j → j ≤ n → handler j ≡ false)
    ⊎ ((k : ℕ) × (1 ≤ k)
        × (k ≤ n)
        × ((j : ℕ) → 1 ≤ j → j < k → handler j ≡ false)
        × (handler k ≡ true))

first_up_to : (handler : ℕ → Bool) (n : ℕ) → FirstUpTo handler n
unfolding FirstUpTo
first_up_to handler zero = inl (λ j low high. absurd (omega arith))
first_up_to handler (suc n) = elim (first_up_to handler n) [
  | inr (k, start, high, before, works) ↦ inr (k, start, omega arith, before, works)
  | inl fails ↦ elim (Bool-cases (handler (suc n))) [
    | inl works ↦
        inr (suc n, omega arith, omega arith, (λ j low high. fails j low (omega arith)), works)
    | inr fail ↦ inl (λ j low high. elim (Bool-cases (leb j n)) [
      | inl t ↦ fails j low (ground arith)
      | inr f ↦ let last : suc n ≡ j = ground arith in subst (λ m. handler m ≡ false) last fail
    ])
  ]
]

time-append : (xs ys : List Step) → time_waited (xs ++ ys) ≡ time_waited xs + time_waited ys
unfolding time_waited
time-append [] ys = omega arith
time-append (waited ms ∷ xs) ys = rw (time-append xs ys) (omega arith)
time-append (handled k ∷ xs) ys = time-append xs ys
time-append (failed k ∷ xs) ys = time-append xs ys
time-append (dead_lettered ∷ xs) ys = time-append xs ys
time-append (lost ∷ xs) ys = time-append xs ys

power-suc :
    (delay n : ℕ) → delay * power_of_two (suc n) ≡ delay * power_of_two n + delay * power_of_two n
unfolding power_of_two
power-suc delay n = omega arith

add_up : (w t q : ℕ) {r : ℕ} → t + q ≡ r → q ≡ w + w → w + t + w ≡ r
add_up w t q e f = omega arith

doubled_more : (p q r : ℕ) → p ≤ q → r ≡ q + q → p ≤ r
doubled_more p q r h e = omega arith

power_monotone : (delay m n : ℕ) → m ≤ n → delay * power_of_two m ≤ delay * power_of_two n
power_monotone delay m zero h = let same : m ≡ 0 = omega arith in rw same (omega arith)
power_monotone delay m (suc n) h = elim (Bool-cases (leb m n)) [
  | inl t ↦ doubled_more _ _ _ (power_monotone delay m n (ground arith)) (power-suc delay n)
  | inr f ↦ let same : m ≡ suc n = ground arith in rw same (omega arith)
]

-- The waits double, so that with one more delay they come to the next wait.
time-failures :
    (delay a n : ℕ)
    → time_waited (failures_from delay (suc a) n) + delay * power_of_two a
      ≡ delay * power_of_two (a + n)
unfolding failures_from time_waited
time-failures delay a zero = let all : a + 0 ≡ a = omega arith in rw all (omega arith)
time-failures delay a (suc n) =
    let here : suc a - 1 ≡ a = omega arith in
    let next : suc a + 1 ≡ suc (suc a) = omega arith in
    let after : a + suc n ≡ suc a + n = omega arith in
    let rest = time-failures delay (suc a) n in
    rw (here, next, after) (add_up _ _ _ rest (power-suc delay a))

time-first : (delay n : ℕ) → time_waited (failures_from delay 1 n) + delay ≡ delay * power_of_two n
unfolding power_of_two
time-first delay n =
    let none_before : 0 + n ≡ n = omega arith in
    let once : delay * power_of_two 0 ≡ delay = omega arith in
    rw (once, none_before) at (time-failures delay 0 n)

add_nothing : (t d n : ℕ) → t + d ≡ n → t + 0 + d ≡ n
add_nothing t d n e = omega arith

no_time :
    (b : Bool) (k : ℕ) → time_waited (failed k ∷ (if b then dead_lettered ∷ [] else lost ∷ [])) ≡ 0
unfolding time_waited
no_time true k = refl
no_time false k = refl

tail_time :
    (xs ys : List Step) (delay n : ℕ)
    → time_waited xs + delay ≡ n
    → time_waited ys ≡ 0
    → time_waited (xs ++ ys) + delay ≡ n
tail_time xs ys delay n e nothing = rw (time-append xs ys, nothing) (add_nothing _ _ _ e)

-- With `k` the first attempt that succeeds, or the last that is allowed where none does, the waits
-- of `withDlt` and one initial delay come to `2 ** (k - 1)` initial delays.
time-handled :
    (params : Params) (handler : ℕ → Bool) (dlt_works : Bool) (k : ℕ)
    → 1 ≤ k
    → k ≤ max_attempts params
    → ((j : ℕ) → 1 ≤ j → j < k → handler j ≡ false)
    → handler k ≡ true
    → time_waited (with_dlt params handler dlt_works) + initial_delay params
      ≡ initial_delay params * power_of_two (k - 1)
unfolding time_waited
time-handled params handler dlt_works k start allowed fails works =
    rw (with_dlt-handled params handler dlt_works k start allowed fails works) (
      tail_time (failures_from (initial_delay params) 1 (k - 1)) (handled k ∷ []) _ _
        (time-first (initial_delay params) (k - 1)) refl)

time-exhausted :
    (params : Params) (handler : ℕ → Bool) (dlt_works : Bool)
    → 1 ≤ max_attempts params
    → ((j : ℕ) → 1 ≤ j → j ≤ max_attempts params → handler j ≡ false)
    → time_waited (with_dlt params handler dlt_works) + initial_delay params
      ≡ initial_delay params * power_of_two (max_attempts params - 1)
unfolding time_waited
time-exhausted params handler dlt_works start fails =
    rw (with_dlt-exhausted params handler dlt_works start fails) (
      tail_time (failures_from (initial_delay params) 1 (max_attempts params - 1)) _ _ _
        (time-first (initial_delay params) (max_attempts params - 1))
        (no_time dlt_works (max_attempts params)))

-- Whatever the handler does, and where at least one attempt is allowed, the waits of `withDlt` and
-- one initial delay come to at most the initial delay times two to the number of allowed attempts
-- less one.
pub with_dlt-time :
    (params : Params) (handler : ℕ → Bool) (dlt_works : Bool)
    → 1 ≤ max_attempts params
    → time_waited (with_dlt params handler dlt_works) + initial_delay params
      ≤ initial_delay params * power_of_two (max_attempts params - 1)
unfolding FirstUpTo
with_dlt-time params handler dlt_works start = elim (first_up_to handler (max_attempts params)) [
  | inl fails ↦ rw (time-exhausted params handler dlt_works start fails) (omega arith)
  | inr (k, from, allowed, before, works) ↦
      rw (time-handled params handler dlt_works k from allowed before works)
        (power_monotone (initial_delay params) (k - 1) (max_attempts params - 1) (omega arith))
]
