-- ===== src/Kafka/Tests.antt =====
-- A message whose second attempt succeeds, and one that nobody takes.
use sgd_backend.Base.{
  ℕ, ◌+◌, ◌*◌, ◌≡◌, ◌≤◌, refl, Bool, true, false, none, [], ◌∷◌, ◌++◌, leb, if◌then◌else◌, arith,
}
use sgd_backend.Kafka.{
  handled, failed, dead_lettered, lost, Params, power_of_two, attempts, with_dlt,
}
use sgd_backend.Kafka.Attempts.{
  failures_from, time_waited, with_dlt-handled, with_dlt-exhausted, with_dlt-ends,
}
use sgd_backend.Kafka.Waits.{with_dlt-time}

abbrev default_params : Params
default_params = record { retries = none; initial_delay_ms = none }

abbrev from_second : ℕ → Bool
from_second attempt = leb 2 attempt

abbrev never : ℕ → Bool
never attempt = false

with_dlt-handled_example :
    with_dlt default_params from_second true ≡ failures_from 300 1 1 ++ handled 2 ∷ []
with_dlt-handled_example =
    with_dlt-handled default_params from_second true 2 (omega arith) (omega arith)
      (λ j low high. ground arith) refl

with_dlt-exhausted_example :
    with_dlt default_params never true
    ≡ failures_from 300 1 2 ++ failed 3 ∷ (if true then dead_lettered ∷ [] else lost ∷ [])
with_dlt-exhausted_example =
    with_dlt-exhausted default_params never true (omega arith) (λ j low high. refl)

with_dlt-ends_example :
    attempts default_params never true (5 + 4) 1 ≡ with_dlt default_params never true
with_dlt-ends_example = with_dlt-ends default_params never true 5

with_dlt-time_example :
    time_waited (with_dlt default_params never true) + 300 ≤ 300 * power_of_two 2
with_dlt-time_example = with_dlt-time default_params never true (omega arith)

-- 300 ms and 600 ms.
waits : time_waited (with_dlt default_params never true) ≡ 900
unfolding with_dlt attempts power_of_two time_waited
waits = refl
