-- ===== src/Kafka.antt =====
-- `withDlt` of packages/common/src/kafka/kafka-consumer.util.ts: the attempts at one message of
-- Kafka. The handler and the producer are parameters: whether an attempt succeeds, and whether the
-- dead letter topic takes the message.
pub mod Attempts
pub mod Waits
pub mod Tests
use sgd_backend.Base.{
  ℕ, zero, suc, ◌+◌, ◌-◌, ◌*◌, Bool, true, false, Option, none, some, List, [], ◌∷◌, ◌++◌, ◌==◌,
  leb, get_or, if◌then◌else◌,
}

-- What happens for a message, in order: a call of the handler, a wait, a message for the dead letter
-- topic, and a failure to send that one.
pub data Step : Type 0 where
  handled failed waited : ℕ → Step
  dead_lettered lost : Step

-- `WithDltParams`; the topic, the message and the log are not looked at.
pub record Params : Type 0 where
  pub retries : Option ℕ
  pub initial_delay_ms : Option ℕ

abbrev pub max_attempts : Params → ℕ
max_attempts params = get_or params.retries 3

abbrev pub initial_delay : Params → ℕ
initial_delay params = get_or params.initial_delay_ms 300

-- `2 ** n`
unfoldable pub power_of_two : ℕ → ℕ
power_of_two zero = 1
power_of_two (suc n) = 2 * power_of_two n

module _ (params : Params) (handler : ℕ → Bool) (dlt_works : Bool) where
  abbrev pub route : List Step
  route = if dlt_works then dead_lettered ∷ [] else lost ∷ []

  -- The `for` loop from an attempt on.
  unfoldable pub attempts : (fuel attempt : ℕ) → List Step
  attempts zero attempt = []
  attempts (suc fuel) attempt =
      let rest = attempts fuel (attempt + 1) in
      if leb attempt (max_attempts params)
      then (if handler attempt
          then handled attempt ∷ []
          else (failed attempt
              ∷ (if attempt == max_attempts params
                  then route ++ rest
                  else waited (initial_delay params * power_of_two (attempt - 1)) ∷ rest)))
      else []

  unfoldable pub with_dlt : List Step
  with_dlt = attempts (suc (max_attempts params)) 1
