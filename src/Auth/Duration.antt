-- ===== src/Auth/Duration.antt =====
-- `parseDurationToSeconds` of services/auth-service/src/auth/utils/parse-duration.ts. A text is the list of
-- its code points. The numbers of JavaScript are a parameter: the one nearest to a natural number, and
-- their product.
pub mod RoundTrip
use sgd_backend.Base.{
  ℕ, ◌+◌, ◌-◌, ◌*◌, Bool, true, false, ◌&&◌, Option, none, some, List, [], ◌∷◌, ◌==◌, leb, is_empty,
  is_space, if◌then◌else◌,
}

-- `String.prototype.trim`
unfoldable pub trim_left : List ℕ → List ℕ
trim_left [] = []
trim_left (c ∷ cs) = let rest = trim_left cs in if is_space c then rest else c ∷ cs

unfoldable pub trim_right : List ℕ → List ℕ
trim_right [] = []
trim_right (c ∷ cs) =
    let rest = trim_right cs in if is_space c && is_empty rest then [] else c ∷ rest

-- `\d`
abbrev pub is_digit : ℕ → Bool
is_digit c = leb 48 c && leb c 57

-- `UNIT_MULTIPLIERS`, on the code points of `s`, `m`, `h` and `d`.
abbrev pub unit_multiplier : ℕ → Option ℕ
unit_multiplier c =
    if c == 115
    then some 1
    else (if c == 109
        then some 60
        else (if c == 104 then some 3600 else (if c == 100 then some 86400 else none)))

abbrev pub add_digit : Option ℕ → ℕ → Option ℕ
add_digit none c = some (c - 48)
add_digit (some n) c = some (n * 10 + (c - 48))

abbrev pub or_else {ℓ} : {A : Type ℓ} → Option A → A → A
or_else none fallback = fallback
or_else (some n) fallback = n

module _ {Number : Type 0} (number : ℕ → Number) (multiply : Number → Number → Number) where
  -- `Number(match[1]) * multiplier`, where the digits and the unit are there.
  abbrev pub times : Option ℕ → Option ℕ → Option Number
  times none m = none
  times (some n) none = none
  times (some n) (some m) = some (multiply (number n) (number m))

  -- The part of the pattern after its digits.
  abbrev pub finish : Option ℕ → ℕ → List ℕ → Option Number
  finish n c [] = times n (unit_multiplier c)
  finish n c (d ∷ cs) = none

  -- `/^(\d+)([smhd])?$/`, with the number that the digits before have given.
  unfoldable pub match_duration : Option ℕ → List ℕ → Option Number
  match_duration n [] = times n (some 1)
  match_duration n (c ∷ cs) =
      let rest = match_duration (add_digit n c) cs in if is_digit c then rest else finish n c cs

  unfoldable pub parse_duration : List ℕ → (fallback : Number) → Number
  parse_duration value fallback =
      or_else (match_duration none (trim_right (trim_left value))) fallback
