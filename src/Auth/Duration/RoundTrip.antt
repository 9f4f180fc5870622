-- ===== src/Auth/Duration/RoundTrip.antt =====
-- A duration that is written out is read back: services/auth-service/src/auth/utils/parse-duration.ts.
use sgd_backend.Base.{
  ℕ, zero, suc, ◌+◌, ◌*◌, ◌/◌, ◌%◌, ◌≤◌, ◌<◌, ◌≡◌, refl, ap, ◌∙◌, true, false, Option, none, some,
  List, [], ◌∷◌, ◌++◌, inl, inr, Bool-cases, leb, is_empty, is_space, if◌then◌else◌, All,
  All-append, arith,
}
use sgd_backend.Auth.Duration.{
  trim_left, trim_right, is_digit, add_digit, match_duration, parse_duration,
}

pub data TimeUnit : Type 0 where
  second minute hour day : TimeUnit

abbrev pub seconds_in : Option TimeUnit → ℕ
seconds_in none = 1
seconds_in (some second) = 1
seconds_in (some minute) = 60
seconds_in (some hour) = 60 * 60
seconds_in (some day) = 24 * 60 * 60

-- `s`, `m`, `h` and `d`.
abbrev pub suffix : Option TimeUnit → List ℕ
suffix none = []
suffix (some second) = 115 ∷ []
suffix (some minute) = 109 ∷ []
suffix (some hour) = 104 ∷ []
suffix (some day) = 100 ∷ []

-- The decimal digits of a number below the fuel.
unfoldable pub decimal : ℕ → ℕ → List ℕ
decimal zero n = []
decimal (suc fuel) n =
    let front = decimal fuel (n / 10) in
    if leb n 9 then (48 + n) ∷ [] else front ++ (48 + n % 10) ∷ []

unfoldable pub print_duration : ℕ → Option TimeUnit → List ℕ
print_duration n u = decimal (suc n) n ++ suffix u

abbrev pub IsBlank : ℕ → Type 0
IsBlank c = is_space c ≡ true

abbrev IsInk : ℕ → Type 0
IsInk c = is_space c ≡ false

abbrev IsDigit : ℕ → Type 0
IsDigit c = is_digit c ≡ true

digit-IsInk : (d : ℕ) → d ≤ 9 → IsInk (48 + d)
unfolding is_space
digit-IsInk d h = ground arith

decimal-IsInk : (fuel n : ℕ) → All IsInk (decimal fuel n)
unfolding decimal
decimal-IsInk zero n = tt
decimal-IsInk (suc fuel) n = elim (Bool-cases (leb n 9)) [
  | inl t ↦ rw t (digit-IsInk n (ground arith), tt)
  | inr f ↦ rw f (
      All-append _ (decimal fuel (n / 10)) _ (decimal-IsInk fuel (n / 10))
        (digit-IsInk (n % 10) (omega arith), tt))
]

decimal-IsDigit : (fuel n : ℕ) → All IsDigit (decimal fuel n)
unfolding decimal
decimal-IsDigit zero n = tt
decimal-IsDigit (suc fuel) n = elim (Bool-cases (leb n 9)) [
  | inl t ↦ rw t (ground arith, tt)
  | inr f ↦
      rw f
        (All-append _ (decimal fuel (n / 10)) _ (decimal-IsDigit fuel (n / 10)) (ground arith, tt))
]

suffix-IsInk : (u : Option TimeUnit) → All IsInk (suffix u)
unfolding is_space
suffix-IsInk none = tt
suffix-IsInk (some second) = (refl, tt)
suffix-IsInk (some minute) = (refl, tt)
suffix-IsInk (some hour) = (refl, tt)
suffix-IsInk (some day) = (refl, tt)

-- The number that digits give after a first part.
read_digits : Option ℕ → List ℕ → Option ℕ
read_digits n [] = n
read_digits n (d ∷ ds) = read_digits (add_digit n d) ds

read-append :
    (n : Option ℕ) (ds : List ℕ) (d : ℕ)
    → read_digits n (ds ++ d ∷ []) ≡ add_digit (read_digits n ds) d
unfolding read_digits
read-append n [] d = refl
read-append n (e ∷ ds) d = read-append (add_digit n e) ds d

read-decimal : (fuel n : ℕ) → n < fuel → read_digits none (decimal fuel n) ≡ some n
unfolding read_digits decimal
read-decimal zero n h = absurd (omega arith)
read-decimal (suc fuel) n h = elim (Bool-cases (leb n 9)) [
  | inl t ↦ rw t (ap (λ m. some m) (omega arith))
  | inr f ↦
      rw
        (
          f,
          read-append none (decimal fuel (n / 10)) (48 + n % 10),
          read-decimal fuel (n / 10) (ground arith),
        )
        (ap (λ m. some m) (omega arith))
]

trim_right-ink :
    (cs : List ℕ) (after : List ℕ)
    → All IsInk cs
    → All IsBlank after
    → trim_right (cs ++ after) ≡ cs
unfolding trim_right
trim_right-ink [] [] h blank = refl
trim_right-ink [] (b ∷ bs) h (blank, more) = rw (trim_right-ink [] bs h more, blank) refl
trim_right-ink (c ∷ cs) after (ink, h) blank = rw (trim_right-ink cs after h blank, ink) refl

trim_left-blank :
    (before cs : List ℕ) → All IsBlank before → trim_left (before ++ cs) ≡ trim_left cs
unfolding trim_left
trim_left-blank [] cs h = refl
trim_left-blank (b ∷ bs) cs (blank, h) = rw (blank, trim_left-blank bs cs h) refl

-- What is written starts with ink.
trim_left-kept :
    (cs after : List ℕ) → is_empty cs ≡ false → All IsInk cs → trim_left (cs ++ after) ≡ cs ++ after
unfolding trim_left
trim_left-kept [] after some_ink h = cc
trim_left-kept (c ∷ cs) after some_ink (ink, h) = rw ink refl

some_digit : (front : List ℕ) (d : ℕ) → is_empty (front ++ d ∷ []) ≡ false
some_digit [] d = refl
some_digit (c ∷ cs) d = refl

decimal-some : (fuel n : ℕ) → is_empty (decimal (suc fuel) n) ≡ false
unfolding decimal
decimal-some fuel n = elim (Bool-cases (leb n 9)) [
  | inl t ↦ rw t refl
  | inr f ↦ rw f (some_digit (decimal fuel (n / 10)) _)
]

append-some : (cs ds : List ℕ) → is_empty cs ≡ false → is_empty (cs ++ ds) ≡ false
append-some [] ds h = cc
append-some (c ∷ cs) ds h = refl

print-IsInk : (n : ℕ) (u : Option TimeUnit) → All IsInk (print_duration n u)
unfolding print_duration
print-IsInk n u = All-append _ (decimal (suc n) n) _ (decimal-IsInk (suc n) n) (suffix-IsInk u)

print-some : (n : ℕ) (u : Option TimeUnit) → is_empty (print_duration n u) ≡ false
unfolding print_duration
print-some n u = append-some (decimal (suc n) n) (suffix u) (decimal-some n n)

-- 2 ^ 53
abbrev pub exact_limit : ℕ
exact_limit = 9007199254740992

within : (n : ℕ) (u : Option TimeUnit) → n * seconds_in u ≤ exact_limit → n ≤ exact_limit
within n none h = omega arith
within n (some second) h = omega arith
within n (some minute) h = omega arith
within n (some hour) h = omega arith
within n (some day) h = omega arith

unit_within : (u : Option TimeUnit) → seconds_in u ≤ exact_limit
unit_within none = omega arith
unit_within (some second) = omega arith
unit_within (some minute) = omega arith
unit_within (some hour) = omega arith
unit_within (some day) = omega arith

module _ {Number : Type 0} (number : ℕ → Number) (multiply : Number → Number → Number) where
  match-digits :
      (n : Option ℕ) (ds rest : List ℕ)
      → All IsDigit ds
      → match_duration number multiply n (ds ++ rest)
        ≡ match_duration number multiply (read_digits n ds) rest
  unfolding match_duration read_digits
  match-digits n [] rest h = refl
  match-digits n (d ∷ ds) rest (digit, h) = rw digit (match-digits (add_digit n d) ds rest h)

  match-suffix :
      (n : ℕ) (u : Option TimeUnit)
      → match_duration number multiply (some n) (suffix u)
        ≡ some (multiply (number n) (number (seconds_in u)))
  unfolding match_duration
  match-suffix n none = refl
  match-suffix n (some second) = refl
  match-suffix n (some minute) = refl
  match-suffix n (some hour) = refl
  match-suffix n (some day) = refl

  match-print :
      (n : ℕ) (u : Option TimeUnit)
      → match_duration number multiply none (print_duration n u)
        ≡ some (multiply (number n) (number (seconds_in u)))
  unfolding print_duration
  match-print n u =
      match-digits none (decimal (suc n) n) (suffix u) (decimal-IsDigit (suc n) n)
      ∙ rw (read-decimal (suc n) n (omega arith)) (match-suffix n u)

  -- A number written in decimal digits, with one of the suffixes `s`, `m`, `h` and `d` or none, and
  -- with white space around it or not, is read as that many seconds, minutes, hours or days, in
  -- seconds, and the fallback is not used, where the seconds come to at most 2 ^ 53. Of JavaScript it
  -- is supposed that a product of whole numbers is exact where they and it are at most 2 ^ 53.
  pub parse_duration-print :
      (before after : List ℕ) (n : ℕ) (u : Option TimeUnit) (fallback : Number)
      → ((a b : ℕ)
          → a ≤ exact_limit
          → b ≤ exact_limit
          → a * b ≤ exact_limit
          → multiply (number a) (number b) ≡ number (a * b))
      → n * seconds_in u ≤ exact_limit
      → All IsBlank before
      → All IsBlank after
      → parse_duration number multiply (before ++ (print_duration n u ++ after)) fallback
        ≡ number (n * seconds_in u)
  unfolding parse_duration
  parse_duration-print before after n u fallback exact small blank blank_after =
      let text = print_duration n u in
      rw
        (
          trim_left-blank before (text ++ after) blank,
          trim_left-kept text after (print-some n u) (print-IsInk n u),
          trim_right-ink text after (print-IsInk n u) blank_after,
          match-print n u,
        )
        (exact n (seconds_in u) (within n u small) (unit_within u) small)
