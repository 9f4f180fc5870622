-- ===== src/Auth/Tests/Durations.antt =====
-- Durations as texts.
use sgd_backend.Base.{ℕ, arith, ◌*◌, ◌≡◌, refl, true, some, [], ◌∷◌, ◌++◌, is_space}
use sgd_backend.Auth.Duration.{match_duration, parse_duration, trim_left, trim_right}
use sgd_backend.Auth.Duration.RoundTrip.{minute, decimal, print_duration, parse_duration-print}

space_is_blank : is_space 32 ≡ true
unfolding is_space
space_is_blank = refl

-- Numbers without rounding.
abbrev whole : ℕ → ℕ
whole n = n

parse_duration-print_example :
    parse_duration whole ◌*◌ ((32 ∷ []) ++ (print_duration 15 (some minute) ++ (32 ∷ []))) 300
    ≡ whole (15 * 60)
parse_duration-print_example =
    parse_duration-print whole ◌*◌ (32 ∷ []) (32 ∷ []) 15 (some minute) 300
      (λ a b low low_too small. refl) (omega arith) (space_is_blank, tt) (space_is_blank, tt)

-- `15m`
fifteen_minutes : print_duration 15 (some minute) ≡ 49 ∷ 53 ∷ 109 ∷ []
unfolding print_duration decimal
fifteen_minutes = refl

-- `m15` is no duration.
no_duration : parse_duration whole ◌*◌ (109 ∷ 49 ∷ 53 ∷ []) 300 ≡ 300
unfolding parse_duration match_duration trim_left trim_right is_space
no_duration = refl
