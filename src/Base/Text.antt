-- ===== src/Base/Text.antt =====
-- `s.trim()`, over code points.
use Prim.Native.Nat.{ℕ}
use Prim.Native.Char.{code}
use Prim.Native.String.{String, [], ◌∷◌}
use mathlib.Core.Path.{◌≡◌, refl}
use mathlib.Core.Option.{Option, none, some}
use mathlib.Core.Bool.{Bool, true, false, ◌&&◌, ◌||◌}
use sgd_backend.Base.Tests.{leb, ◌==◌, if◌then◌else◌}

-- White space and line ends of ECMAScript.
unfoldable pub is_space : ℕ → Bool
is_space c =
    (leb 9 c && leb c 13)
    || c == 32
    || c == 160
    || c == 5760
    || (leb 8192 c && leb c 8202)
    || c == 8232
    || c == 8233
    || c == 8239
    || c == 8287
    || c == 12288
    || c == 65279

abbrev pub is_blank : String → Bool
is_blank [] = true
is_blank (c ∷ s) = false

trim_start : String → String
trim_start [] = []
trim_start (c ∷ s) = if is_space (code c) then trim_start s else c ∷ s

trim_end : String → String
trim_end [] = []
trim_end (c ∷ s) =
    let rest = trim_end s in if is_blank rest && is_space (code c) then [] else c ∷ rest

unfoldable pub trim : String → String
unfolding is_space trim_start trim_end
trim s = trim_end (trim_start s)

-- `!!text`: an empty text counts as none.
abbrev pub given : Option String → Option String
given none = none
given (some s) = if is_blank s then none else some s

-- `text?.trim()`, where it is not empty.
unfoldable pub trimmed : Option String → Option String
unfolding trim
trimmed none = none
trimmed (some s) = given (some (trim s))

trim_test : trim "  a b \n" ≡ "a b"
unfolding trim
trim_test = refl
