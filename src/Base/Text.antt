-- ===== src/Base/Text.antt =====
-- The operations on texts that the program uses, on code points, or bytes where a text is ASCII.
use Prim.Native.Char.{code}
use Prim.Native.String.{String}
use Prim.Native.Nat.{ℕ}
use mathlib.Core.Bool.{Bool, true, false, ◌&&◌, ◌||◌}
use mathlib.Core.Option.{Option, none, some}
use mathlib.Core.List.{List, [], ◌∷◌}
use zakuro_rs.Base.Tests.{if◌then◌else◌, ◌==◌}

abbrev pub Text : Type 0
Text = List ℕ

abbrev pub codes : String → Text
codes String.[] = []
codes (String.◌∷◌ c s) = code c ∷ codes s

unfoldable pub text_eq : Text → Text → Bool
text_eq [] [] = true
text_eq (a ∷ s) (b ∷ t) = a == b && text_eq s t
text_eq _ _ = false

-- `contains` of a character.
unfoldable pub has_char : ℕ → Text → Bool
has_char c [] = false
has_char c (a ∷ s) = a == c || has_char c s

-- The text before the first `c`, the whole text where there is none.
unfoldable pub before_char : ℕ → Text → Text
before_char c [] = []
before_char c (a ∷ s) = if a == c then [] else a ∷ before_char c s

-- `strip_prefix("--")`
unfoldable pub strip_dashes : Text → Option Text
strip_dashes (a ∷ b ∷ s) = if a == b'-' && b == b'-' then some s else none
strip_dashes _ = none

-- `matches!(key, "…" | "…")`
unfoldable pub one_of : List String → Text → Bool
unfolding text_eq
one_of [] t = false
one_of (s ∷ ss) t = text_eq t (codes s) || one_of ss t
