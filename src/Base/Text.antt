-- ===== src/Base/Text.antt =====
-- Go strings as lists of bytes. Every literal of the program is ASCII, so that its code points are
-- its bytes.
use Prim.Native.Char.{code}
use Prim.Native.Nat.{ℕ}
use Prim.Native.String.{String}
use mathlib.Core.Logic.{ite}
use mathlib.Core.Bool.{Bool, true, false}
use mathlib.Core.List.{List, [], ◌∷◌}
use native.Mathlib.Decide.{ℕ_discrete}

abbrev pub Text : Type 0
Text = List ℕ

-- The bytes of a literal.
unfoldable pub codes : String → Text
codes String.[] = []
codes (String.◌∷◌ c s) = code c ∷ codes s

unfoldable pub text_dec : Discrete Text
unfolding ℕ_discrete
text_dec = hlevel ℕ_discrete

-- `a == b`, as a decision: a split on it yields the equation or its negation.
infix 50 ◌==◌
abbrev pub ◌==◌ : Text → Text → Bool
a == b = ite (text_dec a b) true false
