-- ===== src/Utils/Decimal.antt =====
-- `fmt.Sprintf("%d", n)` of an `int64`, and Go's integer division, which goes towards zero.
use notebook_operator.Base.{
  ℕ, zero, suc, ◌+◌, ◌/◌, ◌%◌, [], ◌∷◌, ◌++◌, ltb, if◌then◌else◌, ◌≡◌, refl,
}
use notebook_operator.Base.Int.{ℤ, pos, negsuc, sub_ℕ}
use notebook_operator.Base.Text.{Text, codes}

-- Twenty digits are enough for every `int64`.
digits : ℕ → ℕ → Text
digits zero n = []
digits (suc fuel) n =
    let higher = digits fuel (n / 10) in
    if ltb n 10 then (48 + n) ∷ [] else higher ++ (48 + n % 10) ∷ []

unfoldable pub decimal : ℤ → Text
unfolding digits
decimal (pos n) = digits 20 n
decimal (negsuc n) = b'-' ∷ digits 20 (suc n)

unfoldable pub quotient : ℤ → ℕ → ℤ
quotient (pos n) d = pos (n / d)
quotient (negsuc n) d = sub_ℕ 0 (suc n / d)

decimal_min : decimal (negsuc 9223372036854775807) ≡ codes "-9223372036854775808"
unfolding decimal codes
decimal_min = refl
