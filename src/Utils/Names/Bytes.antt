-- ===== src/Utils/Names/Bytes.antt =====
-- The bytes of DNS names, and where a name starts and ends: what `sanitize_name` keeps of them.
use notebook_operator.Base.{
  ℕ, zero, suc, ◌≤◌, ◌<◌, ◌≡◌, ◌⊎◌, [], ◌∷◌, ◌++◌, arith, length, take, length-take, All, All-take,
}
use notebook_operator.Base.Text.{Text}
use notebook_operator.Utils.Sha1
use notebook_operator.Utils.Strings.{trim_right}
use notebook_operator.Utils.Names.Defs.{hash_str}

-- A lower-case letter or a digit.
abbrev pub IsAlnum : ℕ → Type 0
IsAlnum c = ((48 ≤ c) × (c ≤ 57)) ⊎ ((97 ≤ c) × (c ≤ 122))

abbrev pub IsLabelByte : ℕ → Type 0
IsLabelByte c = IsAlnum c ⊎ (c ≡ 45)

abbrev pub Starts : (ℕ → Type 0) → Text → Type 0
Starts P [] = ⊥
Starts P (c ∷ s) = P c

abbrev pub Ends : (ℕ → Type 0) → Text → Type 0
Ends P [] = ⊥
Ends P (c ∷ []) = P c
Ends P (c ∷ d ∷ s) = Ends P (d ∷ s)

module _ (P : ℕ → Type 0) where
  pub Ends-append : (xs ys : Text) → Ends P ys → Ends P (xs ++ ys)
  Ends-append [] ys h = h
  Ends-append (x ∷ []) (y ∷ ys) h = h
  Ends-append (x ∷ []) [] h = elim h [ ]
  Ends-append (x ∷ z ∷ xs) ys h = Ends-append (z ∷ xs) ys h

  pub Ends-of-All : (x : ℕ) (xs : Text) → All P (x ∷ xs) → Ends P (x ∷ xs)
  Ends-of-All x [] (h, _) = h
  Ends-of-All x (y ∷ xs) (_, h) = Ends-of-All y xs h

  pub All-trim_right : (s : Text) → All P s → All P (trim_right s)
  unfolding trim_right
  All-trim_right [] h = tt
  All-trim_right (c ∷ s) (h, hs) = ground (arith, All-trim_right s hs)

pub Starts-append : (P : ℕ → Type 0) (xs ys : Text) → Starts P xs → Starts P (xs ++ ys)
Starts-append P [] ys h = elim h [ ]
Starts-append P (x ∷ xs) ys h = h

pub Starts-take : (P : ℕ → Type 0) (n : ℕ) (s : Text) → 0 < n → Starts P s → Starts P (take n s)
unfolding take
Starts-take P zero s h st = absurd (omega arith)
Starts-take P (suc n) [] h st = elim st [ ]
Starts-take P (suc n) (c ∷ s) h st = st

pub length-trim_right : (s : Text) → length (trim_right s) ≤ length s
unfolding trim_right
length-trim_right [] = omega arith
length-trim_right (c ∷ s) = ground (arith, length-trim_right s)

-- A letter or a digit is not trimmed.
pub Starts-trim_right : (s : Text) → Starts IsAlnum s → Starts IsAlnum (trim_right s)
unfolding trim_right
Starts-trim_right [] st = elim st [ ]
Starts-trim_right (c ∷ s) st = ground arith

hex_digit-IsAlnum : (d : ℕ) → d < 16 → IsAlnum (Sha1.hex_digit d)
unfolding Sha1.hex_digit
hex_digit-IsAlnum d h = ground arith

hex-IsAlnum : (bytes : Text) → All Sha1.IsByte bytes → All IsAlnum (Sha1.hex bytes)
unfolding Sha1.hex
hex-IsAlnum [] h = tt
hex-IsAlnum (b ∷ bytes) (h, hs) =
    (hex_digit-IsAlnum _ (omega arith), (hex_digit-IsAlnum _ (omega arith), hex-IsAlnum bytes hs))

pub length-hash_str : (name : Text) → length (hash_str name) ≡ 7
unfolding hash_str
length-hash_str name = length-take 7 _ (omega (arith, Sha1.length-hex-sum name))

pub hash_str-IsAlnum : (name : Text) → All IsAlnum (hash_str name)
unfolding hash_str
hash_str-IsAlnum name = All-take IsAlnum 7 _ (hex-IsAlnum _ (Sha1.sum-bytes name))
