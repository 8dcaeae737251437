-- ===== src/Utils/Sha1.antt =====
-- `crypto/sha1`, by FIPS 180-4, over lists of bytes; and `fmt.Sprintf("%x", …)` of a digest.
use Prim.Native.Nat.{bit_and, bit_or, bit_xor}
use notebook_operator.Base.{
  ℕ, zero, suc, ◌+◌, ◌-◌, ◌*◌, ◌/◌, ◌%◌, ◌^◌, ◌<◌, ◌≡◌, refl, List, [], ◌∷◌, ◌++◌, arith, length,
  take, All, ltb, if◌then◌else◌,
}
use notebook_operator.Base.Text.{Text, codes}

-- The five words of the hash value.
record State : Type 0 where
  a : ℕ
  b : ℕ
  c : ℕ
  d : ℕ
  e : ℕ

abbrev initial : State
initial = record { a = 0x67452301; b = 0xefcdab89; c = 0x98badcfe; d = 0x10325476; e = 0xc3d2e1f0 }

add32 : ℕ → ℕ → ℕ
add32 x y = (x + y) % 2 ^ 32

rotate_left : ℕ → ℕ → ℕ
rotate_left n x = x * 2 ^ n % 2 ^ 32 + x / 2 ^ (32 - n)

complement : ℕ → ℕ
complement x = 2 ^ 32 - 1 - x

-- The function and the constant of round `t`.
choose : ℕ → State → ℕ
choose t s =
    if ltb t 20
    then bit_or (bit_and s.b s.c) (bit_and (complement s.b) s.d)
    else if ltb t 40
    then bit_xor s.b (bit_xor s.c s.d)
    else if ltb t 60
    then bit_or (bit_and s.b s.c) (bit_or (bit_and s.b s.d) (bit_and s.c s.d))
    else bit_xor s.b (bit_xor s.c s.d)

constant : ℕ → ℕ
constant t =
    if ltb t 20
    then 0x5a827999
    else if ltb t 40
    then 0x6ed9eba1
    else if ltb t 60
    then 0x8f1bbcdc
    else 0xca62c1d6

round : ℕ → ℕ → State → State
round t w s = record {
  a = add32 (rotate_left 5 s.a) (add32 (choose t s) (add32 s.e (add32 (constant t) w)));
  b = s.a;
  c = rotate_left 30 s.b;
  d = s.c;
  e = s.d;
}

word_at : ℕ → List ℕ → ℕ
word_at n [] = 0
word_at zero (w ∷ ws) = w
word_at (suc n) (w ∷ ws) = word_at n ws

-- The window of the next sixteen words of the message schedule, moved on by one.
advance : List ℕ → List ℕ
advance [] = []
advance (w ∷ ws) =
    ws
    ++ (rotate_left 1 (bit_xor w (bit_xor (word_at 1 ws) (bit_xor (word_at 7 ws) (word_at 12 ws))))
        ∷ [])

rounds : ℕ → ℕ → List ℕ → State → State
rounds zero t ws s = s
rounds (suc left) t ws s = rounds left (t + 1) (advance ws) (round t (word_at 0 ws) s)

block : List ℕ → State → State
block ws s =
    let s' = rounds 80 0 ws s in
    record {
      a = add32 s.a s'.a;
      b = add32 s.b s'.b;
      c = add32 s.c s'.c;
      d = add32 s.d s'.d;
      e = add32 s.e s'.e;
    }

words : List ℕ → List ℕ
words (a ∷ b ∷ c ∷ d ∷ bytes) = (a * 2 ^ 24 + b * 2 ^ 16 + c * 2 ^ 8 + d) ∷ words bytes
words _ = []

drop : ℕ → List ℕ → List ℕ
drop zero xs = xs
drop (suc n) [] = []
drop (suc n) (x ∷ xs) = drop n xs

-- Sixteen words a block. `advance` reads no word beyond the sixteenth.
blocks : ℕ → List ℕ → State → State
blocks zero ws s = s
blocks (suc left) ws s = blocks left (drop 16 ws) (block (take 16 ws) s)

zeros : ℕ → List ℕ
zeros zero = []
zeros (suc n) = 0 ∷ zeros n

-- The bytes of a 32-bit word, the highest first.
be32 : ℕ → Text
be32 w = (w / 2 ^ 24 % 256) ∷ (w / 2 ^ 16 % 256) ∷ (w / 2 ^ 8 % 256) ∷ (w % 256) ∷ []

padded : Text → Text
padded m =
    let n = length m in
    m ++ 0x80 ∷ zeros ((64 + 55 - n % 64) % 64) ++ be32 (n * 8 / 2 ^ 32) ++ be32 (n * 8 % 2 ^ 32)

digest : State → Text
digest s = be32 s.a ++ be32 s.b ++ be32 s.c ++ be32 s.d ++ be32 s.e

-- `sha1.Sum`
unfoldable pub sum : Text → Text
unfolding digest padded be32 blocks block words rounds drop take zeros advance round choose constant
    add32 rotate_left complement word_at
sum m = digest (blocks ((length m + 72) / 64) (words (padded m)) initial)

unfoldable pub hex_digit : ℕ → ℕ
hex_digit d = if ltb d 10 then 48 + d else 87 + d

-- `fmt.Sprintf("%x", bytes)`
unfoldable pub hex : Text → Text
unfolding hex_digit
hex [] = []
hex (b ∷ bytes) = hex_digit (b / 16) ∷ hex_digit (b % 16) ∷ hex bytes

hex_of_abc : hex (sum (codes "abc")) ≡ codes "a9993e364706816aba3e25717850c26c9cd0d89d"
unfolding hex sum codes
hex_of_abc = refl

abbrev pub IsByte : ℕ → Type 0
IsByte b = b < 256

digest-bytes : (s : State) → All IsByte (digest s)
unfolding digest be32
digest-bytes s = omega arith

pub sum-bytes : (m : Text) → All IsByte (sum m)
unfolding sum
sum-bytes m = digest-bytes (blocks ((length m + 72) / 64) (words (padded m)) initial)

length-digest : (s : State) → length (hex (digest s)) ≡ 40
unfolding digest be32 hex
length-digest s = refl

-- The printed digest has forty digits.
pub length-hex-sum : (m : Text) → length (hex (sum m)) ≡ 40
unfolding sum
length-hex-sum m = length-digest (blocks ((length m + 72) / 64) (words (padded m)) initial)
