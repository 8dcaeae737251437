-- ===== src/Utils/Names/Labels.antt =====
-- What the generated names promise.
use native.Mathlib.Nat.{le_trans}
use notebook_operator.Base.{
  ℕ, ◌-◌, ◌≤◌, ◌<◌, ◌≡◌, refl, sym, ◌∙◌, inl, inr, [], ◌∷◌, ◌++◌, arith, length, length-append,
  take, length-take, All, All-append, All-take, leb, Bool-cases, leb→le, leb-false,
}
use notebook_operator.Base.Text.{Text, codes}
use notebook_operator.Utils.Strings.{trim_right}
use notebook_operator.Utils.Names.Defs.{hash_str, sanitize_name, generate_target_namespace}
use notebook_operator.Utils.Names.Bytes.{
  IsAlnum, IsLabelByte, Starts, Ends, Ends-append, Ends-of-All, All-trim_right, Starts-append,
  Starts-take, length-trim_right, Starts-trim_right, length-hash_str, hash_str-IsAlnum,
}

-- A label of RFC 1123.
pub record IsDnsLabel (name : Text) : Type 0 where
  pub starts : Starts IsAlnum name
  pub ends : Ends IsAlnum name
  pub bytes : All IsLabelByte name
  pub short : length name ≤ 63

-- The three branches of `sanitize_name`.
sanitize_kept : (name : Text) (m : ℕ) → length name ≤ m → sanitize_name name m ≡ name
unfolding sanitize_name
sanitize_kept name m h = ground arith

sanitize_cut :
    (name : Text) (m : ℕ)
    → m < length name
    → 8 < m
    → sanitize_name name m ≡ trim_right (take (m - 8) name) ++ b'-' ∷ hash_str name
unfolding sanitize_name
sanitize_cut name m h k = ground arith

sanitize_hashed :
    (name : Text) (m : ℕ) → m < length name → m ≤ 8 → sanitize_name name m ≡ hash_str name
unfolding sanitize_name
sanitize_hashed name m h k = ground arith

length-cut :
    (name : Text) (m : ℕ)
    → m < length name
    → 8 < m
    → length (trim_right (take (m - 8) name) ++ b'-' ∷ hash_str name) ≤ m
length-cut name m h k = omega (
  arith,
  length-append (trim_right (take (m - 8) name)) (b'-' ∷ hash_str name),
  length-trim_right (take (m - 8) name),
  length-take (m - 8) name (omega arith),
  length-hash_str name,
)

-- For every bound of at least 7, the sanitized name has at most that many bytes.
pub length-sanitize_name : (name : Text) (m : ℕ) → 7 ≤ m → length (sanitize_name name m) ≤ m
length-sanitize_name name m h = elim (Bool-cases (leb (length name) m)) [
  | inl short ↦ rw (sanitize_kept name m (leb→le _ _ short)) (leb→le _ _ short)
  | inr long ↦ elim (Bool-cases (leb m 8)) [
    | inl small ↦
        rw (sanitize_hashed name m (leb-false _ _ long) (leb→le _ _ small))
          (omega (arith, length-hash_str name))
    | inr large ↦
        rw (sanitize_cut name m (leb-false _ _ long) (leb-false _ _ large))
          (length-cut name m (leb-false _ _ long) (leb-false _ _ large))
  ]
]

alnum_is_label : (s : Text) → All IsAlnum s → All IsLabelByte s
alnum_is_label [] h = tt
alnum_is_label (c ∷ s) (h, hs) = (inl h, alnum_is_label s hs)

Ends-hash : (c : ℕ) (s : Text) → All IsAlnum s → length s ≡ 7 → Ends IsAlnum (c ∷ s)
Ends-hash c [] h e = absurd (omega arith)
Ends-hash c (d ∷ s) h e = Ends-of-All IsAlnum d s h

cut-IsDnsLabel :
    (name : Text) (m : ℕ)
    → m < length name
    → 8 < m
    → m ≤ 63
    → All IsLabelByte name
    → Starts IsAlnum name
    → IsDnsLabel (trim_right (take (m - 8) name) ++ b'-' ∷ hash_str name)
cut-IsDnsLabel name m h k top bytes st = record {
  starts =
      Starts-append IsAlnum (trim_right (take (m - 8) name)) _
        (Starts-trim_right (take (m - 8) name) (Starts-take IsAlnum (m - 8) name (omega arith) st));
  ends =
      Ends-append IsAlnum (trim_right (take (m - 8) name)) _
        (Ends-hash b'-' (hash_str name) (hash_str-IsAlnum name) (length-hash_str name));
  bytes =
      All-append IsLabelByte (trim_right (take (m - 8) name)) _
        (All-trim_right IsLabelByte _ (All-take IsLabelByte (m - 8) name bytes))
        (inr refl, alnum_is_label (hash_str name) (hash_str-IsAlnum name));
  short = le_trans (length-cut name m h k) top;
}

label_of_name :
    (name : Text) (m : ℕ)
    → 8 < m
    → m ≤ 63
    → All IsLabelByte name
    → Starts IsAlnum name
    → Ends IsAlnum name
    → IsDnsLabel (sanitize_name name m)
label_of_name name m k top bytes st en = elim (Bool-cases (leb (length name) m)) [
  | inl short ↦
      rw (sanitize_kept name m (leb→le _ _ short))
        (record { starts = st; ends = en; bytes = bytes; short = le_trans (leb→le _ _ short) top })
  | inr long ↦
      rw (sanitize_cut name m (leb-false _ _ long) k)
        (cut-IsDnsLabel name m (leb-false _ _ long) k top bytes st)
]

-- A name of any length that is made of lower-case letters, digits and dashes, and that starts and
-- ends with a letter or digit, is sanitized to a DNS label of at most `m` bytes, for every bound `m`
-- from 9 to 63.
pub sanitize_name-IsDnsLabel :
    (name : Text) (m : ℕ)
    → 8 < m
    → m ≤ 63
    → All IsLabelByte name
    → Starts IsAlnum name
    → Ends IsAlnum name
    → IsDnsLabel (sanitize_name name m) × (length (sanitize_name name m) ≤ m)
sanitize_name-IsDnsLabel name m k top bytes st en =
    (label_of_name name m k top bytes st en, length-sanitize_name name m (omega arith))

-- The target namespace of a cluster whose name is made of lower-case letters, digits and dashes and
-- ends with a letter or digit is a DNS label, however long the name is.
pub generate_target_namespace-IsDnsLabel :
    (name : Text)
    → All IsLabelByte name
    → Ends IsAlnum name
    → IsDnsLabel (generate_target_namespace name)
unfolding generate_target_namespace codes
generate_target_namespace-IsDnsLabel name bytes en =
    label_of_name (codes "lab-" ++ name) 63 (omega arith) (omega arith)
      (omega arith, (omega arith, (omega arith, (omega arith, bytes)))) (omega arith)
      (Ends-append IsAlnum (codes "lab-") name en)

short_target :
    (name : Text) → length name ≤ 59 → generate_target_namespace name ≡ codes "lab-" ++ name
unfolding generate_target_namespace codes
short_target name h = sanitize_kept (codes "lab-" ++ name) 63 (omega arith)

-- Two cluster names of at most 59 bytes have the same target namespace only if they are the same.
pub generate_target_namespace_injective :
    (a b : Text)
    → length a ≤ 59
    → length b ≤ 59
    → generate_target_namespace a ≡ generate_target_namespace b
    → a ≡ b
unfolding codes
generate_target_namespace_injective a b ha hb e =
    cc (sym (short_target a ha) ∙ e ∙ short_target b hb)

not-All_dotted : (a b : Text) → ¬ All IsLabelByte (a ++ b'.' ∷ b)
not-All_dotted [] b (h, _) = omega arith
not-All_dotted (c ∷ a) b (_, h) = not-All_dotted a b h

-- A cluster name with a dot, which Kubernetes accepts as the name of a custom resource, and of at
-- most 59 bytes, has a target namespace that is no DNS label.
pub generate_target_namespace_dotted :
    (a b : Text)
    → length (a ++ b'.' ∷ b) ≤ 59
    → ¬ IsDnsLabel (generate_target_namespace (a ++ b'.' ∷ b))
unfolding codes
generate_target_namespace_dotted a b h label =
    not-All_dotted (codes "lab-" ++ a) b ((rw (short_target (a ++ b'.' ∷ b) h) at label).bytes)
