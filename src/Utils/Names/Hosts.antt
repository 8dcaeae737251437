-- ===== src/Utils/Names/Hosts.antt =====
-- The host name under which an instance is reached.
use notebook_operator.Base.{
  ℕ, ◌+◌, ◌≤◌, ◌≡◌, inl, inr, refl, ◌⊎◌, ◌<◌, Bool-cases, leb, leb→le, leb-false, [], ◌∷◌, ◌++◌,
  All, All-append, length, length-append, if◌then◌else◌, arith,
}
use notebook_operator.Base.Text.{Text, codes}
use notebook_operator.Utils.Strings.{to_lower, is_empty}
use notebook_operator.Utils.Names.{sanitize_name, generate_ingress_host}
use notebook_operator.Utils.Names.Bytes.{
  IsAlnum, IsLabelByte, Starts, Ends, Starts-append, Ends-append,
}
use notebook_operator.Utils.Names.Labels.{IsDnsLabel, sanitize_name-IsDnsLabel}

-- Lower case is kept.
to_lower-label : (s : Text) → All IsLabelByte s → to_lower s ≡ s
unfolding to_lower
to_lower-label [] h = refl
to_lower-label (c ∷ s) (h, hs) = ground (arith, to_lower-label s hs)

sanitize_name-short : (name : Text) (m : ℕ) → length name ≤ m → sanitize_name name m ≡ name
unfolding sanitize_name
sanitize_name-short name m h = ground arith

ℕ_order : (a b : ℕ) → (a < b) ⊎ (b ≤ a)
ℕ_order a b = elim (Bool-cases (leb b a)) [
  | inl le ↦ inr (leb→le b a le)
  | inr gt ↦ inl (leb-false b a gt)
]

module _ (inst cluster : Text) where
  abbrev joined : Text
  joined = inst ++ codes "-" ++ cluster

  length-joined : length joined ≡ length inst + length cluster + 1
  unfolding codes
  length-joined =
      omega (arith, length-append (inst ++ codes "-") cluster, length-append inst (codes "-"))

  -- If the names of an instance and of a cluster lab are made of lower-case letters, digits and
  -- dashes, and the first starts and the second ends with a letter or digit, then the host name is
  -- one DNS label of at most 63 bytes before the domain, or before lab.toiyeuptit.com if the
  -- domain is empty; and the label is the two names with a dash between them, if together they
  -- have at most 62 bytes.
  pub generate_ingress_host_lem :
      (domain : Text)
      → All IsLabelByte inst
      → Starts IsAlnum inst
      → All IsLabelByte cluster
      → Ends IsAlnum cluster
      → (label : Text) × IsDnsLabel label
        × (length label ≤ 63)
        × (generate_ingress_host inst cluster domain
            ≡ label
              ++ codes "."
              ++ (if is_empty domain then codes "lab.toiyeuptit.com" else domain))
        × ((label ≡ inst ++ codes "-" ++ cluster) ⊎ (62 < length inst + length cluster))
  unfolding generate_ingress_host codes
  generate_ingress_host_lem domain bytes start bytes' end =
      let all : All IsLabelByte joined =
        All-append IsLabelByte (inst ++ codes "-") cluster
          (All-append IsLabelByte inst (codes "-") bytes (inr refl, tt)) bytes' in
      let (is_label, fits) =
        sanitize_name-IsDnsLabel joined 63 (omega arith) (omega arith) all
          (Starts-append IsAlnum (inst ++ codes "-") cluster
            (Starts-append IsAlnum inst (codes "-") start))
          (Ends-append IsAlnum (inst ++ codes "-") cluster end) in
      (
        sanitize_name joined 63,
        is_label,
        fits,
        rw (to_lower-label joined all),
        elim (ℕ_order 62 (length inst + length cluster)) [
          | inl long ↦ inr long
          | inr short ↦ inl (sanitize_name-short joined 63 (omega (arith, length-joined)))
        ],
      )
