-- ===== src/Tests/Statuses.antt =====
-- The client in memory stores what it is told of cluster labs.
use notebook_operator.Base.{
  ℕ, ◌≡◌, ◌⊎◌, refl, sym, ◌∙◌, subst, All, inl, inr, Option-cases, Bool-cases, none, List, [], ◌∷◌,
  if◌then◌else◌,
}
use notebook_operator.Exec.{ok}
use notebook_operator.Kube.Meta.{NamespacedName}
use notebook_operator.Api.ClusterLab.{ClusterLab}
use notebook_operator.Client.{clusterlab, key_of}
use notebook_operator.Client.Memory.{overwrite, delete, found}
use notebook_operator.Client.Memory.Lawful.{memory-IsLawful}
use notebook_operator.Client.Tables.{
  Tables, find, find-cons_self, find-remove, same_key, remove, replace, replace_self, same_or_Apart,
}
use notebook_operator.System.Owned.{Alike, TellsStatus}
use notebook_operator.Tests.Fixtures.{client}

-- What a write of `o` leaves under a key.
abbrev Stems : ClusterLab ℕ → NamespacedName → ClusterLab ℕ → Tables ℕ → Type 0
Stems o key x w =
    Alike x o ⊎ ((y : ClusterLab ℕ) × (client.get clusterlab key w ≡ ok y) × Alike x y)

written :
    (o x : ClusterLab ℕ) (w : Tables ℕ)
    → client.get clusterlab (key_of ℕ clusterlab o) (client.update clusterlab o w).1 ≡ ok x
    → Stems o (key_of ℕ clusterlab o) x w
unfolding overwrite
written o x w h = elim (Option-cases (find (key_of ℕ clusterlab o) (w clusterlab))) [
  | inl e ↦ inr (x, rw (e, overwrite) at h, (refl, refl))
  | inr (old, e) ↦
      let key = key_of ℕ clusterlab o in
      let t = remove key (w clusterlab) in
      let g : found ℕ (find key (replace ℕ clusterlab ((key, o) ∷ t) w clusterlab)) ≡ ok x =
        rw (e, overwrite) at h in
      let g' : found ℕ (find key ((key, o) ∷ t)) ≡ ok x =
        rw (replace_self ℕ clusterlab ((key, o) ∷ t) w) at g in
      let q : ok o ≡ ok x = rw (find-cons_self key o t) at g' in
      let same : o ≡ x = cc in inl (rw (← same) (refl, refl))
]

update_stems :
    (o : ClusterLab ℕ) (key : NamespacedName) (x : ClusterLab ℕ) (w : Tables ℕ)
    → client.get clusterlab key (client.update clusterlab o w).1 ≡ ok x
    → Stems o key x w
update_stems o key x w h = elim (same_or_Apart clusterlab clusterlab (key_of ℕ clusterlab o) key) [
  | inr apart ↦ inr (
    x,
    sym ((memory-IsLawful ℕ).get-update_ne clusterlab clusterlab o key w apart) ∙ h,
    (refl, refl),
  )
  | inl (k, q) ↦
      subst (λ i. client.get clusterlab i (client.update clusterlab o w).1 ≡ ok x → Stems o i x w) q
        (written o x w) h
]

-- What is left after a deletion was there.
abbrev Left : NamespacedName → ClusterLab ℕ → Tables ℕ → Type 0
Left key x w = (y : ClusterLab ℕ) × (client.get clusterlab key w ≡ ok y) × Alike x y

removed :
    (o x : ClusterLab ℕ) (w : Tables ℕ)
    → client.get clusterlab (key_of ℕ clusterlab o) (client.delete clusterlab o w).1 ≡ ok x
    → Left (key_of ℕ clusterlab o) x w
unfolding delete
removed o x w h = elim (Option-cases (find (key_of ℕ clusterlab o) (w clusterlab))) [
  | inl e ↦ (x, rw (e, delete) at h, (refl, refl))
  | inr (old, e) ↦
      let key = key_of ℕ clusterlab o in
      let t = w clusterlab in
      let g : found ℕ (find key (replace ℕ clusterlab (remove key t) w clusterlab)) ≡ ok x =
        rw (e, delete) at h in
      let g' : found ℕ (find key (remove key t)) ≡ ok x =
        rw (replace_self ℕ clusterlab (remove key t) w) at g in
      let g'' : found ℕ (if same_key key key then none else find key t) ≡ ok x =
        rw (find-remove key key t) at g' in
      elim (Bool-cases (same_key key key)) [
        | inl b ↦ let no_such : found ℕ none ≡ ok x = rw b at g'' in cc
        | inr b ↦ (x, rw b at g'', (refl, refl))
      ]
]

delete_stems :
    (o : ClusterLab ℕ) (key : NamespacedName) (x : ClusterLab ℕ) (w : Tables ℕ)
    → client.get clusterlab key (client.delete clusterlab o w).1 ≡ ok x
    → Left key x w
delete_stems o key x w h = elim (same_or_Apart clusterlab clusterlab (key_of ℕ clusterlab o) key) [
  | inr apart ↦ (
    x,
    sym ((memory-IsLawful ℕ).get-delete_ne clusterlab clusterlab o key w apart) ∙ h,
    (refl, refl),
  )
  | inl (k, q) ↦
      subst (λ i. client.get clusterlab i (client.delete clusterlab o w).1 ≡ ok x → Left i x w) q
        (removed o x w) h
]

pub memory-TellsStatus : TellsStatus client
memory-TellsStatus = record {
  updated = update_stems;
  status_updated = update_stems;
  deleted = delete_stems;
}

module _ (P : ClusterLab ℕ → Type 0) where
  abbrev pub Each : List (NamespacedName × ClusterLab ℕ) → Type 0
  Each t = All (λ (e : NamespacedName × ClusterLab ℕ). P e.1) t

  pub find-Each :
      (key : NamespacedName) (t : List (NamespacedName × ClusterLab ℕ)) (x : ClusterLab ℕ)
      → Each t
      → found ℕ (find key t) ≡ ok x
      → P x
  unfolding find
  find-Each key [] x each h = cc
  find-Each key ((j, y) ∷ t) x (good, each) h = elim (Bool-cases (same_key j key)) [
    | inl b ↦ let e : ok y ≡ ok x = rw (b, find) at h in subst P (cc) good
    | inr b ↦ find-Each key t x each (rw (b, find) at h)
  ]
