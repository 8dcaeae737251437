-- ===== src/InstanceLab/Mounts.antt =====
-- The volumes and mounts of an instance's pod, for any order of the map that they come from.
use mathlib.Core.HLevel.{⊥_prop}
use mathlib.Core.Bool.{false≢true}
use mathlib.Core.Logic.{∥∥₁_elim}
use mathlib.Core.List.{Nodup, Nodup-cons, Nodup-nil, Mem, mem-cons, not-mem-nil, Perm}
use mathlib.Core.List.Perm
use notebook_operator.Base.{
  ◌≡◌, ◌≢◌, refl, Bool, true, false, ◌&&◌, not, Option, none, some, List, [], ◌∷◌, ◌++◌, map, arith,
  inl, inr,
}
use notebook_operator.Base.Text.{Text, codes, ◌==◌, text_dec}
use notebook_operator.Kube.Objects.{PersistentVolumeClaim}
use notebook_operator.Kube.Pod.{Volume, VolumeMount}
use notebook_operator.InstanceLab.Pod.{
  lxcfs_mounts, mqueue_volume, lxcfs_volume, claim_volumes, sysbox_volumes, mqueue_mount,
  lxcfs_mount, claim_mounts, sysbox_mounts,
}

abbrev absent : Text → List Text → Bool
absent x [] = true
absent x (y ∷ ys) = not (x == y) && absent x ys

abbrev all_distinct : List Text → Bool
all_distinct [] = true
all_distinct (x ∷ xs) = absent x xs && all_distinct xs

absent-split :
    (x y : Text) (ys : List Text)
    → not (x == y) && absent x ys ≡ true
    → (x ≢ y) × (absent x ys ≡ true)
absent-split x y ys h = (ground arith, ground arith)

both : (a b : Bool) → a && b ≡ true → (a ≡ true) × (b ≡ true)
both true b h = (refl, h)
both false b h = (h, absurd (false≢true h))

absent-Mem : (x : Text) (ys : List Text) → absent x ys ≡ true → ¬ Mem x ys
absent-Mem x [] h m = not-mem-nil m
absent-Mem x (y ∷ ys) h m =
    let (ne, rest) = absent-split x y ys h in
    ∥∥₁_elim (mem-cons.0 m) ⊥_prop (λ s. elim s [ inl e ↦ ne e | inr n ↦ absent-Mem x ys rest n ])

all_distinct-Nodup : (xs : List Text) → all_distinct xs ≡ true → Nodup xs
all_distinct-Nodup [] h = Nodup-nil
all_distinct-Nodup (x ∷ xs) h =
    let (p, q) = both (absent x xs) (all_distinct xs) h in
    Nodup-cons.1 (absent-Mem x xs p, all_distinct-Nodup xs q)

abbrev pub volume_names : {Quantity : Type 0} → List (Volume Quantity) → List Text
volume_names {Quantity} vs = map (λ (v : Volume Quantity). v.name) vs

abbrev pub mount_names : List VolumeMount → List Text
mount_names ms = map (λ (m : VolumeMount). m.name) ms

abbrev pub mount_paths : List VolumeMount → List Text
mount_paths ms = map (λ (m : VolumeMount). m.mount_path) ms

module _ {Quantity : Type 0} (claim : Option (PersistentVolumeClaim Quantity)) where
  names_distinct : Nodup (volume_names (sysbox_volumes lxcfs_mounts claim))
  unfolding sysbox_volumes lxcfs_volume claim_volumes text_dec codes
  names_distinct = elim claim as (λ o. Nodup (volume_names (sysbox_volumes lxcfs_mounts o))) [
    | none ↦ all_distinct-Nodup _ refl
    | some c ↦ all_distinct-Nodup _ refl
  ]

  paths_distinct : Nodup (mount_paths (sysbox_mounts lxcfs_mounts claim))
  unfolding sysbox_mounts lxcfs_mount claim_mounts text_dec codes
  paths_distinct = elim claim as (λ o. Nodup (mount_paths (sysbox_mounts lxcfs_mounts o))) [
    | none ↦ all_distinct-Nodup _ refl
    | some c ↦ all_distinct-Nodup _ refl
  ]

  sysbox_volumes-Perm :
      (entries : List (Text × Text))
      → Perm entries lxcfs_mounts
      → Perm (sysbox_volumes entries claim) (sysbox_volumes lxcfs_mounts claim)
  unfolding sysbox_volumes
  sysbox_volumes-Perm entries p =
      Perm.cons mqueue_volume (Perm.append_right (claim_volumes claim) (Perm.map lxcfs_volume p))

  sysbox_mounts-Perm :
      (entries : List (Text × Text))
      → Perm entries lxcfs_mounts
      → Perm (sysbox_mounts entries claim) (sysbox_mounts lxcfs_mounts claim)
  unfolding sysbox_mounts
  sysbox_mounts-Perm entries p =
      Perm.cons mqueue_mount (Perm.append_right (claim_mounts claim) (Perm.map lxcfs_mount p))

  claim_named : mount_names (claim_mounts claim) ≡ volume_names (claim_volumes claim)
  unfolding claim_mounts claim_volumes
  claim_named = elim claim as (λ o. mount_names (claim_mounts o) ≡ volume_names (claim_volumes o)) [
    | none ↦ refl
    | some c ↦ refl
  ]

  rest_named :
      (entries : List (Text × Text))
      → mount_names (map lxcfs_mount entries ++ claim_mounts claim)
        ≡ volume_names (map lxcfs_volume entries ++ claim_volumes claim)
  unfolding lxcfs_mount lxcfs_volume
  rest_named [] = claim_named
  rest_named (e ∷ entries) = cc (rest_named entries)

  mounts_named :
      (entries : List (Text × Text))
      → mount_names (sysbox_mounts entries claim) ≡ volume_names (sysbox_volumes entries claim)
  unfolding sysbox_mounts sysbox_volumes
  mounts_named entries = cc (rest_named entries)

  -- In whatever order Go walks the map of mounts, the pod of an instance has the same volumes and
  -- mounts up to their order, each mount has the name of the volume at its position, no two volumes
  -- have one name, and no two mounts have one path, as Kubernetes asks of a pod; with the workspace
  -- claim and without it.
  pub sysbox_mounts-AnyOrder :
      (entries : List (Text × Text))
      → Perm entries lxcfs_mounts
      → Perm (sysbox_volumes entries claim) (sysbox_volumes lxcfs_mounts claim)
        × Perm (sysbox_mounts entries claim) (sysbox_mounts lxcfs_mounts claim)
        × (mount_names (sysbox_mounts entries claim) ≡ volume_names (sysbox_volumes entries claim))
        × Nodup (volume_names (sysbox_volumes entries claim))
        × Nodup (mount_paths (sysbox_mounts entries claim))
  sysbox_mounts-AnyOrder entries p =
      let q = sysbox_volumes-Perm entries p in
      let r = sysbox_mounts-Perm entries p in
      (
        q,
        r,
        mounts_named entries,
        Perm.nodup (Perm.symm (Perm.map (λ (v : Volume Quantity). v.name) q)) names_distinct,
        Perm.nodup (Perm.symm (Perm.map (λ (m : VolumeMount). m.mount_path) r)) paths_distinct,
      )
