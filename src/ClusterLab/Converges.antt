-- ===== src/ClusterLab/Converges.antt =====
-- What a second reconciliation makes of the objects of a cluster lab: nothing new.
use notebook_operator.Base.{
  ◌≡◌, refl, ap, ◌∙◌, Bool-cases, inl, inr, true, false, some, [], ◌∷◌, arith,
}
use notebook_operator.Base.Int.{ℤ, pos, ltb_ℤ}
use notebook_operator.Base.Text.{Text, codes, text_dec}
use notebook_operator.Base.Dict.{Dict, lookup, insert}
use notebook_operator.Base.Writes.{HasDistinctKeys, insert-lookup}
use notebook_operator.Utils.Strings.{has_prefix}
use notebook_operator.Kube.Meta.{ObjectMeta}
use notebook_operator.Kube.Objects.{NetworkPolicy}
use notebook_operator.Api.ClusterLab.{ClusterLabQuotaConfig}
use notebook_operator.Client.{Machinery}
use notebook_operator.ClusterLab.Labels.{wanted_label, namespace_labels_lem}
use notebook_operator.ClusterLab.Quota.{limit_of, quota_hard_lem}
use notebook_operator.ClusterLab.Provision.{
  is_shared, share_labels, namespace_labels, set_both, set_count, set_storage, quota_hard,
  lab_policy, label_managed_by, label_value_managed_by, label_cluster_lab,
}

-- The shared labels.
share_labels_kept :
    (lab d : Dict Text)
    → HasDistinctKeys lab
    → ((k v : Text) → lookup k lab ≡ some v → is_shared k ≡ true → lookup k d ≡ some v)
    → share_labels lab d ≡ d
unfolding share_labels lookup
share_labels_kept [] d h kept = refl
share_labels_kept ((j, v) ∷ rest) d (h, hs) kept =
    let tail =
      share_labels_kept rest d hs (λ k u found shared. kept k u (later k u found) shared) in
    elim (Bool-cases (is_shared j)) [
      | inl b ↦ rw (b, insert-lookup j v d (kept j v here b)) tail
      | inr b ↦ rw b tail
    ]
  where
    here : lookup j ((j, v) ∷ rest) ≡ some v
    here = ground arith

    later : (k u : Text) → lookup k rest ≡ some u → lookup k ((j, v) ∷ rest) ≡ some u
    later k u found = ground arith

operator_labels_wanted :
    (lab : ObjectMeta) (labels : Dict Text)
    → (wanted_label lab labels label_managed_by ≡ some label_value_managed_by)
      × (wanted_label lab labels label_cluster_lab ≡ some lab.name)
unfolding wanted_label has_prefix codes text_dec
operator_labels_wanted lab labels = (refl, refl)

shared_wanted :
    (lab : ObjectMeta) (labels : Dict Text) (k v : Text)
    → lookup k lab.labels ≡ some v
    → is_shared k ≡ true
    → wanted_label lab labels k ≡ some v
unfolding wanted_label
shared_wanted lab labels k v found shared = rw (shared, found)

namespace_labels_twice :
    (lab : ObjectMeta) (labels : Dict Text)
    → HasDistinctKeys lab.labels
    → namespace_labels lab (namespace_labels lab labels) ≡ namespace_labels lab labels
unfolding namespace_labels
namespace_labels_twice lab labels h =
    let d = namespace_labels lab labels in
    let managed : insert label_managed_by label_value_managed_by d ≡ d =
      insert-lookup label_managed_by label_value_managed_by d (
        namespace_labels_lem lab labels label_managed_by h
        ∙ (operator_labels_wanted lab labels).0) in
    let owned : insert label_cluster_lab lab.name d ≡ d =
      insert-lookup label_cluster_lab lab.name d (
        namespace_labels_lem lab labels label_cluster_lab h
        ∙ (operator_labels_wanted lab labels).1) in
    ap (λ e. share_labels lab.labels (insert label_cluster_lab lab.name e)) managed
    ∙ ap (share_labels lab.labels) owned
    ∙ share_labels_kept lab.labels d h (λ k v found shared.
      namespace_labels_lem lab labels k h ∙ shared_wanted lab labels k v found shared)

module _ (M : Machinery) where
  set_both_kept :
      (l r : Text) (q : M.Quantity) (d : Dict M.Quantity)
      → (M.is_zero q ≡ false → (lookup l d ≡ some q) × (lookup r d ≡ some q))
      → set_both M l r q d ≡ d
  unfolding set_both
  set_both_kept l r q d h = elim (Bool-cases (M.is_zero q)) [
    | inl b ↦ rw b
    | inr b ↦ rw b (ap (insert r q) (insert-lookup l q d (h b).0) ∙ insert-lookup r q d (h b).1)
  ]

  set_count_kept :
      (k : Text) (n : ℤ) (d : Dict M.Quantity)
      → (ltb_ℤ (pos 0) n ≡ true → lookup k d ≡ some (M.new_quantity n))
      → set_count M k n d ≡ d
  unfolding set_count
  set_count_kept k n d h = elim (Bool-cases (ltb_ℤ (pos 0) n)) [
    | inl b ↦ rw b (insert-lookup k (M.new_quantity n) d (h b))
    | inr b ↦ rw b
  ]

  set_storage_kept :
      (q : M.Quantity) (d : Dict M.Quantity)
      → (M.is_zero q ≡ false → lookup (codes "limits.ephemeral-storage") d ≡ some q)
      → set_storage M q d ≡ d
  unfolding set_storage
  set_storage_kept q d h = elim (Bool-cases (M.is_zero q)) [
    | inl b ↦ rw b
    | inr b ↦ rw b (insert-lookup _ q d (h b))
  ]

  module _ (quota : ClusterLabQuotaConfig M.Quantity) (hard : Dict M.Quantity) where
    abbrev once : Dict M.Quantity
    once = quota_hard M quota hard

    -- A limit that the cluster lab asks for is in the quota.
    asked : (k : Text) (q : M.Quantity) → limit_of M quota k ≡ some q → lookup k once ≡ some q
    asked k q h = quota_hard_lem M quota hard k ∙ rw h

    quota_hard_twice : quota_hard M quota once ≡ once
    unfolding quota_hard limit_of text_dec codes
    quota_hard_twice =
        let c = quota.compute in
        let cpu : set_both M (codes "limits.cpu") (codes "requests.cpu") c.cpu.limit once ≡ once =
          set_both_kept _ _ c.cpu.limit once (λ z. (asked _ _ (rw z), asked _ _ (rw z))) in
        let memory : set_both M (codes "limits.memory") (codes "requests.memory") c.memory.limit
              once
            ≡ once =
          set_both_kept _ _ c.memory.limit once (λ z. (asked _ _ (rw z), asked _ _ (rw z))) in
        let pods : set_count M (codes "pods") quota.objects.pods_limit once ≡ once =
          set_count_kept _ _ once (λ z. asked _ _ (rw z)) in
        let services : set_count M (codes "services") quota.objects.services_limit once ≡ once =
          set_count_kept _ _ once (λ z. asked _ _ (rw z)) in
        let storage : set_storage M quota.storage.limit once ≡ once =
          set_storage_kept _ once (λ z. asked _ _ (rw z)) in
        rw (cpu, memory, pods, services, storage)

    -- What the functions given to CreateOrUpdate make of the labels of the namespace, of the quota and
    -- of the network policy of a cluster lab they leave as it is when they are applied again, whatever
    -- was there before, if the labels of the cluster lab have distinct keys.
    pub lab_objects_converge :
        (lab : ObjectMeta) (labels : Dict Text) (type : Text) (netpol : NetworkPolicy)
        → HasDistinctKeys lab.labels
        → (namespace_labels lab (namespace_labels lab labels) ≡ namespace_labels lab labels)
          × (quota_hard M quota (quota_hard M quota hard) ≡ quota_hard M quota hard)
          × (lab_policy type (lab_policy type netpol) ≡ lab_policy type netpol)
    unfolding lab_policy
    lab_objects_converge lab labels type netpol h =
        (namespace_labels_twice lab labels h, quota_hard_twice, refl)
