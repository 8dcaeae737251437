-- ===== src/ClusterLab/Labels.antt =====
-- The labels of a lab's namespace.
use notebook_operator.Base.{◌≡◌, refl, false, Option, none, some, [], ◌∷◌, arith, if◌then◌else◌}
use notebook_operator.Base.Text.{Text, codes, ◌==◌}
use notebook_operator.Base.Dict.{Dict, lookup, insert, lookup-insert}
use notebook_operator.Base.Writes.{HasDistinctKeys}
use notebook_operator.Utils.Strings.{has_prefix}
use notebook_operator.Kube.Meta.{ObjectMeta}
use notebook_operator.ClusterLab.Provision.{
  is_shared, share_labels, namespace_labels, label_managed_by, label_value_managed_by,
  label_cluster_lab,
}

-- What a label of the namespace becomes: a shared one is the cluster lab's if that has it, the two
-- labels of the operator are set, and any other is kept.
unfoldable pub wanted_label : ObjectMeta → Dict Text → Text → Option Text
wanted_label lab labels k =
    if is_shared k
    then elim (lookup k lab.labels) [ none ↦ lookup k labels | some v ↦ some v ]
    else if label_cluster_lab == k
    then some lab.name
    else if label_managed_by == k
    then some label_value_managed_by
    else lookup k labels

share_labels_lem :
    (lab labels : Dict Text) (k : Text)
    → HasDistinctKeys lab
    → lookup k (share_labels lab labels) ≡ (
        if is_shared k
        then elim (lookup k lab) [ none ↦ lookup k labels | some v ↦ some v ]
        else lookup k labels)
unfolding share_labels lookup
share_labels_lem [] labels k h = ground arith
share_labels_lem ((j, v) ∷ rest) labels k (h, hs) =
    let after = share_labels_lem rest (if is_shared j then insert j v labels else labels) k hs in
    ground (arith, after, lookup-insert j k v labels)

operator_labels_own : (is_shared label_cluster_lab ≡ false) × (is_shared label_managed_by ≡ false)
unfolding has_prefix codes
operator_labels_own = (refl, refl)

-- If the labels of the cluster lab have distinct keys, every label of the namespace is, after the
-- change, what it is wanted to be: shared labels come from the cluster lab, the labels of the operator are set whatever the cluster lab carries, and no other
-- label is lost.
pub namespace_labels_lem :
    (lab : ObjectMeta) (labels : Dict Text) (k : Text)
    → HasDistinctKeys lab.labels
    → lookup k (namespace_labels lab labels) ≡ wanted_label lab labels k
unfolding namespace_labels wanted_label
namespace_labels_lem lab labels k h =
    let own = operator_labels_own in
    let inner = insert label_managed_by label_value_managed_by labels in
    ground (
      arith,
      own.0,
      own.1,
      share_labels_lem lab.labels (insert label_cluster_lab lab.name inner) k h,
      lookup-insert label_cluster_lab k lab.name inner,
      lookup-insert label_managed_by k label_value_managed_by labels,
    )
