-- ===== src/ClusterLab/Provision.antt =====
-- The namespace, the quota and the network policy of a cluster lab: `reconcileNamespace`,
-- `reconcileResourceQuota` and `reconcileNetworkPolicy` of internal/controller/clusterlab_controller.go.
-- A function given to `CreateOrUpdate` changes the object that it is applied to.
use notebook_operator.Base.{Bool, ◌||◌, some, List, [], ◌∷◌, if◌then◌else◌}
use notebook_operator.Base.Int.{ℤ, pos, ltb_ℤ}
use notebook_operator.Base.Text.{Text, codes, ◌==◌}
use notebook_operator.Base.Dict.{Dict, insert}
use notebook_operator.Utils.Strings.{to_lower, has_prefix}
use notebook_operator.Exec.{Exec, pure, ◌>>◌}
use notebook_operator.Kube.Meta.{ObjectMeta}
use notebook_operator.Kube.Objects.{
  Namespace, ResourceQuota, NetworkPolicy, NetworkPolicyIngressRule,
}
use notebook_operator.Api.ClusterLab.{ClusterLab, ClusterLabQuotaConfig}
use notebook_operator.Client.{Client, Machinery, namespace, resource_quota, network_policy}
use notebook_operator.Notebook.Children.{new_metadata}

abbrev pub label_managed_by : Text
label_managed_by = codes "app.kubernetes.io/managed-by"

abbrev pub label_value_managed_by : Text
label_value_managed_by = codes "typ-lab-operator"

abbrev pub label_cluster_lab : Text
label_cluster_lab = codes "lab.devops.toiyeuptit.com/clusterlab"

-- The test for a label that the namespace takes over.
abbrev pub is_shared : Text → Bool
is_shared k =
    has_prefix k (codes "student_")
    || has_prefix k (codes "lab_")
    || has_prefix k (codes "session_")

unfoldable pub share_labels : Dict Text → Dict Text → Dict Text
share_labels [] labels = labels
share_labels ((k, v) ∷ rest) labels =
    share_labels rest (if is_shared k then insert k v labels else labels)

unfoldable pub namespace_labels : ObjectMeta → Dict Text → Dict Text
unfolding share_labels
namespace_labels lab labels =
    share_labels lab.labels
      (insert label_cluster_lab lab.name (insert label_managed_by label_value_managed_by labels))

-- quota.Spec.Hard[resource] = amount
module _ (M : Machinery) where
  -- An amount under two names, or none if it is zero.
  unfoldable pub set_both : Text → Text → M.Quantity → Dict M.Quantity → Dict M.Quantity
  set_both limits requests q hard =
      if M.is_zero q then hard else insert requests q (insert limits q hard)

  unfoldable pub set_count : Text → ℤ → Dict M.Quantity → Dict M.Quantity
  set_count resource n hard =
      if ltb_ℤ (pos 0) n then insert resource (M.new_quantity n) hard else hard

  unfoldable pub set_storage : M.Quantity → Dict M.Quantity → Dict M.Quantity
  set_storage q hard =
      if M.is_zero q then hard else insert (codes "limits.ephemeral-storage") q hard

  unfoldable pub quota_hard : ClusterLabQuotaConfig M.Quantity → Dict M.Quantity → Dict M.Quantity
  unfolding set_both set_count set_storage
  quota_hard quota hard = set_storage quota.storage.limit (
      set_count (codes "services") quota.objects.services_limit (
        set_count (codes "pods") quota.objects.pods_limit (
          set_both (codes "limits.memory") (codes "requests.memory") quota.compute.memory.limit
            (set_both (codes "limits.cpu") (codes "requests.cpu") quota.compute.cpu.limit hard))))

-- The rule of `internal`: every pod of the namespace.
abbrev pub internal_rule : NetworkPolicyIngressRule
internal_rule = record { from = record { pod_selector = some (record { match_labels = [] }) } ∷ [] }

unfoldable pub ingress_rules : Text → List NetworkPolicyIngressRule
ingress_rules type =
    if to_lower type == codes "isolate"
    then []
    else if to_lower type == codes "internal"
    then internal_rule ∷ []
    else if to_lower type == codes "external"
    then record { from = [] } ∷ []
    else []

unfoldable pub lab_policy : Text → NetworkPolicy → NetworkPolicy
unfolding ingress_rules
lab_policy type netpol = record netpol {
  spec = record {
    pod_selector = record { match_labels = [] };
    policy_types = codes "Ingress" ∷ [];
    ingress = ingress_rules type;
  };
}

abbrev pub quota_name : Text
quota_name = codes "lab-resource-quota"

module _ (M : Machinery) (C : Client M.Quantity) (lab : ClusterLab M.Quantity)
    (ns_name : Text) where
  unfoldable pub reconcile_namespace : Exec C.World (Unit {0})
  reconcile_namespace = do
    let ns : Namespace = record { metadata = new_metadata ns_name [] [] }
    C.create_or_update namespace ns (λ n. record n {
      metadata = record n.metadata { labels = namespace_labels lab.metadata n.metadata.labels };
    })
    pure tt

  unfoldable pub reconcile_resource_quota : Exec C.World (Unit {0})
  reconcile_resource_quota = do
    let quota : ResourceQuota M.Quantity = record {
      metadata = new_metadata quota_name ns_name [];
      hard = [];
      used = [];
    }
    C.create_or_update resource_quota quota
        (λ q. record q { hard = quota_hard M lab.spec.quota q.hard })
    pure tt

  unfoldable pub reconcile_network_policy : Exec C.World (Unit {0})
  reconcile_network_policy = do
    let netpol : NetworkPolicy = record {
      metadata = new_metadata (codes "lab-network-policy") ns_name [];
      spec = record {
        pod_selector = record { match_labels = [] };
        policy_types = [];
        ingress = [];
      };
    }
    C.create_or_update network_policy netpol (lab_policy lab.spec.network.type)
    pure tt
