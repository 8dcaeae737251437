-- ===== src/ClusterLab/Reconcile.antt =====
-- `Reconcile`, `reconcileFinalizer`, `reconcileTTL` and `findParentClusterLab` of
-- internal/controller/clusterlab_controller.go. The result of a run is `RequeueAfter`, where 0 stands
-- for no requeue.
use notebook_operator.Base.{Bool, true, false, Option, none, some, List, [], ◌∷◌, if◌then◌else◌}
use notebook_operator.Base.Int.{ℤ, pos, ltb_ℤ, leb_ℤ, ◌+ℤ◌, ◌*ℤ◌}
use notebook_operator.Base.Text.{Text, codes}
use notebook_operator.Base.Duration.{Duration, second, sub}
use notebook_operator.Utils.Strings.{is_empty}
use notebook_operator.Utils.Names.{generate_target_namespace}
use notebook_operator.Exec.{
  Failure, invalid_ttl, Result, ok, err, Exec, is_not_found, pure, fail, reads, attempt, ◌>>=◌,
  ◌>>◌,
}
use notebook_operator.Kube.Meta.{NamespacedName}
use notebook_operator.Kube.Objects.{Namespace}
use notebook_operator.Api.ClusterLab.{ClusterLab}
use notebook_operator.Api.InstanceLab.{InstanceLab}
use notebook_operator.Client.{Client, Machinery, clusterlab, namespace}
use notebook_operator.Notebook.Children.{new_metadata}
use notebook_operator.ClusterLab.Provision.{
  reconcile_namespace, reconcile_resource_quota, reconcile_network_policy,
}
use notebook_operator.ClusterLab.Status.{LabClock, update_cluster_lab_status, update_status_failed}

abbrev pub cluster_lab_finalizer : Text
cluster_lab_finalizer = codes "lab.devops.toiyeuptit.com/clusterlab-finalizer"

abbrev pub namespace_object : Text → Namespace
namespace_object name = record { metadata = new_metadata name [] [] }

abbrev pub namespace_key : Text → NamespacedName
namespace_key name = record { namespace = []; name = name }

-- An error other than "not found".
abbrev pub serious : {A : Type 0} → Result A → Option Failure
serious (ok a) = none
serious (err e) = if is_not_found e then none else some e

-- What `reconcileTTL` returns, with the cluster as it leaves it.
pub record Ttl (Quantity : Type 0) : Type 0 where
  pub is_expired : Bool
  pub requeue_after : Duration
  pub lab : ClusterLab Quantity

module _ {Quantity : Type 0} where
  -- `instanceLab.Spec.ClusterLabRef` as a request, for an object that is an `InstanceLab`.
  unfoldable pub find_parent_cluster_lab : InstanceLab Quantity → List NamespacedName
  find_parent_cluster_lab instance_lab =
      if is_empty instance_lab.spec.cluster_lab_ref
      then []
      else record {
        namespace = instance_lab.metadata.namespace;
        name = instance_lab.spec.cluster_lab_ref;
      }
        ∷ []

  -- The namespace that is deleted with the cluster.
  unfoldable pub doomed_namespace : ClusterLab Quantity → Text
  doomed_namespace lab =
      if is_empty lab.status.target_namespace
      then generate_target_namespace lab.metadata.name
      else lab.status.target_namespace

  -- Part 4.
  unfoldable pub with_target : ClusterLab Quantity → ClusterLab Quantity
  with_target lab =
      if is_empty lab.status.target_namespace
      then record lab {
        status = record lab.status {
          target_namespace = generate_target_namespace lab.metadata.name;
        };
      }
      else lab

-- `parse_duration` stands for `time.ParseDuration`, which reads fractions as floating-point numbers.
module _ (parse_duration : Text → Option Duration) {Quantity : Type 0} (clock : LabClock)
    (lab : ClusterLab Quantity) where
  -- A TTL that has been parsed.
  unfoldable pub ttl_by : Option Duration → Result (Ttl Quantity)
  ttl_by none = err (invalid_ttl lab.spec.ttl)
  ttl_by (some duration) =
      let expires_time = lab.metadata.creation_timestamp +ℤ duration in
      let expiring : ClusterLab Quantity = record lab {
        status = record lab.status { expires_at = some expires_time };
      } in
      ok (
        if leb_ℤ expires_time clock.at_ttl
        then record { is_expired = true; requeue_after = pos 0; lab = expiring }
        else record {
          is_expired = false;
          requeue_after = sub expires_time clock.at_until;
          lab = expiring;
        })

  unfoldable pub reconcile_ttl : Result (Ttl Quantity)
  unfolding ttl_by
  reconcile_ttl =
      if is_empty lab.spec.ttl
      then ok (record {
        is_expired = false;
        requeue_after = pos 0;
        lab = record lab { status = record lab.status { expires_at = none } };
      })
      else ttl_by (parse_duration lab.spec.ttl)

module _ (M : Machinery) (C : Client M.Quantity) where
  module _ (lab : ClusterLab M.Quantity) where
    unfoldable pub remove_lab_finalizer : Exec C.World Duration
    remove_lab_finalizer = do
      C.update clusterlab
          (record lab { metadata = M.remove_finalizer lab.metadata cluster_lab_finalizer })
      pure (pos 0)

    -- What follows the deletion of the namespace, from the answer to the read of it.
    unfoldable pub finalize_by : Result Namespace → Exec C.World Duration
    finalize_by (ok ns) = pure (pos 3 *ℤ second)
    finalize_by (err e) = if is_not_found e then remove_lab_finalizer else pure (pos 3 *ℤ second)

    unfoldable pub check_deleted : Option Failure → Text → Exec C.World Duration
    check_deleted (some e) target = fail e
    check_deleted none target = do
      found ← attempt (reads (C.get namespace (namespace_key target)))
      finalize_by found

    unfoldable pub delete_target : Text → Exec C.World Duration
    delete_target target = do
      r ← attempt (C.delete namespace (namespace_object target))
      check_deleted (serious r) target

    unfoldable pub reconcile_finalizer : Exec C.World Duration
    reconcile_finalizer =
        if M.contains_finalizer lab.metadata cluster_lab_finalizer
        then delete_target (doomed_namespace lab)
        else pure (pos 0)

    unfoldable pub add_lab_finalizer : Exec C.World Duration
    add_lab_finalizer = do
      C.update clusterlab
          (record lab { metadata = M.add_finalizer lab.metadata cluster_lab_finalizer })
      pure (pos 0)

    unfoldable pub expire_by : Option Failure → Exec C.World Duration
    expire_by (some e) = fail e
    expire_by none = pure (pos 0)

    unfoldable pub expire : Exec C.World Duration
    expire = do r ← attempt (C.delete clusterlab lab); expire_by (serious r)

  module _ (clock : LabClock) (lab : ClusterLab M.Quantity) where
    unfoldable pub lab_report_by : Text → Result (Unit {0}) → Exec C.World (Unit {0})
    lab_report_by reason (ok done) = pure tt
    lab_report_by reason (err e) = do update_status_failed M C clock lab reason e; fail e

    -- A step whose error is reported in the status before it is returned.
    unfoldable pub lab_reported : Text → Exec C.World (Unit {0}) → Exec C.World (Unit {0})
    lab_reported reason m = do r ← attempt m; lab_report_by reason r

    -- Parts 6 and 7.
    unfoldable pub provision_lab : Exec C.World (Unit {0})
    provision_lab = do
      let target = generate_target_namespace lab.metadata.name
      lab_reported (codes "NamespaceError") (reconcile_namespace M C lab target)
      lab_reported (codes "QuotaError") (reconcile_resource_quota M C lab target)
      lab_reported (codes "NetworkPolicyError") (reconcile_network_policy M C lab target)
      update_cluster_lab_status M C clock lab target

  module _ (parse_duration : Text → Option Duration) (clock : LabClock) where
    unfoldable pub after_ttl : Result (Ttl M.Quantity) → Exec C.World Duration
    after_ttl (err e) = fail e
    after_ttl (ok ttl) = if ttl.is_expired then expire ttl.lab else (do
      provision_lab clock ttl.lab
      pure (if ltb_ℤ (pos 0) ttl.requeue_after then ttl.requeue_after else pos 0))

    -- Parts 2 to 7, with the deletion timestamp.
    unfoldable pub reconcile_lab : ClusterLab M.Quantity → Option ℤ → Exec C.World Duration
    reconcile_lab lab (some t) = reconcile_finalizer lab
    reconcile_lab lab none =
        if M.contains_finalizer lab.metadata cluster_lab_finalizer
        then after_ttl (reconcile_ttl parse_duration clock (with_target lab))
        else add_lab_finalizer lab

    unfoldable pub reconcile_lab_found : Result (ClusterLab M.Quantity) → Exec C.World Duration
    reconcile_lab_found (ok lab) = reconcile_lab lab lab.metadata.deletion_timestamp
    reconcile_lab_found (err e) = if is_not_found e then pure (pos 0) else fail e

    unfoldable pub reconcile_cluster_lab : NamespacedName → Exec C.World Duration
    reconcile_cluster_lab req = do
      found ← attempt (reads (C.get clusterlab req))
      reconcile_lab_found found
