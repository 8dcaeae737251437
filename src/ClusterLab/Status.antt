-- ===== src/ClusterLab/Status.antt =====
-- The status of a cluster lab: `updateClusterLabStatus` and `updateStatusFailed` of
-- internal/controller/clusterlab_controller.go, with `SetCondition` of internal/utils/helpers.go.
use notebook_operator.Base.{Option, none, some, List, [], ◌∷◌, ◌++◌, if◌then◌else◌}
use notebook_operator.Base.Int.{pos, ◌+ℤ◌, wrap32}
use notebook_operator.Base.Text.{Text, codes, ◌==◌}
use notebook_operator.Base.Dict.{Dict, lookup}
use notebook_operator.Utils.Strings.{to_lower}
use notebook_operator.Exec.{
  Failure, Result, ok, err, Exec, error_text, pure, reads, attempt, ◌>>=◌, ◌>>◌,
}
use notebook_operator.Kube.Meta.{Time, Condition}
use notebook_operator.Kube.Objects.{ResourceQuota}
use notebook_operator.Api.ClusterLab.{ClusterLab, ClusterLabInstanceCount, ClusterLabQuotaUsage}
use notebook_operator.Api.InstanceLab.{InstanceLab}
use notebook_operator.Client.{Client, Machinery, clusterlab, instancelab, resource_quota}
use notebook_operator.ClusterLab.Provision.{quota_name}

-- The readings of the clock by the calls of `metav1.Now` and `time.Now`: for the conditions, for the
-- test of the TTL, and for `time.Until`.
pub record LabClock : Type 0 where
  pub at_namespace : Time
  pub at_quota : Time
  pub at_policy : Time
  pub at_ready : Time
  pub at_ttl : Time
  pub at_until : Time

module _ (M : Machinery) where
  -- `SetCondition`, on the list that its pointer holds.
  unfoldable pub set_condition : Time → List Condition → Text → Text → Text → Text → List Condition
  set_condition now conditions type status reason message =
      M.set_status_condition conditions (record {
        type = type;
        status = status;
        reason = reason;
        message = message;
        last_transition_time = now;
      })

module _ {Quantity : Type 0} where
  -- One turn of the loop over the instances, on `total` and `ready`.
  unfoldable pub count_instance :
      Text → InstanceLab Quantity → ClusterLabInstanceCount → ClusterLabInstanceCount
  count_instance name inst n =
      if inst.spec.cluster_lab_ref == name
      then record {
        total = wrap32 (n.total +ℤ pos 1);
        ready =
            if to_lower inst.status.phase == codes "running"
            then wrap32 (n.ready +ℤ pos 1)
            else n.ready;
      }
      else n

  unfoldable pub count_instances :
      Text → List (InstanceLab Quantity) → ClusterLabInstanceCount → ClusterLabInstanceCount
  unfolding count_instance
  count_instances name [] n = n
  count_instances name (inst ∷ items) n = count_instances name items (count_instance name inst n)

  abbrev used_or : {A : Type 0} → Option Quantity → (Quantity → A) → A → A
  used_or none f a = a
  used_or (some q) f a = f q

module _ (M : Machinery) where
  -- What is used of the quota.
  unfoldable pub quota_usage_of :
      Dict M.Quantity → ClusterLabQuotaUsage M.Quantity → ClusterLabQuotaUsage M.Quantity
  quota_usage_of used old = record {
    compute = record {
      cpu_used = used_or (lookup (codes "limits.cpu") used) (λ q. q) old.compute.cpu_used;
      memory_used = used_or (lookup (codes "limits.memory") used) (λ q. q) old.compute.memory_used;
    };
    storage = record {
      used = used_or (lookup (codes "limits.ephemeral-storage") used) (λ q. q) old.storage.used;
    };
    objects = record {
      pods_used =
          used_or (lookup (codes "pods") used) (λ q. wrap32 (M.value q)) old.objects.pods_used;
      services_used =
          used_or (lookup (codes "services") used) (λ q. wrap32 (M.value q))
            old.objects.services_used;
    };
  }

  unfoldable pub usage_by :
      Result (ResourceQuota M.Quantity)
      → ClusterLabQuotaUsage M.Quantity
      → ClusterLabQuotaUsage M.Quantity
  unfolding quota_usage_of
  usage_by (ok quota) old = quota_usage_of quota.used old
  usage_by (err e) old = old

  unfoldable pub count_by :
      Text
      → Result (List (InstanceLab M.Quantity))
      → ClusterLabInstanceCount
      → ClusterLabInstanceCount
  unfolding count_instances
  count_by name (ok items) old =
      count_instances name items (record { total = pos 0; ready = pos 0 })
  count_by name (err e) old = old

  -- The four conditions of a cluster that has been reconciled.
  unfoldable pub ready_conditions : LabClock → Text → Text → List Condition → List Condition
  unfolding set_condition
  ready_conditions clock ns_name network_type conditions =
      let c1 =
        set_condition M clock.at_namespace conditions (codes "NamespaceReady") (codes "True")
          (codes "NamespaceReconciled")
          (codes "Namespace " ++ ns_name ++ codes " is active and operational") in
      let c2 =
        set_condition M clock.at_quota c1 (codes "QuotaReady") (codes "True")
          (codes "QuotaReconciled") (codes "Resource limits successfully enforced") in
      let c3 =
        set_condition M clock.at_policy c2 (codes "NetworkPolicyReady") (codes "True")
          (codes "PolicyReconciled") (codes "Network mode applied: " ++ network_type) in
      set_condition M clock.at_ready c3 (codes "Ready") (codes "True") (codes "ClusterReady")
        (codes "ClusterLab is fully provisioned and operational")

  -- The cluster with the status that is reported of it.
  unfoldable pub reported_lab :
      LabClock
      → ClusterLab M.Quantity
      → Text
      → Result (ResourceQuota M.Quantity)
      → Result (List (InstanceLab M.Quantity))
      → ClusterLab M.Quantity
  unfolding usage_by count_by ready_conditions
  reported_lab clock lab ns_name quota instances = record lab {
    status = record lab.status {
      phase = codes "Running";
      target_namespace = ns_name;
      quota_usage = usage_by quota lab.status.quota_usage;
      instance_count = count_by lab.metadata.name instances lab.status.instance_count;
      conditions = ready_conditions clock ns_name lab.spec.network.type lab.status.conditions;
    };
  }

module _ (M : Machinery) (C : Client M.Quantity) (clock : LabClock)
    (lab : ClusterLab M.Quantity) where
  unfoldable pub update_cluster_lab_status : Text → Exec C.World (Unit {0})
  update_cluster_lab_status ns_name = do
    quota ←
        attempt (reads (C.get resource_quota (record { namespace = ns_name; name = quota_name })))
    instances ← attempt (reads (C.list instancelab lab.metadata.namespace))
    C.update_status clusterlab (reported_lab M clock lab ns_name quota instances)
    pure tt

  unfoldable pub failed_lab : Text → Text → ClusterLab M.Quantity
  unfolding set_condition
  failed_lab reason message = record lab {
    status = record lab.status {
      phase = codes "Failed";
      conditions =
          set_condition M clock.at_ready lab.status.conditions (codes "Ready") (codes "False")
            reason message;
    };
  }

  -- The error of the update is dropped.
  unfoldable pub update_status_failed : Text → Failure → Exec C.World (Unit {0})
  update_status_failed reason e = do
    attempt (C.update_status clusterlab (failed_lab reason (error_text e)))
    pure tt
