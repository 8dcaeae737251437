-- ===== src/ClusterLab/Governed.antt =====
-- What a successful run of the ClusterLab controller leaves in the cluster.
use notebook_operator.Base.{◌≡◌, ◌≢◌, ◌↔◌, ◌∙◌, refl, some}
use notebook_operator.Base.Text.{Text, codes}
use notebook_operator.Base.Dict.{Dict, lookup}
use notebook_operator.Exec.{Result, ok, err, Exec, pure, ◌>>◌}
use notebook_operator.Exec.Keeps.{Keeps, Keeps-bind, Keeps-pure, keeps_rules}
use notebook_operator.Exec.Ensures.{
  Ensures, Returned, Any, Ensures-pure, Ensures-fail, Ensures-bind, Ensures-attempt, Ensures-any,
  Ensures-first, Ensures-second,
}
use notebook_operator.Kube.Meta.{NamespacedName}
use notebook_operator.Kube.Objects.{ResourceQuota, NetworkPolicy}
use notebook_operator.Api.ClusterLab.{ClusterLab}
use notebook_operator.Client.{
  Kind, Obj, Client, Machinery, clusterlab, namespace, resource_quota, network_policy, secret,
  key_of,
}
use notebook_operator.Client.Laws.{IsLawful}
use notebook_operator.Client.Found.{Found, Keeps-status, Keeps-change, change-Ensures}
use notebook_operator.Utils.Names.{generate_target_namespace}
use notebook_operator.ClusterLab.Provision.{
  lab_policy, quota_name, reconcile_namespace, reconcile_resource_quota, reconcile_network_policy,
}
use notebook_operator.ClusterLab.Status.{LabClock, update_cluster_lab_status, update_status_failed}
use notebook_operator.ClusterLab.Reconcile.{
  namespace_key, lab_report_by, lab_reported, provision_lab,
}
use notebook_operator.ClusterLab.Isolation.{Origin, Admits, Open, lab_policy_lem}
use notebook_operator.ClusterLab.Quota.{limit_of, quota_hard_lem}

abbrev pub in_namespace : Text → Text → NamespacedName
in_namespace ns name = record { namespace = ns; name = name }

module _ (M : Machinery) (C : Client M.Quantity) (lab : ClusterLab M.Quantity) where
  abbrev pub target : Text
  target = generate_target_namespace lab.metadata.name

  -- The quota has at least the limits that the cluster lab asks for.
  abbrev pub Limited : ResourceQuota M.Quantity → Type 0
  Limited q =
      (k : Text) (v : M.Quantity) → limit_of M lab.spec.quota k ≡ some v → lookup k q.hard ≡ some v

  -- The policy opens every pod to what the network type promises, and to nothing else.
  abbrev pub Isolated : NetworkPolicy → Type 0
  Isolated p = (labels : Dict Text) (o : Origin) → Admits p labels o ↔ Open lab.spec.network.type o

  -- The target namespace is there, with a quota that limits it and a policy that isolates it.
  pub record IsGoverned (w : C.World) : Type 0 where
    pub there : Found C namespace (namespace_key target) (λ n. Unit {0}) w
    pub limited : Found C resource_quota (in_namespace target quota_name) Limited w
    pub isolated :
        Found C network_policy (in_namespace target (codes "lab-network-policy")) Isolated w

  module _ (L : IsLawful C) (clock : LabClock) where
    module _ (j : Kind) (key : NamespacedName) (Q : Obj M.Quantity j → Type 0) where
      failed-Keeps :
          clusterlab ≢ j
          → (reason : Text) (r : Result (Unit {0}))
          → Keeps (Found C j key Q) (lab_report_by M C clock lab reason r)
      unfolding lab_report_by update_status_failed
      failed-Keeps ne reason (ok done) = search keeps_rules
      failed-Keeps ne reason (err e) = search (keeps_rules, Keeps-status C L j key Q clusterlab ne)

      step-Keeps :
          clusterlab ≢ j
          → (reason : Text) (m : Exec C.World (Unit {0})) → Keeps (Found C j key Q) m
          → Keeps (Found C j key Q) (lab_reported M C clock lab reason m)
      unfolding lab_reported
      step-Keeps ne reason m k = search (keeps_rules, failed-Keeps ne)

      status-Keeps :
          clusterlab ≢ j → Keeps (Found C j key Q) (update_cluster_lab_status M C clock lab target)
      unfolding update_cluster_lab_status
      status-Keeps ne = search (keeps_rules, Keeps-status C L j key Q clusterlab ne)

    -- A step that is reported ensures what it does itself.
    step-Ensures :
        (Q : C.World → Type 0) (reason : Text) (m : Exec C.World (Unit {0}))
        → Ensures Any m (λ _. Q)
        → Ensures Any (lab_reported M C clock lab reason m) (λ _. Q)
    unfolding lab_reported lab_report_by update_status_failed
    step-Ensures Q reason m e = Ensures-bind _ _ (Ensures-attempt Any m (λ _. Q) e) by_result
      where
        by_result :
            (r : Result (Unit {0}))
            → Ensures (Returned (λ _. Q) r) (lab_report_by M C clock lab reason r) (λ _. Q)
        by_result (ok done) = Ensures-pure tt (λ w h. h)
        by_result (err f) = Ensures-bind _ _ (Ensures-any _ _) (λ x. Ensures-fail f)

    changed :
        (k : Kind) (o : Obj M.Quantity k) (f : Obj M.Quantity k → Obj M.Quantity k)
        (Q : Obj M.Quantity k → Type 0)
        → k ≢ secret
        → ((x : Obj M.Quantity k) → key_of M.Quantity k (f x) ≡ key_of M.Quantity k x)
        → ((x : Obj M.Quantity k) → Q (f x))
        → Ensures Any
            (C.create_or_update k o f >> pure tt)
            (λ _. Found C k (key_of M.Quantity k o) Q)
    changed k o f Q plain names good =
        Ensures-bind {R = λ _. Found C k (key_of M.Quantity k o) Q} _ _
          (change-Ensures C L k o f Q plain names good) (λ x. Ensures-pure tt (λ w h. h))

    namespace-Ensures :
        Ensures Any
          (reconcile_namespace M C lab target)
          (λ _. Found C namespace (namespace_key target) (λ n. Unit {0}))
    unfolding reconcile_namespace
    namespace-Ensures = changed namespace _ _ _ (λ e. cc) (λ x. refl) (λ x. tt)

    quota-Ensures :
        Ensures Any
          (reconcile_resource_quota M C lab target)
          (λ _. Found C resource_quota (in_namespace target quota_name) Limited)
    unfolding reconcile_resource_quota
    quota-Ensures =
        changed resource_quota _ _ Limited (λ e. cc) (λ x. refl)
          (λ x k v h. quota_hard_lem M lab.spec.quota x.hard k ∙ rw h)

    policy-Ensures :
        Ensures Any
          (reconcile_network_policy M C lab target)
          (λ _. Found C network_policy (in_namespace target (codes "lab-network-policy")) Isolated)
    unfolding reconcile_network_policy lab_policy
    policy-Ensures =
        changed network_policy _ _ Isolated (λ e. cc) (λ x. refl)
          (λ x. lab_policy_lem lab.spec.network.type x)

    module _ (j : Kind) (key : NamespacedName) (Q : Obj M.Quantity j → Type 0) where
      quota_step-Keeps :
          resource_quota ≢ j → Keeps (Found C j key Q) (reconcile_resource_quota M C lab target)
      unfolding reconcile_resource_quota
      quota_step-Keeps ne =
          Keeps-bind _ _ (Keeps-change C L j key Q resource_quota _ _ ne (λ x. refl))
            (λ a. Keeps-pure tt)

      policy_step-Keeps :
          network_policy ≢ j → Keeps (Found C j key Q) (reconcile_network_policy M C lab target)
      unfolding reconcile_network_policy lab_policy
      policy_step-Keeps ne =
          Keeps-bind _ _ (Keeps-change C L j key Q network_policy _ _ ne (λ x. refl))
            (λ a. Keeps-pure tt)

    namespace-Governed :
        Ensures Any
          (provision_lab M C clock lab)
          (λ _. Found C namespace (namespace_key target) (λ n. Unit {0}))
    unfolding provision_lab
    namespace-Governed = Ensures-first _ _ _ (step-Ensures _ _ _ namespace-Ensures) (
        search (
          keeps_rules,
          step-Keeps namespace _ _ (λ e. cc),
          quota_step-Keeps namespace _ _ (λ e. cc),
          policy_step-Keeps namespace _ _ (λ e. cc),
          status-Keeps namespace _ _ (λ e. cc),
        ))

    quota-Governed :
        Ensures Any
          (provision_lab M C clock lab)
          (λ _. Found C resource_quota (in_namespace target quota_name) Limited)
    unfolding provision_lab
    quota-Governed = Ensures-second _ _ _ (
        Ensures-first _ _ _ (step-Ensures _ _ _ quota-Ensures) (
          search (
            keeps_rules,
            step-Keeps resource_quota _ _ (λ e. cc),
            policy_step-Keeps resource_quota _ _ (λ e. cc),
            status-Keeps resource_quota _ _ (λ e. cc),
          )))

    policy-Governed :
        Ensures Any
          (provision_lab M C clock lab)
          (λ _. Found C network_policy (in_namespace target (codes "lab-network-policy")) Isolated)
    unfolding provision_lab
    policy-Governed = Ensures-second _ _ _ (
        Ensures-second _ _ _ (
          Ensures-first _ _ _ (step-Ensures _ _ _ policy-Ensures)
            (status-Keeps network_policy _ _ (λ e. cc))))

    pub provision-IsGoverned :
        (w : C.World) (a : Unit {0})
        → (provision_lab M C clock lab w).0 ≡ ok a
        → IsGoverned (provision_lab M C clock lab w).1
    provision-IsGoverned w a h = record {
      there = rw h at (namespace-Governed.at w tt);
      limited = rw h at (quota-Governed.at w tt);
      isolated = rw h at (policy-Governed.at w tt);
    }
