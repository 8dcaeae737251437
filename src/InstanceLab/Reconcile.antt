-- ===== src/InstanceLab/Reconcile.antt =====
-- `Reconcile`, `resolveParentClusterLab` and `reconcileFinalizer` of
-- internal/controller/instancelab_controller.go. The result of a run is `RequeueAfter`, where 0 stands
-- for no requeue. `order` and `env` stand for the order of a map and for `os.Getenv`.
use notebook_operator.Base.{Bool, ◌||◌, Option, none, some, List, [], ◌∷◌, ◌++◌, if◌then◌else◌}
use notebook_operator.Base.Int.{ℤ, pos, ◌*ℤ◌}
use notebook_operator.Base.Text.{Text, codes}
use notebook_operator.Base.Dict.{Dict}
use notebook_operator.Base.Duration.{Duration, second}
use notebook_operator.Utils.Strings.{is_empty, equal_fold}
use notebook_operator.Utils.Names.{generate_target_namespace}
use notebook_operator.Exec.{
  Result, ok, err, Exec, is_not_found, pure, fail, reads, attempt, ◌>>=◌, ◌>>◌,
}
use notebook_operator.InstanceLab.Status.{InstanceClock}
use notebook_operator.Kube.Meta.{ObjectMeta, NamespacedName}
use notebook_operator.Api.ClusterLab.{ClusterLab}
use notebook_operator.Api.InstanceLab.{InstanceLab}
use notebook_operator.Client.{
  Client, Machinery, instancelab, clusterlab, ingress, service, pod, pvc,
}
use notebook_operator.ClusterLab.Reconcile.{doomed_namespace}
use notebook_operator.ClusterLab.Status.{set_condition}
use notebook_operator.InstanceLab.Objects.{label_instance_lab, reconcile_instance_pvc}
use notebook_operator.InstanceLab.Pod.{reconcile_sysbox_pod}
use notebook_operator.InstanceLab.Network.{reconcile_services, reconcile_instance_ingress}
use notebook_operator.InstanceLab.Status.{update_instance_lab_status, update_instance_status_failed}

abbrev pub instance_lab_finalizer : Text
instance_lab_finalizer = codes "lab.devops.toiyeuptit.com/instancelab-finalizer"

-- What `resolveParentClusterLab` returns, with the instance as it leaves it.
pub record Parent (Quantity : Type 0) : Type 0 where
  pub cluster : Option (ClusterLab Quantity)
  pub inst : InstanceLab Quantity

module _ {Quantity : Type 0} where
  abbrev pub parent_key : InstanceLab Quantity → NamespacedName
  parent_key inst = record { namespace = inst.metadata.namespace; name = inst.spec.cluster_lab_ref }

  abbrev pub is_ready : ClusterLab Quantity → Bool
  is_ready lab =
      equal_fold lab.status.phase (codes "Running") || equal_fold lab.status.phase (codes "Ready")

  abbrev pub or_else : Result (InstanceLab Quantity) → InstanceLab Quantity → InstanceLab Quantity
  or_else (ok answer) inst = answer
  or_else (err e) inst = inst

  -- `targetNs`, from the answer to the read of the parent.
  unfoldable pub cleanup_namespace : InstanceLab Quantity → Result (ClusterLab Quantity) → Text
  cleanup_namespace inst (ok lab) =
      if is_empty lab.status.target_namespace
      then generate_target_namespace inst.spec.cluster_lab_ref
      else lab.status.target_namespace
  cleanup_namespace inst (err e) = generate_target_namespace inst.spec.cluster_lab_ref

  abbrev pub instance_selector : InstanceLab Quantity → Dict Text
  instance_selector inst = (label_instance_lab, inst.metadata.name) ∷ []

module _ (M : Machinery) (C : Client M.Quantity) where
  module _ (inst : InstanceLab M.Quantity) where
    -- The owner reference, and the update whose error is dropped.
    unfoldable pub adopt : Result ObjectMeta → Exec C.World (InstanceLab M.Quantity)
    adopt (err e) = pure inst
    adopt (ok m) = do
      let owned = record inst { metadata = m }
      answer ← attempt (C.update instancelab owned)
      pure (or_else answer owned)

    unfoldable pub resolve_by : Result (ClusterLab M.Quantity) → Exec C.World (Parent M.Quantity)
    unfolding adopt
    resolve_by (ok lab) = do
      adopted ← adopt (M.set_controller_reference lab.metadata inst.metadata)
      pure (record { cluster = if is_ready lab then some lab else none; inst = adopted })
    resolve_by (err e) =
        if is_not_found e then pure (record { cluster = none; inst = inst }) else fail e

    -- The parent, if there is one and it is ready.
    unfoldable pub resolve_parent_cluster_lab : Exec C.World (Parent M.Quantity)
    unfolding resolve_by
    resolve_parent_cluster_lab = do
      found ← attempt (reads (C.get clusterlab (parent_key inst)))
      resolve_by found

    -- The four deletions, whose errors are dropped.
    unfoldable pub clean_up : Text → Exec C.World (Unit {0})
    clean_up target_ns = do
      attempt (C.delete_all_of ingress target_ns (instance_selector inst))
      attempt (C.delete_all_of service target_ns (instance_selector inst))
      attempt (C.delete_all_of pod target_ns (instance_selector inst))
      attempt (C.delete_all_of pvc target_ns (instance_selector inst))
      pure tt

    unfoldable pub remove_instance_finalizer : Exec C.World Duration
    remove_instance_finalizer = do
      C.update instancelab
          (record inst { metadata = M.remove_finalizer inst.metadata instance_lab_finalizer })
      pure (pos 0)

    unfoldable pub finalize_instance : Exec C.World Duration
    unfolding cleanup_namespace
    finalize_instance = do
      parent ← attempt (reads (C.get clusterlab (parent_key inst)))
      clean_up (cleanup_namespace inst parent)
      remove_instance_finalizer

    unfoldable pub reconcile_instance_finalizer : Exec C.World Duration
    reconcile_instance_finalizer =
        if M.contains_finalizer inst.metadata instance_lab_finalizer
        then finalize_instance
        else pure (pos 0)

    unfoldable pub add_instance_finalizer : Exec C.World Duration
    add_instance_finalizer = do
      C.update instancelab
          (record inst { metadata = M.add_finalizer inst.metadata instance_lab_finalizer })
      pure (pos 0)

  module _ (now : InstanceClock) (inst : InstanceLab M.Quantity) where
    unfoldable pub waiting_instance : InstanceLab M.Quantity
    unfolding set_condition
    waiting_instance = record inst {
      status = record inst.status {
        phase = codes "Pending";
        conditions =
            set_condition M now.at_waiting inst.status.conditions (codes "WaitingForCluster")
              (codes "False") (codes "ParentNotReady")
              (codes "Waiting for parent ClusterLab "
                ++ inst.spec.cluster_lab_ref
                ++ codes " to enter Running phase");
      };
    }

    unfoldable pub wait_for_parent : Exec C.World Duration
    unfolding waiting_instance
    wait_for_parent = do
      attempt (C.update_status instancelab waiting_instance)
      pure (pos 5 *ℤ second)

    unfoldable pub instance_report_by : {A : Type 0} → Text → Result A → Exec C.World A
    instance_report_by reason (ok a) = pure a
    instance_report_by reason (err e) = do
      update_instance_status_failed M now C inst reason e
      fail e

    -- A step whose error is reported in the status before it is returned.
    unfoldable pub instance_reported : {A : Type 0} → Text → Exec C.World A → Exec C.World A
    unfolding instance_report_by
    instance_reported reason m = do r ← attempt m; instance_report_by reason r

    -- Parts 4.5 to 8, in the parent's target namespace.
    unfoldable pub provision_instance :
        (Dict Text → List (Text × Text))
        → (Text → Text)
        → ClusterLab M.Quantity
        → Exec C.World (Unit {0})
    provision_instance order env lab = do
      let target = doomed_namespace lab
      claim ← instance_reported (codes "PVCError") (reconcile_instance_pvc M C inst target)
      p ← instance_reported (codes "PodError") (reconcile_sysbox_pod M C order inst target claim)
      svc ← instance_reported (codes "ServiceError") (reconcile_services M C env inst target)
      ing ←
          instance_reported (codes "IngressError")
            (reconcile_instance_ingress M C env inst lab.metadata.name target svc)
      update_instance_lab_status M now C inst (some p) svc ing

  module _ (order : Dict Text → List (Text × Text)) (env : Text → Text) (now : InstanceClock) where
    unfoldable pub after_parent :
        InstanceLab M.Quantity → Option (ClusterLab M.Quantity) → Exec C.World Duration
    after_parent inst none = wait_for_parent now inst
    after_parent inst (some lab) = do provision_instance now inst order env lab; pure (pos 0)

    -- Parts 2 to 8, with the deletion timestamp.
    unfoldable pub reconcile_instance : InstanceLab M.Quantity → Option ℤ → Exec C.World Duration
    reconcile_instance inst (some t) = reconcile_instance_finalizer inst
    reconcile_instance inst none =
        if M.contains_finalizer inst.metadata instance_lab_finalizer
        then (do parent ← resolve_parent_cluster_lab inst; after_parent parent.inst parent.cluster)
        else add_instance_finalizer inst

    unfoldable pub reconcile_instance_found :
        Result (InstanceLab M.Quantity) → Exec C.World Duration
    reconcile_instance_found (ok inst) = reconcile_instance inst inst.metadata.deletion_timestamp
    reconcile_instance_found (err e) = if is_not_found e then pure (pos 0) else fail e

    unfoldable pub reconcile_instance_lab : NamespacedName → Exec C.World Duration
    reconcile_instance_lab req = do
      found ← attempt (reads (C.get instancelab req))
      reconcile_instance_found found
