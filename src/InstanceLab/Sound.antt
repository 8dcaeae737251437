-- ===== src/InstanceLab/Sound.antt =====
-- A run of the InstanceLab controller follows no nil pointer.
use notebook_operator.Base.{refl, ◌≢◌, Option, none, some, List, [], ◌∷◌}
use notebook_operator.Base.Int.{ℤ}
use notebook_operator.Base.Text.{Text}
use notebook_operator.Base.Dict.{Dict}
use notebook_operator.Exec.{Failure, nil_dereference, Result, ok, err, Exec, is_not_found}
use notebook_operator.Exec.Sound.{
  Sound, Fine, Outcome, Fine-attempt, Fine-of, Fine-reads, Fine-bind, Sound-pure, Fine-pure,
  Sound-fail, Sound-attempt, Sound-if, Sound-bind,
}
use notebook_operator.InstanceLab.Status.{InstanceClock}
use notebook_operator.Kube.Meta.{ObjectMeta, NamespacedName}
use notebook_operator.Kube.Objects.{PersistentVolumeClaim, Service, Ingress}
use notebook_operator.Kube.Pod.{Pod}
use notebook_operator.Api.ClusterLab.{ClusterLab}
use notebook_operator.Api.InstanceLab.{InstanceLab, InstanceLabPort, InstanceLabAccessEndpoint}
use notebook_operator.Client.{
  Kind, Obj, Client, Machinery, instancelab, clusterlab, pvc, pod, service, ingress,
}
use notebook_operator.InstanceLab.Objects.{reconcile_instance_pvc}
use notebook_operator.InstanceLab.Pod.{reconcile_sysbox_pod}
use notebook_operator.InstanceLab.Network.{
  services_by, reconcile_services, instance_ingress_by, reconcile_instance_ingress,
}
use notebook_operator.InstanceLab.Status.{
  host_of, access_endpoints, report_instance, update_instance_lab_status,
  update_instance_status_failed,
}
use notebook_operator.InstanceLab.Reconcile.{
  adopt, resolve_by, resolve_parent_cluster_lab, clean_up, remove_instance_finalizer,
  finalize_instance, reconcile_instance_finalizer, add_instance_finalizer, wait_for_parent,
  instance_report_by, instance_reported, provision_instance, after_parent, reconcile_instance,
  reconcile_instance_found, reconcile_instance_lab, instance_lab_finalizer,
}

-- The client answers with errors of the API, never with a panic of its caller.
pub record IsRemote {Quantity : Type 0} (C : Client Quantity) : Type 0 where
  pub get : (k : Kind) (key : NamespacedName) (w : C.World) → C.get k key w ≢ err nil_dereference
  pub update :
      (k : Kind) (o : Obj Quantity k) (w : C.World) → (C.update k o w).0 ≢ err nil_dereference
  pub update_status :
      (k : Kind) (o : Obj Quantity k) (w : C.World)
      → (C.update_status k o w).0 ≢ err nil_dereference
  pub create_or_update :
      (k : Kind) (o : Obj Quantity k) (f : Obj Quantity k → Obj Quantity k) (w : C.World)
      → (C.create_or_update k o f w).0 ≢ err nil_dereference

module _ (M : Machinery) (C : Client M.Quantity) (R : IsRemote C) where
  Fine-create_or_update :
      (k : Kind) (o : Obj M.Quantity k) (f : Obj M.Quantity k → Obj M.Quantity k)
      → Fine (C.create_or_update k o f)
  Fine-create_or_update k o f = Fine-of _ (R.create_or_update k o f)

  module _ (inst : InstanceLab M.Quantity) where
    adopt-Fine : (r : Result ObjectMeta) → Fine (adopt M C inst r)
    unfolding adopt
    adopt-Fine (ok m) = Fine-bind _ _ _ (Fine-attempt _) (λ a. Fine-pure _)
    adopt-Fine (err e) = Fine-pure _

    resolve_by-Fine :
        (r : Result (ClusterLab M.Quantity))
        → Outcome (λ l. Unit {0}) r
        → Fine (resolve_by M C inst r)
    unfolding resolve_by
    resolve_by-Fine (ok lab) h = Fine-bind _ _ _ (adopt-Fine _) (λ a. Fine-pure _)
    resolve_by-Fine (err e) h = Sound-if (is_not_found e) _ _ _ (Fine-pure _) (Sound-fail _ e h)

    resolve-Fine : Fine (resolve_parent_cluster_lab M C inst)
    unfolding resolve_parent_cluster_lab
    resolve-Fine =
        Sound-bind _ _ _ _ (Sound-attempt _ _ (Fine-reads _ (R.get clusterlab _))) resolve_by-Fine

    finalizer-Fine : Fine (reconcile_instance_finalizer M C inst)
    unfolding reconcile_instance_finalizer finalize_instance clean_up remove_instance_finalizer
    finalizer-Fine =
        Sound-if (M.contains_finalizer inst.metadata instance_lab_finalizer) _ _ _
          (Fine-bind _ _ _ (Fine-attempt _) (λ parent.
            Fine-bind _ _ _
              (Fine-bind _ _ _ (Fine-attempt _) (λ a. Fine-bind _ _ _ (Fine-attempt _) (λ b.
                Fine-bind _ _ _ (Fine-attempt _)
                  (λ c. Fine-bind _ _ _ (Fine-attempt _) (λ d. Fine-pure _)))))
              (λ done. Fine-bind _ _ _ (Fine-of _ (R.update instancelab _)) (λ a. Fine-pure _))))
          (Fine-pure _)

  module _ (now : InstanceClock) (inst : InstanceLab M.Quantity) where
    failed-Fine :
        (reason : Text) (e : Failure) → Fine (update_instance_status_failed M now C inst reason e)
    unfolding update_instance_status_failed
    failed-Fine reason e = Fine-bind _ _ _ (Fine-attempt _) (λ a. Fine-pure _)

    report_by-Sound :
        {A : Type 0} (Q : A → Type 0) (reason : Text) (r : Result A)
        → Outcome Q r
        → Sound (instance_report_by M C now inst reason r) Q
    unfolding instance_report_by
    report_by-Sound Q reason (ok a) h = Sound-pure Q a h
    report_by-Sound Q reason (err e) h =
        Fine-bind _ _ _ (failed-Fine reason e) (λ a. Sound-fail Q e h)

    reported-Sound :
        {A : Type 0} (Q : A → Type 0) (reason : Text) (m : Exec C.World A)
        → Sound m Q
        → Sound (instance_reported M C now inst reason m) Q
    unfolding instance_reported
    reported-Sound Q reason m s =
        Sound-bind _ _ _ _ (Sound-attempt m Q s) (report_by-Sound Q reason)

    -- There is a service, if there are ports.
    abbrev Serves : List InstanceLabPort → Option Service → Type 0
    Serves ports svc = ports ≢ [] → svc ≢ none

    services_by-Sound :
        (env : Text → Text) (target : Text) (ports : List InstanceLabPort)
        → Sound (services_by M C env inst target ports) (Serves ports)
    unfolding services_by
    services_by-Sound env target [] = Sound-pure _ none (λ h. absurd (h refl))
    services_by-Sound env target (p ∷ ports) =
        Fine-bind _ _ _ (Fine-create_or_update service _ _)
          (λ svc. Sound-pure _ (some svc) (λ h e. cc))

    ingress_by-Fine :
        (env : Text → Text) (name target : Text) (svc : Service) (ports : List InstanceLabPort)
        → Fine (instance_ingress_by M C env inst name target svc ports)
    unfolding instance_ingress_by
    ingress_by-Fine env name target svc [] = Fine-pure _
    ingress_by-Fine env name target svc (p ∷ ports) =
        Fine-bind _ _ _ (Fine-create_or_update ingress _ _) (λ ing. Fine-pure _)

    ingress-Fine :
        (env : Text → Text) (name target : Text) (svc : Option Service)
        → Fine (reconcile_instance_ingress M C env inst name target svc)
    unfolding reconcile_instance_ingress
    ingress-Fine env name target none = Fine-pure _
    ingress-Fine env name target (some svc) = ingress_by-Fine env name target svc _

    claim-Fine : (target : Text) → Fine (reconcile_instance_pvc M C inst target)
    unfolding reconcile_instance_pvc
    claim-Fine target =
        Sound-if (M.is_zero inst.spec.resources.storage.limit) _ _ _ (Fine-pure _)
          (Fine-bind _ _ _ (Fine-create_or_update pvc _ _) (λ a. Fine-pure _))

    pod-Fine :
        (order : Dict Text → List (Text × Text)) (target : Text)
        (claim : Option (PersistentVolumeClaim M.Quantity))
        → Fine (reconcile_sysbox_pod M C order inst target claim)
    unfolding reconcile_sysbox_pod
    pod-Fine order target claim = Fine-create_or_update pod _ _

    status-Fine :
        (p : Pod M.Quantity) (svc : Option Service) (ing : Option Ingress)
        → Serves inst.spec.ports svc
        → Fine (update_instance_lab_status M now C inst (some p) svc ing)
    unfolding update_instance_lab_status
    status-Fine p svc ing h = by_ports inst.spec.ports svc h
      where
        report-Fine :
            (endpoints : List InstanceLabAccessEndpoint)
            → Fine (report_instance M now C inst (some p) (some endpoints))
        report-Fine endpoints =
            Fine-bind _ _ _ (Fine-of _ (R.update_status instancelab _)) (λ a. Fine-pure _)

        by_ports :
            (ports : List InstanceLabPort) (svc : Option Service)
            → Serves ports svc
            → Fine (
                report_instance M now C inst
                  (some p)
                  (access_endpoints (some p) svc (host_of ing) ports))
        by_ports [] svc h = report-Fine []
        by_ports (port ∷ ports) none h = absurd (h (λ e. cc) refl)
        by_ports (port ∷ ports) (some svc) h = report-Fine _

    provision-Fine :
        (order : Dict Text → List (Text × Text)) (env : Text → Text) (lab : ClusterLab M.Quantity)
        → Fine (provision_instance M C now inst order env lab)
    unfolding provision_instance reconcile_services
    provision-Fine order env lab = Fine-bind _ _ _ (reported-Sound _ _ _ (claim-Fine _)) (λ claim.
        Fine-bind _ _ _ (reported-Sound _ _ _ (pod-Fine order _ claim)) (λ p.
          Sound-bind _ _ (Serves inst.spec.ports) _
            (reported-Sound _ _ _ (services_by-Sound env _ inst.spec.ports))
            (λ svc serves.
              Fine-bind _ _ _ (reported-Sound _ _ _ (ingress-Fine env _ _ svc))
                (λ ing. status-Fine p svc ing serves))))

  module _ (order : Dict Text → List (Text × Text)) (env : Text → Text) (now : InstanceClock) where
    after_parent-Fine :
        (inst : InstanceLab M.Quantity) (o : Option (ClusterLab M.Quantity))
        → Fine (after_parent M C order env now inst o)
    unfolding after_parent wait_for_parent
    after_parent-Fine inst none = Fine-bind _ _ _ (Fine-attempt _) (λ a. Fine-pure _)
    after_parent-Fine inst (some lab) =
        Fine-bind _ _ _ (provision-Fine now inst order env lab) (λ a. Fine-pure _)

    instance-Fine :
        (inst : InstanceLab M.Quantity) (t : Option ℤ)
        → Fine (reconcile_instance M C order env now inst t)
    unfolding reconcile_instance add_instance_finalizer
    instance-Fine inst (some t) = finalizer-Fine inst
    instance-Fine inst none =
        Sound-if (M.contains_finalizer inst.metadata instance_lab_finalizer) _ _ _
          (Fine-bind _ _ _ (resolve-Fine inst)
            (λ parent. after_parent-Fine parent.inst parent.cluster))
          (Fine-bind _ _ _ (Fine-of _ (R.update instancelab _)) (λ a. Fine-pure _))

    found-Fine :
        (r : Result (InstanceLab M.Quantity))
        → Outcome (λ i. Unit {0}) r
        → Fine (reconcile_instance_found M C order env now r)
    unfolding reconcile_instance_found
    found-Fine (ok inst) h = instance-Fine inst _
    found-Fine (err e) h = Sound-if (is_not_found e) _ _ _ (Fine-pure _) (Sound-fail _ e h)

    -- No run of the InstanceLab controller, in no cluster and on no instance, follows a nil pointer:
    -- the service and the pod that the status looks at are there whenever it looks. The client is
    -- assumed to answer with errors and not to panic.
    pub reconcile_instance_lab_no_nil :
        (req : NamespacedName) (w : C.World)
        → (reconcile_instance_lab M C order env now req w).0 ≢ err nil_dereference
    unfolding reconcile_instance_lab
    reconcile_instance_lab_no_nil req w h =
        let fine : Fine (reconcile_instance_lab M C order env now req) =
          Sound-bind _ _ _ _ (Sound-attempt _ _ (Fine-reads _ (R.get instancelab req)))
            found-Fine in
        (rw h at (fine.at w)) refl
