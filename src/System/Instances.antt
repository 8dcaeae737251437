-- ===== src/System/Instances.antt =====
-- What a run of the InstanceLab controller leaves alone.
use notebook_operator.Base.{
  ◌≡◌, ◌≢◌, refl, ap, inl, Bool, true, false, Option, none, some, List, [], ◌∷◌,
}
use notebook_operator.Base.Int.{ℤ}
use notebook_operator.Base.Text.{Text}
use notebook_operator.Base.Dict.{Dict}
use notebook_operator.Exec.{Failure, Result, ok, err, Exec, ◌>>=◌}
use notebook_operator.Exec.Keeps.{Keeps, Keeps-bind, Keeps-pure, Keeps-if, keeps_rules}
use notebook_operator.InstanceLab.Status.{InstanceClock}
use notebook_operator.Kube.Meta.{ObjectMeta, NamespacedName}
use notebook_operator.Kube.Objects.{PersistentVolumeClaim, Service, Ingress}
use notebook_operator.Kube.Pod.{Pod}
use notebook_operator.Api.ClusterLab.{ClusterLab}
use notebook_operator.Api.InstanceLab.{InstanceLab, InstanceLabPort, InstanceLabAccessEndpoint}
use notebook_operator.Client.{Kind, Obj, Client, Machinery, instancelab, pvc, pod, service, ingress}
use notebook_operator.Client.Laws.{IsLawful}
use notebook_operator.Client.Frame.{
  Still, update-Still, update_status-Still, delete_all_of-Still, create_or_update-Still,
}
use notebook_operator.InstanceLab.Objects.{instance_claim, reconcile_instance_pvc}
use notebook_operator.InstanceLab.Pod.{sysbox_pod, reconcile_sysbox_pod}
use notebook_operator.InstanceLab.Network.{
  instance_service, instance_ingress, services_by, reconcile_services, instance_ingress_by,
  reconcile_instance_ingress,
}
use notebook_operator.InstanceLab.Status.{
  report_instance, update_instance_lab_status, update_instance_status_failed,
}
use notebook_operator.InstanceLab.Reconcile.{
  adopt, resolve_by, resolve_parent_cluster_lab, clean_up, remove_instance_finalizer,
  finalize_instance, reconcile_instance_finalizer, add_instance_finalizer, wait_for_parent,
  instance_report_by, instance_reported, provision_instance, after_parent, reconcile_instance,
  reconcile_instance_found, reconcile_instance_lab,
}

-- The controller writes no object of that kind.
pub record IsUntouched (j : Kind) : Type 0 where
  pub instances : instancelab ≢ j
  pub claims : pvc ≢ j
  pub pods : pod ≢ j
  pub services : service ≢ j
  pub ingresses : ingress ≢ j

-- The kinds that the controller writes.
abbrev pub is_written : Kind → Bool
is_written instancelab = true
is_written pvc = true
is_written pod = true
is_written service = true
is_written ingress = true
is_written _ = false

pub unwritten-IsUntouched : {j : Kind} → is_written j ≡ false → IsUntouched j
unwritten-IsUntouched h = record {
  instances = λ e. cc (ap is_written e);
  claims = λ e. cc (ap is_written e);
  pods = λ e. cc (ap is_written e);
  services = λ e. cc (ap is_written e);
  ingresses = λ e. cc (ap is_written e);
}

module _ (M : Machinery) (C : Client M.Quantity) (L : IsLawful C) (j : Kind) (u : IsUntouched j)
    (key : NamespacedName) (r : Result (Obj M.Quantity j)) where
  abbrev Same : C.World → Type 0
  Same = Still C L j key r

  instance_update : (o : InstanceLab M.Quantity) → Keeps Same (C.update instancelab o)
  instance_update o = update-Still C L j key r instancelab o (inl u.instances)

  instance_status : (o : InstanceLab M.Quantity) → Keeps Same (C.update_status instancelab o)
  instance_status o = update_status-Still C L j key r instancelab o (inl u.instances)

  module _ (inst : InstanceLab M.Quantity) where
    adopt-Still : (s : Result ObjectMeta) → Keeps Same (adopt M C inst s)
    unfolding adopt
    adopt-Still (ok m) = search (keeps_rules, instance_update)
    adopt-Still (err e) = search keeps_rules

    resolve_by-Still : (s : Result (ClusterLab M.Quantity)) → Keeps Same (resolve_by M C inst s)
    unfolding resolve_by
    resolve_by-Still (ok lab) = search (keeps_rules, adopt-Still)
    resolve_by-Still (err e) = search keeps_rules

    parent-Still : Keeps Same (resolve_parent_cluster_lab M C inst)
    unfolding resolve_parent_cluster_lab
    parent-Still = search (keeps_rules, resolve_by-Still)

    clean_up-Still : (ns : Text) → Keeps Same (clean_up M C inst ns)
    unfolding clean_up
    clean_up-Still ns =
        search
          (
            keeps_rules,
            delete_all_of-Still C L j key r ingress _ _ u.ingresses,
            delete_all_of-Still C L j key r service _ _ u.services,
            delete_all_of-Still C L j key r pod _ _ u.pods,
            delete_all_of-Still C L j key r pvc _ _ u.claims,
          )
          depth 9

    finalizer-Still : Keeps Same (reconcile_instance_finalizer M C inst)
    unfolding reconcile_instance_finalizer finalize_instance remove_instance_finalizer
    finalizer-Still = search (keeps_rules, clean_up-Still, instance_update)

    add-Still : Keeps Same (add_instance_finalizer M C inst)
    unfolding add_instance_finalizer
    add-Still = search (keeps_rules, instance_update)

    module _ (now : InstanceClock) where
      wait-Still : Keeps Same (wait_for_parent M C now inst)
      unfolding wait_for_parent
      wait-Still = search (keeps_rules, instance_status)

      failed-Still :
          (reason : Text) (e : Failure)
          → Keeps Same (update_instance_status_failed M now C inst reason e)
      unfolding update_instance_status_failed
      failed-Still reason e = search (keeps_rules, instance_status)

      report_by-Still :
          {A : Type 0} (reason : Text) (s : Result A)
          → Keeps Same (instance_report_by M C now inst reason s)
      unfolding instance_report_by
      report_by-Still reason (ok a) = search keeps_rules
      report_by-Still reason (err e) = search (keeps_rules, failed-Still)

      step-Still :
          {A : Type 0} (reason : Text) (m : Exec C.World A)
          → Keeps Same m
          → Keeps Same (instance_reported M C now inst reason m)
      unfolding instance_reported
      step-Still reason m k = search (keeps_rules, report_by-Still)

      report-Still :
          (p : Option (Pod M.Quantity)) (o : Option (List InstanceLabAccessEndpoint))
          → Keeps Same (report_instance M now C inst p o)
      unfolding report_instance
      report-Still p none = search keeps_rules
      report-Still p (some endpoints) = search (keeps_rules, instance_status)

      status-Still :
          (p : Option (Pod M.Quantity)) (svc : Option Service) (ing : Option Ingress)
          → Keeps Same (update_instance_lab_status M now C inst p svc ing)
      unfolding update_instance_lab_status
      status-Still p svc ing = report-Still p _

    claim-Still : (ns : Text) → Keeps Same (reconcile_instance_pvc M C inst ns)
    unfolding reconcile_instance_pvc instance_claim
    claim-Still ns = Keeps-if _ _ _ (Keeps-pure _) (
        Keeps-bind _ _
          (create_or_update-Still C L j key r pvc _ (instance_claim inst) (λ x. refl)
            (inl u.claims))
          (λ a. Keeps-pure _))

    pod-Still :
        (order : Dict Text → List (Text × Text)) (ns : Text)
        (claim : Option (PersistentVolumeClaim M.Quantity))
        → Keeps Same (reconcile_sysbox_pod M C order inst ns claim)
    unfolding reconcile_sysbox_pod sysbox_pod
    pod-Still order ns claim = create_or_update-Still C L j key r pod _ _ (λ x. refl) (inl u.pods)

    services_by-Still :
        (env : Text → Text) (ns : Text) (ports : List InstanceLabPort)
        → Keeps Same (services_by M C env inst ns ports)
    unfolding services_by instance_service
    services_by-Still env ns [] = search keeps_rules
    services_by-Still env ns (p ∷ ports) =
        Keeps-bind _ _
          (create_or_update-Still C L j key r service _ (instance_service inst) (λ x. refl)
            (inl u.services))
          (λ a. Keeps-pure _)

    ingress_by-Still :
        (env : Text → Text) (name ns : Text) (svc : Service) (ports : List InstanceLabPort)
        → Keeps Same (instance_ingress_by M C env inst name ns svc ports)
    unfolding instance_ingress_by instance_ingress
    ingress_by-Still env name ns svc [] = search keeps_rules
    ingress_by-Still env name ns svc (p ∷ ports) =
        Keeps-bind _ _
          (create_or_update-Still C L j key r ingress _
            (instance_ingress inst env name svc.metadata.name) (λ x. refl) (inl u.ingresses))
          (λ a. Keeps-pure _)

    ingress-Still :
        (env : Text → Text) (name ns : Text) (svc : Option Service)
        → Keeps Same (reconcile_instance_ingress M C env inst name ns svc)
    unfolding reconcile_instance_ingress
    ingress-Still env name ns none = search keeps_rules
    ingress-Still env name ns (some svc) = ingress_by-Still env name ns svc _

    services-Still :
        (env : Text → Text) (ns : Text) → Keeps Same (reconcile_services M C env inst ns)
    unfolding reconcile_services
    services-Still env ns = services_by-Still env ns inst.spec.ports

  module _ (order : Dict Text → List (Text × Text)) (env : Text → Text) (now : InstanceClock) where
    provision-Still :
        (inst : InstanceLab M.Quantity) (lab : ClusterLab M.Quantity)
        → Keeps Same (provision_instance M C now inst order env lab)
    unfolding provision_instance
    provision-Still inst lab =
        search
          (
            keeps_rules, step-Still, claim-Still, pod-Still, services-Still, ingress-Still,
            status-Still,
          )
          depth 9

    after-Still :
        (inst : InstanceLab M.Quantity) (o : Option (ClusterLab M.Quantity))
        → Keeps Same (after_parent M C order env now inst o)
    unfolding after_parent
    after-Still inst none = wait-Still inst now
    after-Still inst (some lab) = search (keeps_rules, provision-Still)

    instance-Still :
        (inst : InstanceLab M.Quantity) (t : Option ℤ)
        → Keeps Same (reconcile_instance M C order env now inst t)
    unfolding reconcile_instance
    instance-Still inst (some t) = finalizer-Still inst
    instance-Still inst none = search (keeps_rules, parent-Still, after-Still, add-Still)

    found-Still :
        (s : Result (InstanceLab M.Quantity))
        → Keeps Same (reconcile_instance_found M C order env now s)
    unfolding reconcile_instance_found
    found-Still (ok inst) = instance-Still inst _
    found-Still (err e) = search keeps_rules

    -- The run leaves the object as it is, whatever it answers.
    pub instance_run-Still :
        (req : NamespacedName) (w : C.World)
        → Same w
        → Same (reconcile_instance_lab M C order env now req w).1
    unfolding reconcile_instance_lab ◌>>=◌
    instance_run-Still req w same = (found-Still (C.get instancelab req w)).at w same
