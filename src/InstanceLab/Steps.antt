-- ===== src/InstanceLab/Steps.antt =====
-- The objects that the InstanceLab controller installs, and what each of its steps keeps.
use notebook_operator.Base.{◌≡◌, ◌≢◌, refl, false, none, some, Option, List, [], ◌∷◌, map, arith}
use notebook_operator.Base.Text.{Text, codes}
use notebook_operator.Base.Dict.{Dict, lookup, lookup-insert}
use notebook_operator.Exec.{Result, ok, err, Exec}
use notebook_operator.Exec.Keeps.{Keeps, Keeps-bind, Keeps-pure, keeps_rules}
use notebook_operator.InstanceLab.Status.{InstanceClock}
use notebook_operator.Kube.Meta.{ObjectMeta, NamespacedName}
use notebook_operator.Kube.Objects.{PersistentVolumeClaim, Service, Ingress}
use notebook_operator.Kube.Pod.{Pod}
use notebook_operator.Api.InstanceLab.{InstanceLab, InstanceLabPort, InstanceLabAccessEndpoint}
use notebook_operator.Client.{
  Kind, Obj, Client, Machinery, instancelab, pvc, pod, service, ingress, metadata_of,
}
use notebook_operator.Client.Laws.{IsLawful}
use notebook_operator.Client.Found.{Found, Keeps-status, Keeps-change}
use notebook_operator.InstanceLab.Objects.{
  label_instance_lab, object_name, pod_name, instance_labels, with_instance_labels,
}
use notebook_operator.Kube.Pod.{Volume, VolumeMount}
use notebook_operator.InstanceLab.Pod.{sysbox_pod, reconcile_sysbox_pod}
use notebook_operator.InstanceLab.Network.{
  service_port, exposed_ports, instance_service, instance_ingress, services_by, reconcile_services,
  instance_ingress_by, reconcile_instance_ingress,
}
use notebook_operator.InstanceLab.Status.{
  report_instance, update_instance_lab_status, update_instance_status_failed,
}
use notebook_operator.InstanceLab.Reconcile.{instance_report_by, instance_reported}

module _ {Quantity : Type 0} (inst : InstanceLab Quantity) where
  -- The label by which the finalizer finds the instance's objects.
  abbrev pub IsLabelled : ObjectMeta → Type 0
  IsLabelled m = lookup label_instance_lab m.labels ≡ some inst.metadata.name

  pub with_instance_labels-IsLabelled : (m : ObjectMeta) → IsLabelled (with_instance_labels inst m)
  unfolding with_instance_labels instance_labels
  with_instance_labels-IsLabelled m = rw lookup-insert (ground arith)

  -- The service and the pod's `app` label agree.
  abbrev pub Selects : Service → Type 0
  Selects svc =
      IsLabelled svc.metadata
      × (svc.spec.selector ≡ (codes "app", pod_name inst) ∷ [])
      × (svc.spec.ports ≡ map service_port inst.spec.ports)

  abbrev pub Runs : Pod Quantity → Type 0
  Runs p = IsLabelled p.metadata × (lookup (codes "app") p.metadata.labels ≡ some (pod_name inst))

module _ (M : Machinery) (C : Client M.Quantity) (inst : InstanceLab M.Quantity) where
  label_apart : label_instance_lab ≢ codes "app"
  unfolding codes
  label_apart e = cc

  pub sysbox_pod-Runs :
      (volumes : List (Volume M.Quantity)) (mounts : List VolumeMount) (p : Pod M.Quantity)
      → Runs inst (sysbox_pod M inst volumes mounts p)
  unfolding sysbox_pod
  sysbox_pod-Runs volumes mounts p = (
    ground (
      arith,
      label_apart,
      with_instance_labels-IsLabelled inst p.metadata,
      lookup-insert (codes "app") label_instance_lab (pod_name inst)
          (with_instance_labels inst p.metadata).labels,
    ),
    ground (
      arith,
      lookup-insert (codes "app") (codes "app") (pod_name inst)
          (with_instance_labels inst p.metadata).labels,
    ),
  )

  abbrev pub object_key : Text → Text → NamespacedName
  object_key target suffix = record { namespace = target; name = object_name inst suffix }

  abbrev pub Labelled : (k : Kind) → Obj M.Quantity k → Type 0
  Labelled k x = IsLabelled inst (metadata_of M.Quantity k x)

  -- The objects of the instance are in the target namespace: the pod always, the claim with a storage
  -- limit, the service with ports, and the ingress with exposed ports.
  pub record IsInstalled (target : Text) (w : C.World) : Type 0 where
    pub claim :
        M.is_zero inst.spec.resources.storage.limit ≡ false
        → Found C pvc (object_key target (codes "-workspace")) (Labelled pvc) w
    pub machine : Found C pod (object_key target (codes "-sysbox")) (Runs inst) w
    pub served :
        inst.spec.ports ≢ [] → Found C service (object_key target (codes "-svc")) (Selects inst) w
    pub routed :
        exposed_ports inst.spec.ports ≢ []
        → Found C ingress (object_key target (codes "-ingress")) (Labelled ingress) w

  module _ (L : IsLawful C) (now : InstanceClock) where
    module _ (j : Kind) (key : NamespacedName) (Q : Obj M.Quantity j → Type 0)
        (apart : instancelab ≢ j) where
      pub report_by-Keeps :
          {A : Type 0} (reason : Text) (r : Result A)
          → Keeps (Found C j key Q) (instance_report_by M C now inst reason r)
      unfolding instance_report_by update_instance_status_failed
      report_by-Keeps reason (ok a) = search keeps_rules
      report_by-Keeps reason (err e) =
          search (keeps_rules, Keeps-status C L j key Q instancelab apart)

      pub reported-Keeps :
          {A : Type 0} (reason : Text) (m : Exec C.World A)
          → Keeps (Found C j key Q) m
          → Keeps (Found C j key Q) (instance_reported M C now inst reason m)
      unfolding instance_reported
      reported-Keeps reason m k = search (keeps_rules, report_by-Keeps)

      pub pod-Keeps :
          pod ≢ j
          → (order : Dict Text → List (Text × Text)) (target : Text)
            (claim : Option (PersistentVolumeClaim M.Quantity))
          → Keeps (Found C j key Q) (reconcile_sysbox_pod M C order inst target claim)
      unfolding reconcile_sysbox_pod sysbox_pod
      pod-Keeps ne order target claim = Keeps-change C L j key Q pod _ _ ne (λ x. refl)

      services_by-Keeps :
          service ≢ j
          → (env : Text → Text) (target : Text) (ports : List InstanceLabPort)
          → Keeps (Found C j key Q) (services_by M C env inst target ports)
      unfolding services_by instance_service
      services_by-Keeps ne env target [] = search keeps_rules
      services_by-Keeps ne env target (p ∷ ports) =
          Keeps-bind _ _ (Keeps-change C L j key Q service _ (instance_service inst) ne (λ x. refl))
            (λ a. Keeps-pure _)

      pub services-Keeps :
          service ≢ j
          → (env : Text → Text) (target : Text)
          → Keeps (Found C j key Q) (reconcile_services M C env inst target)
      unfolding reconcile_services
      services-Keeps ne env target = services_by-Keeps ne env target inst.spec.ports

      ingress_by-Keeps :
          ingress ≢ j
          → (env : Text → Text) (name target : Text) (svc : Service) (ports : List InstanceLabPort)
          → Keeps (Found C j key Q) (instance_ingress_by M C env inst name target svc ports)
      unfolding instance_ingress_by instance_ingress
      ingress_by-Keeps ne env name target svc [] = search keeps_rules
      ingress_by-Keeps ne env name target svc (p ∷ ports) =
          Keeps-bind _ _
            (Keeps-change C L j key Q ingress _ (instance_ingress inst env name svc.metadata.name)
              ne (λ x. refl))
            (λ a. Keeps-pure _)

      pub ingress-Keeps :
          ingress ≢ j
          → (env : Text → Text) (name target : Text) (svc : Option Service)
          → Keeps (Found C j key Q) (reconcile_instance_ingress M C env inst name target svc)
      unfolding reconcile_instance_ingress
      ingress-Keeps ne env name target none = search keeps_rules
      ingress-Keeps ne env name target (some svc) = ingress_by-Keeps ne env name target svc _

      report-Keeps :
          (p : Option (Pod M.Quantity)) (o : Option (List InstanceLabAccessEndpoint))
          → Keeps (Found C j key Q) (report_instance M now C inst p o)
      unfolding report_instance
      report-Keeps p none = search keeps_rules
      report-Keeps p (some endpoints) =
          search (keeps_rules, Keeps-status C L j key Q instancelab apart)

      pub status-Keeps :
          (p : Option (Pod M.Quantity)) (svc : Option Service) (ing : Option Ingress)
          → Keeps (Found C j key Q) (update_instance_lab_status M now C inst p svc ing)
      unfolding update_instance_lab_status
      status-Keeps p svc ing = report-Keeps p _
