-- ===== src/InstanceLab/Installs.antt =====
-- What each step of the InstanceLab controller leaves in the cluster if it succeeds.
use notebook_operator.Base.{◌≡◌, ◌≢◌, refl, false, none, some, Option, List, [], ◌∷◌}
use notebook_operator.Base.Text.{Text, codes}
use notebook_operator.Base.Dict.{Dict}
use notebook_operator.Exec.{Result, ok, err, Exec}
use notebook_operator.Exec.Ensures.{
  Ensures, Returned, Any, Ensures-pure, Ensures-fail, Ensures-bind, Ensures-attempt, Ensures-any,
  Ensures-weaken,
}
use notebook_operator.InstanceLab.Status.{InstanceClock}
use notebook_operator.Kube.Objects.{PersistentVolumeClaim, Service}
use notebook_operator.Api.InstanceLab.{InstanceLab, InstanceLabPort}
use notebook_operator.Client.{Client, Machinery, pvc, pod, service, ingress}
use notebook_operator.Client.Laws.{IsLawful}
use notebook_operator.Client.Found.{Found, change-Ensures}
use notebook_operator.InstanceLab.Objects.{instance_claim, reconcile_instance_pvc}
use notebook_operator.InstanceLab.Pod.{
  lxcfs_mounts, sysbox_pod, sysbox_volumes, sysbox_mounts, reconcile_sysbox_pod,
}
use notebook_operator.InstanceLab.Network.{
  exposed_ports, instance_service, instance_ingress, services_by, instance_ingress_by,
  reconcile_instance_ingress,
}
use notebook_operator.InstanceLab.Status.{update_instance_status_failed}
use notebook_operator.InstanceLab.Reconcile.{instance_report_by, instance_reported}
use notebook_operator.InstanceLab.Steps.{
  object_key, Labelled, Runs, Selects, with_instance_labels-IsLabelled, sysbox_pod-Runs,
}

module _ (M : Machinery) (C : Client M.Quantity) (inst : InstanceLab M.Quantity) (L : IsLawful C)
    (now : InstanceClock) where
  -- A step that is reported ensures what it does itself.
  pub reported-Ensures :
      {A : Type 0} (Q : A → C.World → Type 0) (reason : Text) (m : Exec C.World A)
      → Ensures Any m Q
      → Ensures Any (instance_reported M C now inst reason m) Q
  unfolding instance_reported instance_report_by update_instance_status_failed
  reported-Ensures {A} Q reason m e = Ensures-bind _ _ (Ensures-attempt Any m Q e) by_result
    where
      by_result :
          (r : Result A) → Ensures (Returned Q r) (instance_report_by M C now inst reason r) Q
      by_result (ok done) = Ensures-pure done (λ w h. h)
      by_result (err f) = Ensures-bind _ _ (Ensures-any _ _) (λ x. Ensures-fail f)

  pub claim-Ensures :
      (target : Text)
      → M.is_zero inst.spec.resources.storage.limit ≡ false
      → Ensures Any (reconcile_instance_pvc M C inst target) (λ _.
        Found C pvc (object_key M C inst target (codes "-workspace")) (Labelled M C inst pvc))
  unfolding reconcile_instance_pvc instance_claim
  claim-Ensures target some_storage = rw some_storage (
      Ensures-bind
        {R = λ _.
          Found C pvc (object_key M C inst target (codes "-workspace")) (Labelled M C inst pvc)}
        _ _
        (change-Ensures C L pvc _ (instance_claim inst) (Labelled M C inst pvc) (λ e. cc)
          (λ x. refl) (λ x. with_instance_labels-IsLabelled inst x.metadata))
        (λ x. Ensures-pure _ (λ w h. h)))

  pub pod-Ensures :
      (order : Dict Text → List (Text × Text)) (target : Text)
      (claim : Option (PersistentVolumeClaim M.Quantity))
      → Ensures Any
          (reconcile_sysbox_pod M C order inst target claim)
          (λ _. Found C pod (object_key M C inst target (codes "-sysbox")) (Runs inst))
  unfolding reconcile_sysbox_pod
  pod-Ensures order target claim =
      change-Ensures C L pod _
        (sysbox_pod M inst (sysbox_volumes (order lxcfs_mounts) claim)
          (sysbox_mounts (order lxcfs_mounts) claim))
        (Runs inst) (λ e. cc) (λ x. unfold sysbox_pod in refl) (λ x. sysbox_pod-Runs M C inst _ _ x)

  pub services_by-Ensures :
      (env : Text → Text) (target : Text) (ports : List InstanceLabPort)
      → ports ≢ []
      → Ensures Any
          (services_by M C env inst target ports)
          (λ _. Found C service (object_key M C inst target (codes "-svc")) (Selects inst))
  unfolding services_by instance_service
  services_by-Ensures env target [] ne = absurd (ne refl)
  services_by-Ensures env target (p ∷ ports) ne =
      Ensures-bind
        {R = λ _. Found C service (object_key M C inst target (codes "-svc")) (Selects inst)} _ _
        (change-Ensures C L service _ (instance_service inst) (Selects inst) (λ e. cc) (λ x. refl)
          (λ x. (with_instance_labels-IsLabelled inst x.metadata, refl, refl)))
        (λ x. Ensures-pure _ (λ w h. h))

  -- There is a service to route to.
  pub services_by-some :
      (env : Text → Text) (target : Text) (ports : List InstanceLabPort)
      → ports ≢ []
      → Ensures Any (services_by M C env inst target ports) (λ svc w. svc ≢ none)
  unfolding services_by
  services_by-some env target [] ne = absurd (ne refl)
  services_by-some env target (p ∷ ports) ne =
      Ensures-bind _ _ (Ensures-any Any _) (λ x. Ensures-pure _ (λ w h e. cc))

  ingress_by-Ensures :
      (env : Text → Text) (name target : Text) (svc : Service) (ports : List InstanceLabPort)
      → ports ≢ []
      → Ensures Any (instance_ingress_by M C env inst name target svc ports) (λ _.
        Found C ingress (object_key M C inst target (codes "-ingress")) (Labelled M C inst ingress))
  unfolding instance_ingress_by instance_ingress
  ingress_by-Ensures env name target svc [] ne = absurd (ne refl)
  ingress_by-Ensures env name target svc (p ∷ ports) ne =
      Ensures-bind
        {R = λ _.
          Found C ingress (object_key M C inst target (codes "-ingress"))
            (Labelled M C inst ingress)}
        _ _
        (change-Ensures C L ingress _ (instance_ingress inst env name svc.metadata.name)
          (Labelled M C inst ingress) (λ e. cc) (λ x. refl)
          (λ x. with_instance_labels-IsLabelled inst x.metadata))
        (λ x. Ensures-pure _ (λ w h. h))

  pub ingress-Ensures :
      (env : Text → Text) (name target : Text) (svc : Option Service)
      → exposed_ports inst.spec.ports ≢ []
      → Ensures
          (λ w. svc ≢ none)
          (instance_reported M C now inst
            (codes "IngressError")
            (reconcile_instance_ingress M C env inst name target svc))
          (λ _.
            Found C ingress
              (object_key M C inst target (codes "-ingress"))
              (Labelled M C inst ingress))
  unfolding reconcile_instance_ingress
  ingress-Ensures env name target none ne = record { at = λ w h. absurd (h refl) }
  ingress-Ensures env name target (some svc) ne =
      Ensures-weaken Any _ _ _ (λ w h. tt)
        (reported-Ensures _ _ _
          (ingress_by-Ensures env name target svc (exposed_ports inst.spec.ports) ne))
