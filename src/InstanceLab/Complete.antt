-- ===== src/InstanceLab/Complete.antt =====
-- What a successful run of the InstanceLab controller leaves in the cluster.
use notebook_operator.Base.{◌≡◌, ◌≢◌, ◌∙◌, ap, true, false, none, some, [], ◌∷◌, List}
use notebook_operator.Base.Int.{pos}
use notebook_operator.Base.Text.{Text, codes}
use notebook_operator.Base.Dict.{Dict}
use notebook_operator.Base.Duration.{Duration}
use notebook_operator.Exec.{ok, pure, ◌>>=◌, >>=-eq-ok}
use notebook_operator.Exec.Keeps.{Keeps-bind}
use notebook_operator.Exec.Ensures.{Ensures, Any, Ensures-bind, Ensures-any, Ensures-of-Keeps}
use notebook_operator.InstanceLab.Status.{InstanceClock}
use notebook_operator.Kube.Meta.{NamespacedName}
use notebook_operator.Api.ClusterLab.{ClusterLab}
use notebook_operator.Api.InstanceLab.{InstanceLab, InstanceLabPort}
use notebook_operator.Client.{Client, Machinery, instancelab, pvc, pod, service, ingress}
use notebook_operator.Client.Laws.{IsLawful}
use notebook_operator.Client.Found.{Found}
use notebook_operator.ClusterLab.Reconcile.{doomed_namespace}
use notebook_operator.InstanceLab.Network.{exposed_ports, reconcile_services}
use notebook_operator.InstanceLab.Reconcile.{
  Parent, provision_instance, resolve_parent_cluster_lab, after_parent, reconcile_instance,
  reconcile_instance_found, reconcile_instance_lab, instance_lab_finalizer,
}
use notebook_operator.InstanceLab.Steps.{
  IsInstalled, Labelled, Runs, Selects, object_key, reported-Keeps, pod-Keeps, services-Keeps,
  ingress-Keeps, status-Keeps,
}
use notebook_operator.InstanceLab.Installs.{
  reported-Ensures, claim-Ensures, pod-Ensures, services_by-Ensures, ingress-Ensures,
  services_by-some,
}

module _ (M : Machinery) (C : Client M.Quantity) (L : IsLawful C) (now : InstanceClock)
    (order : Dict Text → List (Text × Text)) (env : Text → Text) (inst : InstanceLab M.Quantity)
    (lab : ClusterLab M.Quantity) where
  abbrev target : Text
  target = doomed_namespace lab

  abbrev Provides : (C.World → Type 0) → Type 0
  Provides Q = Ensures Any (provision_instance M C now inst order env lab) (λ _. Q)

  claim-Provided :
      M.is_zero inst.spec.resources.storage.limit ≡ false
      → Provides
          (Found C pvc (object_key M C inst target (codes "-workspace")) (Labelled M C inst pvc))
  unfolding provision_instance
  claim-Provided some_storage =
      Ensures-bind _ _
        (reported-Ensures M C inst L now _ _ _ (claim-Ensures M C inst L now target some_storage))
        (λ claim.
          Ensures-of-Keeps _
            (search (
              Keeps-bind,
              reported-Keeps M C inst L now pvc _ _ (λ e. cc),
              status-Keeps M C inst L now pvc _ _ (λ e. cc),
              pod-Keeps M C inst L now pvc _ _ (λ e. cc) (λ e. cc),
              services-Keeps M C inst L now pvc _ _ (λ e. cc) (λ e. cc),
              ingress-Keeps M C inst L now pvc _ _ (λ e. cc) (λ e. cc),
            ))
            (λ a w h. h))

  pod-Provided : Provides (Found C pod (object_key M C inst target (codes "-sysbox")) (Runs inst))
  unfolding provision_instance
  pod-Provided = Ensures-bind _ _ (Ensures-any Any _) λ claim.
      Ensures-bind _ _
        (reported-Ensures M C inst L now _ _ _ (pod-Ensures M C inst L now order target claim))
        (λ p.
          Ensures-of-Keeps _
            (search (
              Keeps-bind,
              reported-Keeps M C inst L now pod _ _ (λ e. cc),
              status-Keeps M C inst L now pod _ _ (λ e. cc),
              services-Keeps M C inst L now pod _ _ (λ e. cc) (λ e. cc),
              ingress-Keeps M C inst L now pod _ _ (λ e. cc) (λ e. cc),
            ))
            (λ a w h. h))

  service-Provided :
      inst.spec.ports ≢ []
      → Provides (Found C service (object_key M C inst target (codes "-svc")) (Selects inst))
  unfolding provision_instance reconcile_services
  service-Provided ports = Ensures-bind _ _ (Ensures-any Any _) λ claim.
      Ensures-bind _ _ (Ensures-any Any _) λ p.
        Ensures-bind _ _
          (reported-Ensures M C inst L now _ _ _
            (services_by-Ensures M C inst L now env target inst.spec.ports ports))
          (λ svc.
            Ensures-of-Keeps _
              (search (
                Keeps-bind,
                reported-Keeps M C inst L now service _ _ (λ e. cc),
                status-Keeps M C inst L now service _ _ (λ e. cc),
                ingress-Keeps M C inst L now service _ _ (λ e. cc) (λ e. cc),
              ))
              (λ a w h. h))

  some_exposed : (ports : List InstanceLabPort) → exposed_ports ports ≢ [] → ports ≢ []
  unfolding exposed_ports
  some_exposed [] ne e = ne e
  some_exposed (p ∷ ports) ne e = cc

  ingress-Provided :
      exposed_ports inst.spec.ports ≢ []
      → Provides (
          Found C ingress
            (object_key M C inst target (codes "-ingress"))
            (Labelled M C inst ingress))
  unfolding provision_instance reconcile_services
  ingress-Provided exposed = Ensures-bind _ _ (Ensures-any Any _) λ claim.
      Ensures-bind _ _ (Ensures-any Any _) λ p.
        Ensures-bind _ _
          (reported-Ensures M C inst L now _ _ _ (
            services_by-some M C inst L now env target inst.spec.ports
              (some_exposed inst.spec.ports exposed)))
          (λ svc.
            Ensures-bind _ _
              (ingress-Ensures M C inst L now env lab.metadata.name target svc exposed)
              (λ ing.
                Ensures-of-Keeps _ (status-Keeps M C inst L now ingress _ _ (λ e. cc) _ _ _)
                  (λ a w h. h)))

  ends :
      (Q : C.World → Type 0)
      → Provides Q
      → (w : C.World) (a : Unit {0}) → (provision_instance M C now inst order env lab w).0 ≡ ok a
      → Q (provision_instance M C now inst order env lab w).1
  ends Q e w a h = rw h at (e.at w tt)

  provision-IsInstalled :
      (w : C.World) (a : Unit {0})
      → (provision_instance M C now inst order env lab w).0 ≡ ok a
      → IsInstalled M C inst target (provision_instance M C now inst order env lab w).1
  provision-IsInstalled w a h = record {
    claim = λ e. ends _ (claim-Provided e) w a h;
    machine = ends _ pod-Provided w a h;
    served = λ e. ends _ (service-Provided e) w a h;
    routed = λ e. ends _ (ingress-Provided e) w a h;
  }

module _ (M : Machinery) (C : Client M.Quantity) (order : Dict Text → List (Text × Text))
    (env : Text → Text) (now : InstanceClock) where
  -- A run on an instance that is there with its finalizer, up to its parent.
  pub instance_unfolded :
      (req : NamespacedName) (inst : InstanceLab M.Quantity) (p : Parent M.Quantity)
      (w w' : C.World)
      → C.get instancelab req w ≡ ok inst
      → inst.metadata.deletion_timestamp ≡ none
      → M.contains_finalizer inst.metadata instance_lab_finalizer ≡ true
      → resolve_parent_cluster_lab M C inst w ≡ (ok p, w')
      → reconcile_instance_lab M C order env now req w
        ≡ after_parent M C order env now p.inst p.cluster w'
  unfolding reconcile_instance_lab reconcile_instance_found reconcile_instance ◌>>=◌
  instance_unfolded req inst p w w' found alive has parent =
      ap (λ r. reconcile_instance_found M C order env now r w) found
      ∙ ap (λ t. reconcile_instance M C order env now inst t w) alive
      ∙ rw (has, parent)

  after_parent-IsInstalled :
      IsLawful C
      → (inst : InstanceLab M.Quantity) (lab : ClusterLab M.Quantity) (w : C.World) (d : Duration)
      → (after_parent M C order env now inst (some lab) w).0 ≡ ok d
      → IsInstalled M C inst
          (doomed_namespace lab)
          (after_parent M C order env now inst (some lab) w).1
  unfolding after_parent ◌>>=◌
  after_parent-IsInstalled L inst lab w d h =
      let (a, done, whole) =
        >>=-eq-ok (provision_instance M C now inst order env lab) (λ _. pure (pos 0)) w d h in
      rw whole (provision-IsInstalled M C L now order env inst lab w a done)

  -- If a run on an instance that has its finalizer, is not being deleted and has a ready parent
  -- returns no error, then at its end its objects are in the parent's target namespace: the pod, the
  -- claim if there is a storage limit, the service if there are ports, which selects the pod's label
  -- and has one port for each port, and the ingress if a port is exposed; and each carries the label
  -- of the instance. The client is assumed to obey its laws.
  pub reconcile_instance_lab-IsInstalled :
      IsLawful C
      → (req : NamespacedName) (inst : InstanceLab M.Quantity) (p : Parent M.Quantity)
        (lab : ClusterLab M.Quantity) (w w' : C.World) (d : Duration)
      → C.get instancelab req w ≡ ok inst
      → inst.metadata.deletion_timestamp ≡ none
      → M.contains_finalizer inst.metadata instance_lab_finalizer ≡ true
      → resolve_parent_cluster_lab M C inst w ≡ (ok p, w')
      → p.cluster ≡ some lab
      → (reconcile_instance_lab M C order env now req w).0 ≡ ok d
      → IsInstalled M C p.inst
          (doomed_namespace lab)
          (reconcile_instance_lab M C order env now req w).1
  reconcile_instance_lab-IsInstalled L req inst p lab w w' d found alive has parent ready h =
      let e =
        instance_unfolded req inst p w w' found alive has parent
        ∙ ap (λ o. after_parent M C order env now p.inst o w') ready in
      rw e (after_parent-IsInstalled L p.inst lab w' d (rw e at h))
