-- ===== src/System/Handover.antt =====
-- A run of the ClusterLab controller, and later one of the InstanceLab controller on an instance in
-- the namespace that the first has made.
use notebook_operator.Base.{ap, ◌∙◌, ◌≤◌, ◌≡◌, subst, Option, none, some, true, false, List, length}
use notebook_operator.Base.Text.{Text}
use notebook_operator.Base.Dict.{Dict}
use notebook_operator.Base.Duration.{Duration}
use notebook_operator.Exec.{ok}
use notebook_operator.InstanceLab.Status.{InstanceClock}
use notebook_operator.Kube.Meta.{NamespacedName}
use notebook_operator.Api.ClusterLab.{ClusterLab}
use notebook_operator.Api.InstanceLab.{InstanceLab}
use notebook_operator.Client.{Client, Machinery, clusterlab, instancelab}
use notebook_operator.Client.Laws.{IsLawful, KeepsNames}
use notebook_operator.ClusterLab.Status.{LabClock}
use notebook_operator.ClusterLab.Reconcile.{
  Ttl, cluster_lab_finalizer, with_target, reconcile_ttl, reconcile_cluster_lab,
}
use notebook_operator.ClusterLab.Governed.{IsGoverned, target}
use notebook_operator.ClusterLab.Complete.{reconcile_cluster_lab-IsGoverned}
use notebook_operator.InstanceLab.Reconcile.{
  Parent, parent_key, resolve_parent_cluster_lab, reconcile_instance_lab, instance_lab_finalizer,
}
use notebook_operator.InstanceLab.Parents.{parent_read}
use notebook_operator.Utils.Names.{generate_target_namespace}
use notebook_operator.InstanceLab.Steps.{IsInstalled}
use notebook_operator.InstanceLab.Complete.{reconcile_instance_lab-IsInstalled}
use notebook_operator.System.Owned.{TellsStatus, Owned}
use notebook_operator.System.OwnedRuns.{lab_run-Owned}
use notebook_operator.System.Steps.{Runs, then_instance}
use notebook_operator.System.Neighbours.{Neighbouring, Respects, Runs-IsGoverned}

module _ (M : Machinery) (C : Client M.Quantity) (L : IsLawful C) (N : KeepsNames M)
    (S : TellsStatus C) (parse_duration : Text → Option Duration)
    (order : Dict Text → List (Text × Text)) (env : Text → Text) where
  -- Let no status of a cluster lab name another namespace than the one made of its name, and let a run
  -- on a cluster lab with a name of at most 59 bytes, which has its finalizer, is not being deleted
  -- and has not expired, return no error. After it let any runs of the InstanceLab controller follow,
  -- and runs of the ClusterLab controller that find other cluster labs with other names of at most 59
  -- bytes, and anything else that leaves the target namespace and its quotas and policies alone and
  -- puts no other namespace into a status. If then a run on an instance that has its finalizer, is not
  -- being deleted and has a ready parent of the name of that cluster lab returns no error, at its end
  -- the objects of the instance are in that target namespace, and the namespace has the quota and the
  -- isolating policy of the cluster lab. The client is assumed to obey its laws and to store what it
  -- is told of cluster labs, and the finalizer helpers to leave names alone.
  pub lab_hands_over :
      (clock : LabClock) (req : NamespacedName) (lab : ClusterLab M.Quantity) (t : Ttl M.Quantity)
      (w : C.World) (d : Duration)
      → C.get clusterlab req w ≡ ok lab
      → lab.metadata.deletion_timestamp ≡ none
      → M.contains_finalizer lab.metadata cluster_lab_finalizer ≡ true
      → reconcile_ttl parse_duration clock (with_target lab) ≡ ok t
      → t.is_expired ≡ false
      → (reconcile_cluster_lab M C parse_duration clock req w).0 ≡ ok d
      → length t.lab.metadata.name ≤ 59
      → Owned C w
      → (Other : C.World → C.World → Type 0) (v : C.World) → Respects C t.lab Other
      → Runs M C parse_duration order env
          (Neighbouring t.lab)
          Other
          (reconcile_cluster_lab M C parse_duration clock req w).1
          v
      → (now : InstanceClock) (request : NamespacedName) (inst : InstanceLab M.Quantity)
        (p : Parent M.Quantity) (parent : ClusterLab M.Quantity) (u : C.World) (e : Duration)
      → C.get instancelab request v ≡ ok inst
      → inst.metadata.deletion_timestamp ≡ none
      → M.contains_finalizer inst.metadata instance_lab_finalizer ≡ true
      → resolve_parent_cluster_lab M C inst v ≡ (ok p, u)
      → p.cluster ≡ some parent
      → parent.metadata.name ≡ t.lab.metadata.name
      → (reconcile_instance_lab M C order env now request v).0 ≡ ok e
      → IsInstalled M C p.inst
          (target M C t.lab)
          (reconcile_instance_lab M C order env now request v).1
        × IsGoverned M C t.lab (reconcile_instance_lab M C order env now request v).1
  lab_hands_over clock req lab t w d found alive has ttl fresh done short owned Other v respects
        runs now request inst p parent u e found' alive' has' resolved ready same done' =
      let first =
        reconcile_cluster_lab-IsGoverned M C parse_duration clock L req lab t w d found alive has
          ttl fresh done in
      let owned' = lab_run-Owned M C L N S parse_duration clock req w owned in
      let (governed, owned_then) =
        Runs-IsGoverned M C L N S parse_duration order env t.lab short Other respects first owned'
          runs in
      let there =
        owned_then (parent_key inst) parent (parent_read M C inst p parent v u resolved ready) in
      (
        subst
            (λ ns. IsInstalled M C p.inst ns (reconcile_instance_lab M C order env now request v).1)
            (there ∙ ap generate_target_namespace same)
            (reconcile_instance_lab-IsInstalled M C order env now L request inst p parent v u e
              found' alive' has' resolved ready done'),
        (Runs-IsGoverned M C L N S parse_duration order env t.lab short Other respects first owned'
            (then_instance runs now request)).0,
      )
