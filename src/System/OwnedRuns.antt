-- ===== src/System/OwnedRuns.antt =====
-- Runs keep what the statuses of cluster labs name.
use notebook_operator.Base.{sym, Bool-cases, inl, inr, ◌∙◌, refl, Option, none, some, List}
use notebook_operator.Base.Int.{ℤ, leb_ℤ, ◌+ℤ◌}
use notebook_operator.Base.Text.{Text}
use notebook_operator.Base.Dict.{Dict}
use notebook_operator.Base.Duration.{Duration}
use notebook_operator.Utils.Strings.{is_empty}
use notebook_operator.Exec.{Result, ok, err, ◌>>=◌}
use notebook_operator.Exec.Keeps.{Keeps, Keeps-bind, Keeps-pure, Keeps-if, keeps_rules}
use notebook_operator.InstanceLab.Status.{InstanceClock}
use notebook_operator.Kube.Meta.{NamespacedName}
use notebook_operator.Api.ClusterLab.{ClusterLab}
use notebook_operator.Client.{Client, Machinery, clusterlab}
use notebook_operator.Client.Laws.{IsLawful, KeepsNames}
use notebook_operator.ClusterLab.Status.{LabClock}
use notebook_operator.ClusterLab.Reconcile.{
  Ttl, with_target, ttl_by, reconcile_ttl, after_ttl, reconcile_lab, reconcile_lab_found,
  reconcile_cluster_lab,
}
use notebook_operator.System.Instances.{unwritten-IsUntouched, instance_run-Still}
use notebook_operator.InstanceLab.Reconcile.{reconcile_instance_lab}
use notebook_operator.System.Owned.{
  Alike-IsOwn, with_target-IsOwn, IsOwn, OwnFound, OwnFound-of, TellsStatus, Owned, add-Owned,
  finalizer-Owned, expire-Owned, provision-Owned,
}

module _ (M : Machinery) (C : Client M.Quantity) (L : IsLawful C) (N : KeepsNames M)
    (S : TellsStatus C) where
  module _ (parse_duration : Text → Option Duration) (clock : LabClock) where
    -- The cluster lab as its TTL leaves it is of that kind.
    abbrev OwnTtl : Result (Ttl M.Quantity) → Type 0
    OwnTtl (ok t) = IsOwn t.lab
    OwnTtl (err e) = Unit {0}

    ttl_by-OwnTtl :
        (lab : ClusterLab M.Quantity) (o : Option Duration)
        → IsOwn lab
        → OwnTtl (ttl_by parse_duration clock lab o)
    unfolding ttl_by
    ttl_by-OwnTtl lab none own = tt
    ttl_by-OwnTtl lab (some d) own =
        elim (Bool-cases (leb_ℤ (lab.metadata.creation_timestamp +ℤ d) clock.at_ttl)) [
          | inl b ↦ rw b (Alike-IsOwn _ lab (refl, refl) own)
          | inr b ↦ rw b (Alike-IsOwn _ lab (refl, refl) own)
        ]

    reconcile_ttl-OwnTtl :
        (lab : ClusterLab M.Quantity) → IsOwn lab → OwnTtl (reconcile_ttl parse_duration clock lab)
    unfolding reconcile_ttl
    reconcile_ttl-OwnTtl lab own = elim (Bool-cases (is_empty lab.spec.ttl)) [
      | inl b ↦ rw b (Alike-IsOwn _ lab (refl, refl) own)
      | inr b ↦ rw b (ttl_by-OwnTtl lab (parse_duration lab.spec.ttl) own)
    ]

    after_ttl-Owned :
        (o : Result (Ttl M.Quantity))
        → OwnTtl o
        → Keeps (Owned C) (after_ttl M C parse_duration clock o)
    unfolding after_ttl
    after_ttl-Owned (err e) own = search keeps_rules
    after_ttl-Owned (ok t) own =
        Keeps-if _ _ _ (expire-Owned M C L N S t.lab own)
          (Keeps-bind _ _ (provision-Owned M C L N S t.lab own clock) (λ a. Keeps-pure _))

    lab-Owned :
        (lab : ClusterLab M.Quantity) (deleted : Option ℤ)
        → IsOwn lab
        → Keeps (Owned C) (reconcile_lab M C parse_duration clock lab deleted)
    unfolding reconcile_lab
    lab-Owned lab (some t) own = finalizer-Owned M C L N S lab own
    lab-Owned lab none own =
        Keeps-if _ _ _
          (after_ttl-Owned _ (reconcile_ttl-OwnTtl (with_target lab) (with_target-IsOwn lab own)))
          (add-Owned M C L N S lab own)

    found-Owned :
        (s : Result (ClusterLab M.Quantity))
        → OwnFound s
        → Keeps (Owned C) (reconcile_lab_found M C parse_duration clock s)
    unfolding reconcile_lab_found
    found-Owned (ok lab) own = lab-Owned lab _ own
    found-Owned (err e) own = search keeps_rules

    pub lab_run-Owned :
        (req : NamespacedName) (w : C.World)
        → Owned C w
        → Owned C (reconcile_cluster_lab M C parse_duration clock req w).1
    unfolding reconcile_cluster_lab ◌>>=◌
    lab_run-Owned req w h = (found-Owned (C.get clusterlab req w) (OwnFound-of _ (h req))).at w h

  pub instance_run-Owned :
      (order : Dict Text → List (Text × Text)) (env : Text → Text) (now : InstanceClock)
      (req : NamespacedName) (w : C.World)
      → Owned C w
      → Owned C (reconcile_instance_lab M C order env now req w).1
  instance_run-Owned order env now req w h key x e = h key x (
      sym (
        instance_run-Still M C L clusterlab (unwritten-IsUntouched refl) key
          (C.get clusterlab key w) order env now req w refl)
      ∙ e)
