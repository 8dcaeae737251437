-- ===== src/ClusterLab/Complete.antt =====
-- A run of the ClusterLab controller that returns no error.
use notebook_operator.Base.{◌≡◌, ◌∙◌, ap, true, false, none, Option, if◌then◌else◌}
use notebook_operator.Base.Int.{pos, ltb_ℤ}
use notebook_operator.Base.Text.{Text}
use notebook_operator.Base.Duration.{Duration}
use notebook_operator.Exec.{ok, Exec, pure, ◌>>=◌, ◌>>◌, >>=-eq-ok}
use notebook_operator.Kube.Meta.{NamespacedName}
use notebook_operator.Api.ClusterLab.{ClusterLab}
use notebook_operator.Client.{Client, Machinery, clusterlab}
use notebook_operator.Client.Laws.{IsLawful}
use notebook_operator.ClusterLab.Status.{LabClock}
use notebook_operator.ClusterLab.Reconcile.{
  Ttl, cluster_lab_finalizer, with_target, reconcile_ttl, after_ttl, reconcile_lab,
  reconcile_lab_found, reconcile_cluster_lab, provision_lab,
}
use notebook_operator.ClusterLab.Governed.{IsGoverned, provision-IsGoverned}

module _ (M : Machinery) (C : Client M.Quantity) (parse_duration : Text → Option Duration)
    (clock : LabClock) where
  -- A run on a cluster lab that is there with its finalizer, up to the outcome of its TTL.
  lab_unfolded :
      (req : NamespacedName) (lab : ClusterLab M.Quantity) (t : Ttl M.Quantity) (w : C.World)
      → C.get clusterlab req w ≡ ok lab
      → lab.metadata.deletion_timestamp ≡ none
      → M.contains_finalizer lab.metadata cluster_lab_finalizer ≡ true
      → reconcile_ttl parse_duration clock (with_target lab) ≡ ok t
      → reconcile_cluster_lab M C parse_duration clock req w
        ≡ after_ttl M C parse_duration clock (ok t) w
  unfolding reconcile_cluster_lab reconcile_lab_found reconcile_lab ◌>>=◌
  lab_unfolded req lab t w found alive has ttl =
      ap (λ r. reconcile_lab_found M C parse_duration clock r w) found
      ∙ ap (λ x. reconcile_lab M C parse_duration clock lab x w) alive
      ∙ rw has (ap (λ r. after_ttl M C parse_duration clock r w) ttl)

  after_ttl-IsGoverned :
      IsLawful C
      → (t : Ttl M.Quantity) (w : C.World) (d : Duration) → t.is_expired ≡ false
      → (after_ttl M C parse_duration clock (ok t) w).0 ≡ ok d
      → IsGoverned M C t.lab (after_ttl M C parse_duration clock (ok t) w).1
  unfolding after_ttl ◌>>=◌
  after_ttl-IsGoverned L t w d fresh h = rw fresh (
      let left = if ltb_ℤ (pos 0) t.requeue_after then t.requeue_after else pos 0 in
      let run : Exec C.World Duration = provision_lab M C clock t.lab >> pure left in
      let e : (run w).0 ≡ ok d = rw fresh at h in
      let (a, done, whole) = >>=-eq-ok (provision_lab M C clock t.lab) (λ _. pure left) w d e in
      rw whole (provision-IsGoverned M C t.lab L clock w a done))

  -- If a run on a cluster lab that has its finalizer, is not being deleted and has not expired returns
  -- no error, then at its end its target namespace exists, with a quota that has every limit that the
  -- cluster lab asks for, and a network policy that admits exactly what the network type promises. The
  -- client is assumed to obey its laws.
  pub reconcile_cluster_lab-IsGoverned :
      IsLawful C
      → (req : NamespacedName) (lab : ClusterLab M.Quantity) (t : Ttl M.Quantity) (w : C.World)
        (d : Duration)
      → C.get clusterlab req w ≡ ok lab
      → lab.metadata.deletion_timestamp ≡ none
      → M.contains_finalizer lab.metadata cluster_lab_finalizer ≡ true
      → reconcile_ttl parse_duration clock (with_target lab) ≡ ok t
      → t.is_expired ≡ false
      → (reconcile_cluster_lab M C parse_duration clock req w).0 ≡ ok d
      → IsGoverned M C t.lab (reconcile_cluster_lab M C parse_duration clock req w).1
  reconcile_cluster_lab-IsGoverned L req lab t w d found alive has ttl fresh h =
      let e = lab_unfolded req lab t w found alive has ttl in
      rw e (after_ttl-IsGoverned L t w d fresh (rw e at h))
