-- ===== src/ClusterLab/Deletion.antt =====
-- The deletion of a cluster lab, and its first run.
use notebook_operator.Base.{ap, ◌≡◌, ◌≢◌, inl, refl, ◌∙◌, true, false, Option, none, some, arith}
use notebook_operator.Base.Int.{pos, ◌*ℤ◌}
use notebook_operator.Base.Text.{Text}
use notebook_operator.Base.Duration.{Duration}
use notebook_operator.Exec.{Failure, Result, ok, err, is_not_found, Exec, ◌>>=◌, >>=-pure}
use notebook_operator.Kube.Meta.{NamespacedName}
use notebook_operator.Kube.Objects.{Namespace}
use notebook_operator.Api.ClusterLab.{ClusterLab}
use notebook_operator.Client.{Kind, Client, Machinery, clusterlab, namespace, key_of}
use notebook_operator.Client.Laws.{Apart, IsLawful, KeepsNames}
use notebook_operator.ClusterLab.Status.{LabClock}
use notebook_operator.ClusterLab.Reconcile.{
  cluster_lab_finalizer, namespace_object, namespace_key, serious, doomed_namespace, finalize_by,
  check_deleted, delete_target, reconcile_finalizer, add_lab_finalizer, reconcile_cluster_lab,
  reconcile_lab_found, reconcile_lab,
}

module _ (M : Machinery) (C : Client M.Quantity) (lab : ClusterLab M.Quantity) where
  -- Nothing is written, and the run is not the last one.
  abbrev Waits : Exec C.World Duration → C.World → Type 0
  Waits m w = ((m w).1 ≡ w) × ((m w).0 ≢ ok (pos 0))

  finalize_by-Waits :
      (r : Result Namespace) (w : C.World)
      → ((e : Failure) → r ≡ err e → is_not_found e ≡ false)
      → Waits (finalize_by M C lab r) w
  unfolding finalize_by ◌>>=◌ ◌*ℤ◌
  finalize_by-Waits (ok ns) w h = (refl, λ e. ground arith)
  finalize_by-Waits (err f) w h = rw (h f refl) (refl, λ e. ground arith)

  check_deleted-Waits :
      (o : Option Failure) (target : Text) (w : C.World)
      → ((e : Failure) → C.get namespace (namespace_key target) w ≡ err e → is_not_found e ≡ false)
      → Waits (check_deleted M C lab o target) w
  unfolding check_deleted ◌>>=◌
  check_deleted-Waits (some e) target w h = (refl, λ x. cc)
  check_deleted-Waits none target w h =
      finalize_by-Waits (C.get namespace (namespace_key target) w) w h

  -- While the namespace of a cluster lab that is being deleted can still be read after the call that
  -- deletes it, or the read fails in another way than "not found", `reconcileFinalizer` leaves every
  -- cluster lab as it is, so that the finalizer stays, and it does not report completion. The client
  -- is assumed to obey its laws.
  pub reconcile_finalizer_waits :
      IsLawful C
      → (w : C.World) → M.contains_finalizer lab.metadata cluster_lab_finalizer ≡ true
      → ((e : Failure)
          → C.get namespace
              (namespace_key (doomed_namespace lab))
              (C.delete namespace (namespace_object (doomed_namespace lab)) w).1
            ≡ err e
          → is_not_found e ≡ false)
      → ((key : NamespacedName)
          → C.get clusterlab key (reconcile_finalizer M C lab w).1 ≡ C.get clusterlab key w)
        × ((reconcile_finalizer M C lab w).0 ≢ ok (pos 0))
  unfolding reconcile_finalizer delete_target ◌>>=◌
  reconcile_finalizer_waits L w has still =
      let gone = (C.delete namespace (namespace_object (doomed_namespace lab)) w).1 in
      let o = serious (C.delete namespace (namespace_object (doomed_namespace lab)) w).0 in
      let (same, more) = check_deleted-Waits o (doomed_namespace lab) gone still in
      rw has (
        (
          λ key.
              ap (λ x. C.get clusterlab key x) same
              ∙ L.get-delete_ne namespace clusterlab _ key w (inl (λ e. cc)),
          more,
        ))

  first_run :
      (parse_duration : Text → Option Duration) (clock : LabClock) (req : NamespacedName)
      (w : C.World)
      → C.get clusterlab req w ≡ ok lab
      → lab.metadata.deletion_timestamp ≡ none
      → M.contains_finalizer lab.metadata cluster_lab_finalizer ≡ false
      → reconcile_cluster_lab M C parse_duration clock req w ≡ add_lab_finalizer M C lab w
  unfolding reconcile_cluster_lab reconcile_lab_found reconcile_lab ◌>>=◌
  first_run parse clock req w found alive bare =
      ap (λ r. reconcile_lab_found M C parse clock r w) found
      ∙ ap (λ t. reconcile_lab M C parse clock lab t w) alive
      ∙ rw bare

  added_written :
      (w : C.World)
      → (add_lab_finalizer M C lab w).1
        ≡ (C.update clusterlab
            (record lab { metadata = M.add_finalizer lab.metadata cluster_lab_finalizer })
            w).1
  unfolding add_lab_finalizer
  added_written w = >>=-pure _ (pos 0) w

  -- The first run on a cluster lab that is not being deleted and has no finalizer writes no object but
  -- that cluster lab. The client is assumed to obey its laws, and the added finalizer to leave names
  -- alone.
  pub finalizer_first :
      IsLawful C
      → KeepsNames M
      → (parse_duration : Text → Option Duration) (clock : LabClock) (req : NamespacedName)
        (w : C.World)
      → C.get clusterlab req w ≡ ok lab
      → lab.metadata.deletion_timestamp ≡ none
      → M.contains_finalizer lab.metadata cluster_lab_finalizer ≡ false
      → (j : Kind) (key : NamespacedName)
      → Apart clusterlab (key_of M.Quantity clusterlab lab) j key
      → C.get j key (reconcile_cluster_lab M C parse_duration clock req w).1 ≡ C.get j key w
  unfolding add_lab_finalizer ◌>>=◌
  finalizer_first L N parse clock req w found alive bare j key apart =
      rw (first_run parse clock req w found alive bare) (
        rw (added_written w) (
          L.get-update_ne clusterlab j _ key w
            (rw (N.add_finalizer_name, N.add_finalizer_namespace) apart)))
