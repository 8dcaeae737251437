-- ===== src/InstanceLab/Waiting.antt =====
-- An instance whose parent is not there or not ready.
use notebook_operator.Base.{
  ◌≡◌, ◌≢◌, ◌∙◌, refl, ap, Bool-cases, true, false, none, inl, inr, if◌then◌else◌,
}
use notebook_operator.Base.Int.{pos, ◌*ℤ◌}
use notebook_operator.Base.Text.{Text}
use notebook_operator.Base.Dict.{Dict}
use notebook_operator.Base.Duration.{Duration, second}
use notebook_operator.Base.{List}
use notebook_operator.Exec.{Result, ok, err, Exec, is_not_found, ◌>>=◌}
use notebook_operator.Exec.Keeps.{Keeps, keeps_rules}
use notebook_operator.InstanceLab.Status.{InstanceClock}
use notebook_operator.Kube.Meta.{ObjectMeta, NamespacedName}
use notebook_operator.Api.ClusterLab.{ClusterLab}
use notebook_operator.Api.InstanceLab.{InstanceLab}
use notebook_operator.Client.{Kind, Client, Machinery, instancelab, clusterlab}
use notebook_operator.Client.Laws.{IsLawful}
use notebook_operator.InstanceLab.Reconcile.{
  parent_key, is_ready, adopt, resolve_by, resolve_parent_cluster_lab, wait_for_parent,
  after_parent, reconcile_instance, reconcile_instance_found, reconcile_instance_lab,
  instance_lab_finalizer,
}

module _ {Quantity : Type 0} where
  -- No parent that is ready.
  abbrev pub IsUnready : Result (ClusterLab Quantity) → Type 0
  IsUnready (ok lab) = is_ready lab ≡ false
  IsUnready (err e) = Unit {0}

  -- What the run answers then: to try again, or the error of the read.
  abbrev pub unready_answer : Result (ClusterLab Quantity) → Result Duration
  unready_answer (ok lab) = ok (pos 5 *ℤ second)
  unready_answer (err e) = if is_not_found e then ok (pos 5 *ℤ second) else err e

module _ (M : Machinery) (C : Client M.Quantity) (order : Dict Text → List (Text × Text))
    (env : Text → Text) (now : InstanceClock) where
  -- Parts 3 to 8 of the run.
  abbrev parented : InstanceLab M.Quantity → Exec C.World Duration
  parented inst = do
    parent ← resolve_parent_cluster_lab M C inst
    after_parent M C order env now parent.inst parent.cluster

  -- From the answer to the read of the parent.
  abbrev parented_by :
      InstanceLab M.Quantity → Result (ClusterLab M.Quantity) → Exec C.World Duration
  parented_by inst r = do
    parent ← resolve_by M C inst r
    after_parent M C order env now parent.inst parent.cluster

  found_unfolded :
      (req : NamespacedName) (inst : InstanceLab M.Quantity) (w : C.World)
      → C.get instancelab req w ≡ ok inst
      → inst.metadata.deletion_timestamp ≡ none
      → M.contains_finalizer inst.metadata instance_lab_finalizer ≡ true
      → reconcile_instance_lab M C order env now req w
        ≡ parented_by inst (C.get clusterlab (parent_key inst) w) w
  unfolding reconcile_instance_lab reconcile_instance_found reconcile_instance
      resolve_parent_cluster_lab ◌>>=◌
  found_unfolded req inst w found alive has =
      ap (λ r. reconcile_instance_found M C order env now r w) found
      ∙ ap (λ t. reconcile_instance M C order env now inst t w) alive
      ∙ rw has

  -- The adoption does not fail.
  adopted :
      (inst : InstanceLab M.Quantity) (r : Result ObjectMeta) (w : C.World)
      → (a : InstanceLab M.Quantity) × ((adopt M C inst r w).0 ≡ ok a)
  unfolding adopt ◌>>=◌
  adopted inst (ok m) w = (_, refl)
  adopted inst (err e) w = (_, refl)

  waiting_answer :
      (inst : InstanceLab M.Quantity) (w : C.World)
      → (wait_for_parent M C now inst w).0 ≡ ok (pos 5 *ℤ second)
  unfolding wait_for_parent ◌>>=◌
  waiting_answer inst w = refl

  after_unready_answer :
      (inst : InstanceLab M.Quantity) (r : Result (ClusterLab M.Quantity)) (w : C.World)
      → IsUnready r
      → (parented_by inst r w).0 ≡ unready_answer r
  unfolding resolve_by after_parent ◌>>=◌
  after_unready_answer inst (ok lab) w h =
      let (a, e) = adopted inst (M.set_controller_reference lab.metadata inst.metadata) w in
      rw (h, e) (waiting_answer a _)
  after_unready_answer inst (err e) w h = elim (Bool-cases (is_not_found e)) [
    | inl b ↦ rw b (waiting_answer inst w)
    | inr b ↦ rw b
  ]

  module _ (L : IsLawful C) (j : Kind) (other : instancelab ≢ j) (key : NamespacedName)
      (w : C.World) where
    -- The object under the key is as it was.
    abbrev Same : C.World → Type 0
    Same v = C.get j key v ≡ C.get j key w

    update-Same : (o : InstanceLab M.Quantity) → Keeps Same (C.update instancelab o)
    update-Same o = record { at = λ v h. L.get-update_ne instancelab j o key v (inl other) ∙ h }

    status-Same : (o : InstanceLab M.Quantity) → Keeps Same (C.update_status instancelab o)
    status-Same o = record {
      at = λ v h. L.get-update_status_ne instancelab j o key v (inl other) ∙ h;
    }

    adopt-Same :
        (inst : InstanceLab M.Quantity) (r : Result ObjectMeta) → Keeps Same (adopt M C inst r)
    unfolding adopt
    adopt-Same inst (ok m) = search (keeps_rules, update-Same)
    adopt-Same inst (err e) = search keeps_rules

    waiting-Same : (inst : InstanceLab M.Quantity) → Keeps Same (wait_for_parent M C now inst)
    unfolding wait_for_parent
    waiting-Same inst = search (keeps_rules, status-Same)

    unready-Same :
        (inst : InstanceLab M.Quantity) (r : Result (ClusterLab M.Quantity))
        → IsUnready r
        → Keeps Same (parented_by inst r)
    unfolding resolve_by after_parent ◌>>=◌
    unready-Same inst (ok lab) h = record {
      at = λ v same.
          let owned = M.set_controller_reference lab.metadata inst.metadata in
          let (a, e) = adopted inst owned v in
          rw (h, e) ((waiting-Same a).at _ ((adopt-Same inst owned).at v same));
    }
    unready-Same inst (err e) h = elim (Bool-cases (is_not_found e)) [
      | inl b ↦ rw b (waiting-Same inst)
      | inr b ↦ rw b (search keeps_rules)
    ]

  -- On an instance that has its finalizer and is not being deleted, a run that finds no parent or one
  -- that is not ready asks to be run again in five seconds, or returns the error of the read if it is
  -- another than that there is no parent; and every object of another kind is afterwards as it was.
  -- The client is assumed to obey its laws.
  pub unready_parent :
      IsLawful C
      → (req : NamespacedName) (inst : InstanceLab M.Quantity) (w : C.World)
      → C.get instancelab req w ≡ ok inst
      → inst.metadata.deletion_timestamp ≡ none
      → M.contains_finalizer inst.metadata instance_lab_finalizer ≡ true
      → IsUnready (C.get clusterlab (parent_key inst) w)
      → ((reconcile_instance_lab M C order env now req w).0
          ≡ unready_answer (C.get clusterlab (parent_key inst) w))
        × ((j : Kind) (key : NamespacedName)
            → instancelab ≢ j
            → C.get j key (reconcile_instance_lab M C order env now req w).1 ≡ C.get j key w)
  unready_parent L req inst w found alive has h = rw (found_unfolded req inst w found alive has) (
    after_unready_answer inst (C.get clusterlab (parent_key inst) w) w h,
    λ j key other.
        (unready-Same L j other key w inst (C.get clusterlab (parent_key inst) w) h).at w refl,
  )
