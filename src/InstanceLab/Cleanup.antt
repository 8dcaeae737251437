-- ===== src/InstanceLab/Cleanup.antt =====
-- The end of an instance: which objects its finalizer leaves.
use notebook_operator.Base.{◌≡◌, ◌≢◌, refl, true, none, some}
use notebook_operator.Base.Int.{pos}
use notebook_operator.Base.Text.{Text}
use notebook_operator.Base.Dict.{lookup}
use notebook_operator.Exec.{ok, pure, ◌>>=◌, ◌>>◌, >>=-pure}
use notebook_operator.Kube.Meta.{NamespacedName}
use notebook_operator.Api.InstanceLab.{InstanceLab}
use notebook_operator.Client.{
  Kind, Obj, metadata_of, Client, Machinery, instancelab, clusterlab, ingress, service, pod, pvc,
}
use notebook_operator.Client.Laws.{IsLawful}
use notebook_operator.InstanceLab.Objects.{label_instance_lab}
use notebook_operator.InstanceLab.Reconcile.{
  instance_lab_finalizer, instance_selector, cleanup_namespace, parent_key, clean_up,
  remove_instance_finalizer, finalize_instance, reconcile_instance_finalizer,
}

module _ (M : Machinery) (C : Client M.Quantity) (inst : InstanceLab M.Quantity) where
  -- Every object of that kind in the namespace that carries the instance's label is being deleted.
  abbrev pub Cleared : Text → Kind → C.World → Type 0
  Cleared ns k w =
      (key : NamespacedName) (x : Obj M.Quantity k)
      → key.namespace ≡ ns
      → C.get k key w ≡ ok x
      → lookup label_instance_lab (metadata_of M.Quantity k x).labels ≡ some inst.metadata.name
      → (metadata_of M.Quantity k x).deletion_timestamp ≢ none

  -- The worlds after the four deletions.
  abbrev deleted : Text → Kind → C.World → C.World
  deleted ns k w = (C.delete_all_of k ns (instance_selector inst) w).1

  abbrev after_ingress : Text → C.World → C.World
  after_ingress ns w = deleted ns ingress w

  abbrev after_service : Text → C.World → C.World
  after_service ns w = deleted ns service (after_ingress ns w)

  abbrev after_pod : Text → C.World → C.World
  after_pod ns w = deleted ns pod (after_service ns w)

  abbrev after_pvc : Text → C.World → C.World
  after_pvc ns w = deleted ns pvc (after_pod ns w)

  -- The call that deletes the objects of a kind succeeds.
  abbrev pub Deletes : Text → Kind → C.World → Type 0
  Deletes ns k w = (C.delete_all_of k ns (instance_selector inst) w).0 ≡ ok tt

  -- All four do.
  pub record AllDelete (ns : Text) (w : C.World) : Type 0 where
    pub ingresses : Deletes ns ingress w
    pub services : Deletes ns service (after_ingress ns w)
    pub pods : Deletes ns pod (after_service ns w)
    pub claims : Deletes ns pvc (after_pod ns w)

  clean_up_lem : (ns : Text) (w : C.World) → clean_up M C inst ns w ≡ (ok tt, after_pvc ns w)
  unfolding clean_up ◌>>=◌
  clean_up_lem ns w = refl

  module _ (L : IsLawful C) where
    -- What is left in the namespace after the four deletions.
    pub record IsCleared (ns : Text) (w : C.World) : Type 0 where
      pub ingresses : Cleared ns ingress w
      pub services : Cleared ns service w
      pub pods : Cleared ns pod w
      pub claims : Cleared ns pvc w

  abbrev pub target : C.World → Text
  target w = cleanup_namespace inst (C.get clusterlab (parent_key inst) w)

  abbrev pub without_finalizer : InstanceLab M.Quantity
  without_finalizer = record inst {
    metadata = M.remove_finalizer inst.metadata instance_lab_finalizer;
  }

  finalizer_run :
      (w : C.World)
      → M.contains_finalizer inst.metadata instance_lab_finalizer ≡ true
      → reconcile_instance_finalizer M C inst w
        ≡ remove_instance_finalizer M C inst (after_pvc (target w) w)
  unfolding reconcile_instance_finalizer finalize_instance ◌>>=◌
  finalizer_run w has = rw (has, clean_up_lem)

  updated_ok :
      (o : InstanceLab M.Quantity) (w : C.World)
      → (a : InstanceLab M.Quantity) × ((C.update instancelab o w).0 ≡ ok a)
      → ((C.update instancelab o >> pure (pos 0)) w).0 ≡ ok (pos 0)
  unfolding ◌>>=◌
  updated_ok o w (a, e) = rw e

  -- Whatever the four deletions answer, and so if all of them fail, the run of the finalizer ends with
  -- the update that takes the finalizer off the instance, and reports completion, if updates of
  -- instances succeed.
  pub finalizer_removed_anyway :
      (w : C.World)
      → M.contains_finalizer inst.metadata instance_lab_finalizer ≡ true
      → ((o : InstanceLab M.Quantity) (v : C.World)
          → (a : InstanceLab M.Quantity) × ((C.update instancelab o v).0 ≡ ok a))
      → ((reconcile_instance_finalizer M C inst w).0 ≡ ok (pos 0))
        × ((reconcile_instance_finalizer M C inst w).1
            ≡ (C.update instancelab without_finalizer (clean_up M C inst (target w) w).1).1)
  unfolding remove_instance_finalizer
  finalizer_removed_anyway w has updates =
      let after : C.World = after_pvc (target w) w in
      (
        rw (finalizer_run w has) (updated_ok without_finalizer _ (updates _ _)),
        rw (finalizer_run w has, clean_up_lem)
            (>>=-pure (C.update instancelab without_finalizer) (pos 0) after),
      )
