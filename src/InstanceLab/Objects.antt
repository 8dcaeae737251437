-- ===== src/InstanceLab/Objects.antt =====
-- The names and labels of an instance's objects, and its workspace claim: `reconcileWorkspacePVC` of
-- internal/controller/instancelab_controller.go. A function given to `CreateOrUpdate` changes the
-- object that it is applied to.
use notebook_operator.Base.{Option, none, some, [], ◌∷◌, ◌++◌, if◌then◌else◌}
use notebook_operator.Base.Text.{Text, codes}
use notebook_operator.Base.Dict.{Dict, insert}
use notebook_operator.Utils.Names.{sanitize_name}
use notebook_operator.Exec.{Exec, pure, ◌>>=◌}
use notebook_operator.Kube.Meta.{ObjectMeta}
use notebook_operator.Kube.Objects.{PersistentVolumeClaim}
use notebook_operator.Api.InstanceLab.{InstanceLab}
use notebook_operator.Client.{Client, Machinery, pvc}
use notebook_operator.Notebook.Children.{new_metadata}
use notebook_operator.ClusterLab.Provision.{
  label_managed_by, label_value_managed_by, label_cluster_lab,
}

abbrev pub label_instance_lab : Text
label_instance_lab = codes "lab.devops.toiyeuptit.com/instancelab"

module _ {Quantity : Type 0} (inst : InstanceLab Quantity) where
  -- utils.SanitizeName(fmt.Sprintf("%s-…", instanceLab.Name), 63)
  abbrev pub object_name : Text → Text
  object_name suffix = sanitize_name (inst.metadata.name ++ suffix) 63

  abbrev pub pod_name : Text
  pod_name = object_name (codes "-sysbox")

  unfoldable pub instance_labels : Dict Text → Dict Text
  instance_labels labels = insert label_instance_lab inst.metadata.name (
      insert label_cluster_lab inst.spec.cluster_lab_ref
        (insert label_managed_by label_value_managed_by labels))

  unfoldable pub with_instance_labels : ObjectMeta → ObjectMeta
  unfolding instance_labels
  with_instance_labels m = record m { labels = instance_labels m.labels }

  unfoldable pub instance_claim : PersistentVolumeClaim Quantity → PersistentVolumeClaim Quantity
  unfolding with_instance_labels
  instance_claim claim = record {
    metadata = with_instance_labels claim.metadata;
    spec = record {
      access_modes = codes "ReadWriteOnce" ∷ [];
      requests = (codes "storage", inst.spec.resources.storage.limit) ∷ [];
      storage_class_name = some (codes "openebs-lvm");
    };
  }

module _ (M : Machinery) (C : Client M.Quantity) (inst : InstanceLab M.Quantity) where
  abbrev pub empty_claim : Text → PersistentVolumeClaim M.Quantity
  empty_claim target_ns = record {
    metadata = new_metadata (object_name inst (codes "-workspace")) target_ns [];
    spec = record { access_modes = []; requests = []; storage_class_name = none };
  }

  -- The claim, or nil without a storage limit.
  unfoldable pub reconcile_instance_pvc :
      Text → Exec C.World (Option (PersistentVolumeClaim M.Quantity))
  reconcile_instance_pvc target_ns =
      if M.is_zero inst.spec.resources.storage.limit then pure none else (do
        claim ← C.create_or_update pvc (empty_claim target_ns) (instance_claim inst)
        pure (some claim))
