-- ===== src/Notebook/Volumes/Names.antt =====
-- The volumes of a notebook's pod and the mounts of its container.
use notebook_operator.Base.{
  ◌≡◌, refl, Bool, false, Option, none, some, map, Each, Each-append, Each-map,
}
use notebook_operator.Base.Text.{Text}
use notebook_operator.Kube.Pod.{
  VolumeSource, persistent_volume_claim, empty_dir, host_path, Volume, VolumeMount,
}
use notebook_operator.Api.NotebookLab.{NotebookLab, WorkspaceSpec}
use notebook_operator.Client.{Machinery}
use notebook_operator.Notebook.Volumes.{
  storage_workspace, datasets_of, workspace_volumes, dataset_volume, workspace_mounts,
  dataset_mount, volumes, volume_mounts,
}

module _ (M : Machinery) where
  -- Whether the source of a volume is claimed for reading only.
  abbrev pub is_read_only : VolumeSource M.Quantity → Bool
  is_read_only (persistent_volume_claim name read_only) = read_only
  is_read_only (empty_dir limit) = false
  is_read_only (host_path path type) = false

  -- The mount is one of this volume, and writes to it only if it may.
  abbrev pub IsMountOf : Volume M.Quantity → VolumeMount → Type 0
  IsMountOf v m = (m.name ≡ v.name) × (m.read_only ≡ is_read_only v.source)

  workspace-IsMountOf :
      (name : Text) (o : Option (WorkspaceSpec M.Quantity))
      → Each IsMountOf (workspace_volumes name o) (workspace_mounts o)
  unfolding workspace_volumes workspace_mounts
  workspace-IsMountOf name none = tt
  workspace-IsMountOf name (some w) = ((refl, refl), tt)

  -- The two lists that are built for a notebook, of its pod's volumes and of its container's mounts,
  -- are equally long, and each mount is one of the volume at its position: it has that volume's name,
  -- and is read-only exactly if that volume is a claim for reading only.
  pub volume_mounts_lem :
      (notebook : NotebookLab M.Quantity)
      → Each IsMountOf (volumes M notebook) (volume_mounts M notebook)
  unfolding volumes volume_mounts
  volume_mounts_lem notebook =
      Each-append IsMountOf (workspace_volumes notebook.metadata.name (storage_workspace notebook))
        _ (workspace_mounts (storage_workspace notebook)) _
        (workspace-IsMountOf notebook.metadata.name (storage_workspace notebook))
        (Each-append IsMountOf (map dataset_volume (datasets_of notebook)) _
          (map dataset_mount (datasets_of notebook)) _
          (Each-map IsMountOf dataset_volume dataset_mount (datasets_of notebook)
            (λ d. (refl, refl)))
          ((refl, refl), tt))
