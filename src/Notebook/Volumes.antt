-- ===== src/Notebook/Volumes.antt =====
-- The volumes and mounts that `reconcileJupyterDeployment` builds for a notebook.
pub mod Names
pub mod Distinct
use notebook_operator.Base.{
  true, false, Option, none, some, List, [], ◌∷◌, ◌++◌, map, if◌then◌else◌,
}
use notebook_operator.Base.Text.{Text, codes}
use notebook_operator.Utils.Strings.{is_empty}
use notebook_operator.Kube.Pod.{persistent_volume_claim, empty_dir, Volume, VolumeMount}
use notebook_operator.Api.NotebookLab.{NotebookLab, WorkspaceSpec, TmpSpec, DatasetSpec}
use notebook_operator.Client.{Machinery}

module _ {Quantity : Type 0} where
  -- The parts of notebook.Spec.Storage, if it is not nil.
  abbrev pub storage_workspace : NotebookLab Quantity → Option (WorkspaceSpec Quantity)
  storage_workspace notebook = elim notebook.spec.storage [ none ↦ none | some s ↦ s.workspace ]

  abbrev pub datasets_of : NotebookLab Quantity → List DatasetSpec
  datasets_of notebook = elim notebook.spec.storage [ none ↦ [] | some s ↦ s.datasets ]

  abbrev pub storage_tmp : NotebookLab Quantity → Option (TmpSpec Quantity)
  storage_tmp notebook = elim notebook.spec.storage [ none ↦ none | some s ↦ s.tmp ]

  -- What is appended to `volumes`.
  unfoldable pub workspace_volumes : Text → Option (WorkspaceSpec Quantity) → List (Volume Quantity)
  workspace_volumes name none = []
  workspace_volumes name (some workspace) =
      record {
        name = codes "workspace";
        source = persistent_volume_claim (name ++ codes "-workspace") false;
      }
      ∷ []

  unfoldable pub dataset_volume : DatasetSpec → Volume Quantity
  dataset_volume ds = record { name = ds.name; source = persistent_volume_claim ds.pvc_name true }

  -- What is appended to `volumeMounts`.
  unfoldable pub workspace_mounts : Option (WorkspaceSpec Quantity) → List VolumeMount
  workspace_mounts none = []
  workspace_mounts (some workspace) =
      record { name = codes "workspace"; mount_path = workspace.mount_path; read_only = false } ∷ []

unfoldable pub dataset_mount : DatasetSpec → VolumeMount
dataset_mount ds = record { name = ds.name; mount_path = ds.mount_path; read_only = true }

module _ (M : Machinery) where
  -- `emptyDirSource.SizeLimit` and `tmpMountPath`
  unfoldable pub tmp_size_limit : Option (TmpSpec M.Quantity) → Option M.Quantity
  tmp_size_limit none = none
  tmp_size_limit (some tmp) = if M.is_zero tmp.size_limit then none else some tmp.size_limit

  unfoldable pub tmp_mount_path : Option (TmpSpec M.Quantity) → Text
  tmp_mount_path none = codes "/tmp"
  tmp_mount_path (some tmp) = if is_empty tmp.mount_path then codes "/tmp" else tmp.mount_path

  unfoldable pub tmp_volume : Option (TmpSpec M.Quantity) → Volume M.Quantity
  unfolding tmp_size_limit
  tmp_volume tmp = record { name = codes "tmp"; source = empty_dir (tmp_size_limit tmp) }

  unfoldable pub tmp_mount : Option (TmpSpec M.Quantity) → VolumeMount
  unfolding tmp_mount_path
  tmp_mount tmp = record { name = codes "tmp"; mount_path = tmp_mount_path tmp; read_only = false }

  unfoldable pub volumes : NotebookLab M.Quantity → List (Volume M.Quantity)
  unfolding workspace_volumes dataset_volume tmp_volume
  volumes notebook =
      workspace_volumes notebook.metadata.name (storage_workspace notebook)
      ++ (map dataset_volume (datasets_of notebook) ++ tmp_volume (storage_tmp notebook) ∷ [])

  unfoldable pub volume_mounts : NotebookLab M.Quantity → List VolumeMount
  unfolding workspace_mounts dataset_mount tmp_mount
  volume_mounts notebook =
      workspace_mounts (storage_workspace notebook)
      ++ (map dataset_mount (datasets_of notebook) ++ tmp_mount (storage_tmp notebook) ∷ [])
