-- ===== src/Api/NotebookLab.antt =====
-- api/v1alpha1/notebooklab_types.go. A pointer is an `Option`, and `Quantity` stands for
-- `resource.Quantity`.
use notebook_operator.Base.{Option, List, Bool}
use notebook_operator.Base.Int.{ℤ}
use notebook_operator.Base.Text.{Text}
use notebook_operator.Base.Dict.{Dict}
use notebook_operator.Kube.Meta.{ObjectMeta, Time, Condition}
use notebook_operator.Kube.Pod.{Toleration, ResourceRequirements}

pub record LifecycleSpec : Type 0 where
  pub idle_timeout_minutes : ℤ
  pub max_lifespan_hours : ℤ
  pub purge_after_inactive_days : ℤ

pub record HamiSpec (Quantity : Type 0) : Type 0 where
  pub cores : ℤ
  pub memory : Quantity

pub record MigSpec : Type 0 where
  pub profile : Text

pub record GpuSpec (Quantity : Type 0) : Type 0 where
  pub enable : Bool
  pub type : Text
  pub hami : Option (HamiSpec Quantity)
  pub mig : Option MigSpec

pub record WorkspaceSpec (Quantity : Type 0) : Type 0 where
  pub size : Quantity
  pub storage_class_name : Text
  pub mount_path : Text

pub record TmpSpec (Quantity : Type 0) : Type 0 where
  pub size_limit : Quantity
  pub mount_path : Text

pub record DatasetSpec : Type 0 where
  pub name : Text
  pub pvc_name : Text
  pub mount_path : Text

pub record StorageSpec (Quantity : Type 0) : Type 0 where
  pub workspace : Option (WorkspaceSpec Quantity)
  pub datasets : List DatasetSpec
  pub tmp : Option (TmpSpec Quantity)

pub record NotebookLabSpec (Quantity : Type 0) : Type 0 where
  pub replicas : Option ℤ
  pub image : Text
  pub lifecycle : Option LifecycleSpec
  pub image_pull_secrets : List Text
  pub resources : ResourceRequirements Quantity
  pub node_selector : Dict Text
  pub tolerations : List Toleration
  pub gpu : Option (GpuSpec Quantity)
  pub storage : Option (StorageSpec Quantity)

-- The constants of `NotebookLabPhase`, and the empty string of a new notebook.
pub data NotebookLabPhase : Type 0 where
  unset provisioning running pausing paused failed : NotebookLabPhase

unfoldable pub phase_dec : Discrete NotebookLabPhase
phase_dec = hlevel

pub record GpuStatus : Type 0 where
  pub allocated : Bool
  pub type : Text
  pub cores_allocated : ℤ
  pub memory_allocated : Text

pub record NotebookLabStatus : Type 0 where
  pub phase : NotebookLabPhase
  pub pod_name : Text
  pub pvc_name : Text
  pub access_url : Text
  pub last_active_time : Option Time
  pub expires_at : Option Time
  pub node_name : Text
  pub gpu_status : Option GpuStatus
  pub conditions : List Condition

pub record NotebookLab (Quantity : Type 0) : Type 0 where
  pub metadata : ObjectMeta
  pub spec : NotebookLabSpec Quantity
  pub status : NotebookLabStatus
