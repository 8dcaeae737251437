-- ===== src/Api/ClusterLab.antt =====
-- api/v1alpha1/clusterlab_types.go. A record of one field, such as `ClusterLabResourceLimit`, stays
-- a record, so that the paths of fields read as in the source.
use notebook_operator.Base.{Option, List}
use notebook_operator.Base.Int.{ℤ}
use notebook_operator.Base.Text.{Text}
use notebook_operator.Kube.Meta.{ObjectMeta, Time, Condition}

pub record ClusterLabNetworkConfig : Type 0 where
  pub type : Text

pub record ClusterLabStorageQuota (Quantity : Type 0) : Type 0 where
  pub limit : Quantity

pub record ClusterLabResourceLimit (Quantity : Type 0) : Type 0 where
  pub limit : Quantity

pub record ClusterLabComputeQuota (Quantity : Type 0) : Type 0 where
  pub cpu : ClusterLabResourceLimit Quantity
  pub memory : ClusterLabResourceLimit Quantity

pub record ClusterLabObjectsQuota : Type 0 where
  pub pods_limit : ℤ
  pub services_limit : ℤ

pub record ClusterLabQuotaConfig (Quantity : Type 0) : Type 0 where
  pub storage : ClusterLabStorageQuota Quantity
  pub compute : ClusterLabComputeQuota Quantity
  pub objects : ClusterLabObjectsQuota

pub record ClusterLabSpec (Quantity : Type 0) : Type 0 where
  pub ttl : Text
  pub network : ClusterLabNetworkConfig
  pub quota : ClusterLabQuotaConfig Quantity

pub record ClusterLabInstanceCount : Type 0 where
  pub total : ℤ
  pub ready : ℤ

pub record ClusterLabStorageUsage (Quantity : Type 0) : Type 0 where
  pub used : Quantity

pub record ClusterLabComputeUsage (Quantity : Type 0) : Type 0 where
  pub cpu_used : Quantity
  pub memory_used : Quantity

pub record ClusterLabObjectsUsage : Type 0 where
  pub pods_used : ℤ
  pub services_used : ℤ

pub record ClusterLabQuotaUsage (Quantity : Type 0) : Type 0 where
  pub compute : ClusterLabComputeUsage Quantity
  pub storage : ClusterLabStorageUsage Quantity
  pub objects : ClusterLabObjectsUsage

pub record ClusterLabStatus (Quantity : Type 0) : Type 0 where
  pub phase : Text
  pub target_namespace : Text
  pub expires_at : Option Time
  pub instance_count : ClusterLabInstanceCount
  pub quota_usage : ClusterLabQuotaUsage Quantity
  pub conditions : List Condition

pub record ClusterLab (Quantity : Type 0) : Type 0 where
  pub metadata : ObjectMeta
  pub spec : ClusterLabSpec Quantity
  pub status : ClusterLabStatus Quantity
