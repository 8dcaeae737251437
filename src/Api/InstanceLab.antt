-- ===== src/Api/InstanceLab.antt =====
-- api/v1alpha1/instancelab_types.go
use notebook_operator.Base.{List, Bool}
use notebook_operator.Base.Int.{ℤ}
use notebook_operator.Base.Text.{Text}
use notebook_operator.Kube.Meta.{ObjectMeta, Condition}

pub record InstanceLabResourceLimit (Quantity : Type 0) : Type 0 where
  pub request : Quantity
  pub limit : Quantity

pub record InstanceLabStorageLimit (Quantity : Type 0) : Type 0 where
  pub limit : Quantity

pub record InstanceLabResources (Quantity : Type 0) : Type 0 where
  pub cpu : InstanceLabResourceLimit Quantity
  pub memory : InstanceLabResourceLimit Quantity
  pub storage : InstanceLabStorageLimit Quantity

pub record InstanceLabPort : Type 0 where
  pub name : Text
  pub port : ℤ
  pub target_port : ℤ
  pub expose : Bool

pub record InstanceLabSpec (Quantity : Type 0) : Type 0 where
  pub cluster_lab_ref : Text
  pub image : Text
  pub image_pull_secrets : List Text
  pub hostname : Text
  pub resources : InstanceLabResources Quantity
  pub ports : List InstanceLabPort

pub record InstanceLabAccessEndpoint : Type 0 where
  pub name : Text
  pub protocol : Text
  pub url : Text
  pub internal_address : Text

pub record InstanceLabStatus : Type 0 where
  pub phase : Text
  pub pod_name : Text
  pub pod_ip : Text
  pub access_endpoints : List InstanceLabAccessEndpoint
  pub conditions : List Condition

pub record InstanceLab (Quantity : Type 0) : Type 0 where
  pub metadata : ObjectMeta
  pub spec : InstanceLabSpec Quantity
  pub status : InstanceLabStatus
