-- ===== src/Kube/Objects.antt =====
-- The fields of the other Kubernetes objects that the program reads or writes.
use notebook_operator.Base.{Option, List}
use notebook_operator.Base.Int.{ℤ}
use notebook_operator.Base.Text.{Text}
use notebook_operator.Base.Dict.{Dict}
use notebook_operator.Kube.Meta.{ObjectMeta, LabelSelector}
use notebook_operator.Kube.Pod.{PodSpec}

pub record PersistentVolumeClaimSpec (Quantity : Type 0) : Type 0 where
  pub access_modes : List Text
  pub requests : Dict Quantity
  pub storage_class_name : Option Text

pub record PersistentVolumeClaim (Quantity : Type 0) : Type 0 where
  pub metadata : ObjectMeta
  pub spec : PersistentVolumeClaimSpec Quantity

pub record Secret : Type 0 where
  pub metadata : ObjectMeta
  pub data_map : Dict Text
  pub string_data : Dict Text

pub record PodTemplateSpec (Quantity : Type 0) : Type 0 where
  pub labels : Dict Text
  pub spec : PodSpec Quantity

pub record DeploymentSpec (Quantity : Type 0) : Type 0 where
  pub replicas : Option ℤ
  pub strategy : Text
  pub selector : LabelSelector
  pub template : PodTemplateSpec Quantity

pub record DeploymentStatus : Type 0 where
  pub replicas : ℤ
  pub ready_replicas : ℤ

pub record Deployment (Quantity : Type 0) : Type 0 where
  pub metadata : ObjectMeta
  pub spec : DeploymentSpec Quantity
  pub status : DeploymentStatus

pub record ServicePort : Type 0 where
  pub name : Text
  pub port : ℤ
  pub target_port : ℤ
  pub protocol : Text

pub record ServiceSpec : Type 0 where
  pub selector : Dict Text
  pub type : Text
  pub ports : List ServicePort

pub record Service : Type 0 where
  pub metadata : ObjectMeta
  pub spec : ServiceSpec

-- An HTTP path and its backend, a service with a port number.
pub record HttpIngressPath : Type 0 where
  pub path : Text
  pub path_type : Text
  pub service_name : Text
  pub service_port : ℤ

pub record IngressRule : Type 0 where
  pub host : Text
  pub paths : List HttpIngressPath

pub record IngressTls : Type 0 where
  pub hosts : List Text
  pub secret_name : Text

pub record IngressSpec : Type 0 where
  pub ingress_class_name : Option Text
  pub tls : List IngressTls
  pub rules : List IngressRule

pub record Ingress : Type 0 where
  pub metadata : ObjectMeta
  pub spec : IngressSpec

pub record Namespace : Type 0 where
  pub metadata : ObjectMeta

pub record ResourceQuota (Quantity : Type 0) : Type 0 where
  pub metadata : ObjectMeta
  pub hard : Dict Quantity
  pub used : Dict Quantity

pub record NetworkPolicyPeer : Type 0 where
  pub pod_selector : Option LabelSelector

pub record NetworkPolicyIngressRule : Type 0 where
  pub from : List NetworkPolicyPeer

pub record NetworkPolicySpec : Type 0 where
  pub pod_selector : LabelSelector
  pub policy_types : List Text
  pub ingress : List NetworkPolicyIngressRule

pub record NetworkPolicy : Type 0 where
  pub metadata : ObjectMeta
  pub spec : NetworkPolicySpec
