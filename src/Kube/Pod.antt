-- ===== src/Kube/Pod.antt =====
-- The fields of the pod types of `corev1` that the program reads or writes. `Quantity` stands for
-- `resource.Quantity`.
use notebook_operator.Base.{Option, List, Bool}
use notebook_operator.Base.Int.{ℤ}
use notebook_operator.Base.Text.{Text}
use notebook_operator.Base.Dict.{Dict}
use notebook_operator.Kube.Meta.{ObjectMeta}

pub data VolumeSource (Quantity : Type 0) : Type 0 where
  persistent_volume_claim : Text → Bool → VolumeSource Quantity
  empty_dir : Option Quantity → VolumeSource Quantity
  host_path : Text → Text → VolumeSource Quantity

pub record Volume (Quantity : Type 0) : Type 0 where
  pub name : Text
  pub source : VolumeSource Quantity

pub record VolumeMount : Type 0 where
  pub name : Text
  pub mount_path : Text
  pub read_only : Bool

pub record SecretKeySelector : Type 0 where
  pub name : Text
  pub key : Text

pub record EnvVar : Type 0 where
  pub name : Text
  pub value : Text
  pub value_from : Option SecretKeySelector

pub record Toleration : Type 0 where
  pub key : Text
  pub operator : Text
  pub value : Text
  pub effect : Text

pub record ResourceRequirements (Quantity : Type 0) : Type 0 where
  pub limits : Dict Quantity
  pub requests : Dict Quantity

pub record SecurityContext : Type 0 where
  pub allow_privilege_escalation : Option Bool
  pub drop : List Text
  pub app_armor_profile : Option Text

pub record PodSecurityContext : Type 0 where
  pub run_as_non_root : Option Bool
  pub run_as_user : Option ℤ
  pub run_as_group : Option ℤ
  pub fs_group : Option ℤ
  pub seccomp_profile : Option Text
  pub app_armor_profile : Option Text

pub record ContainerPort : Type 0 where
  pub name : Text
  pub container_port : ℤ
  pub protocol : Text

pub record Container (Quantity : Type 0) : Type 0 where
  pub name : Text
  pub image : Text
  pub image_pull_policy : Text
  pub command : List Text
  pub volume_mounts : List VolumeMount
  pub ports : List ContainerPort
  pub env : List EnvVar
  pub resources : ResourceRequirements Quantity
  pub post_start : Option (List Text)
  pub security_context : Option SecurityContext

pub record PodSpec (Quantity : Type 0) : Type 0 where
  pub volumes : List (Volume Quantity)
  pub containers : List (Container Quantity)
  pub automount_service_account_token : Option Bool
  pub security_context : Option PodSecurityContext
  pub node_selector : Dict Text
  pub tolerations : List Toleration
  pub image_pull_secrets : List Text
  pub enable_service_links : Option Bool
  pub runtime_class_name : Option Text
  pub restart_policy : Text
  pub hostname : Text

pub record PodStatus : Type 0 where
  pub phase : Text
  pub pod_ip : Text

pub record Pod (Quantity : Type 0) : Type 0 where
  pub metadata : ObjectMeta
  pub spec : PodSpec Quantity
  pub status : PodStatus
