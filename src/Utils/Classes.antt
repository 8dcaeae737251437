-- ===== src/Utils/Classes.antt =====
-- `GetStorageClassName` and `GetIngressClassName` of internal/utils/helpers.go. `env` stands for
-- `os.Getenv`, which answers a variable that is not set with the empty string.
pub mod Names
use notebook_operator.Base.{if◌then◌else◌}
use notebook_operator.Base.Text.{Text, codes, ◌==◌}
use notebook_operator.Utils.Strings.{is_empty, to_lower}

module _ (env : Text → Text) where
  -- The value of a variable, or a default.
  unfoldable pub env_or : Text → Text → Text
  env_or variable default = if is_empty (env variable) then default else env variable

  unfoldable pub get_storage_class_name : Text → Text
  unfolding env_or
  get_storage_class_name volume_type =
      if to_lower volume_type == codes "local"
      then env_or (codes "DEFAULT_LOCAL_STORAGE_CLASS") (codes "local-path")
      else if to_lower volume_type == codes "network"
      then env_or (codes "DEFAULT_NETWORK_STORAGE_CLASS") (codes "longhorn")
      else if to_lower volume_type == codes ""
      then codes ""
      else volume_type

  unfoldable pub get_ingress_class_name : Text
  unfolding env_or
  get_ingress_class_name = env_or (codes "DEFAULT_INGRESS_CLASS") (codes "nginx")
