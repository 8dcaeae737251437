-- ===== src/Utils/Classes/Names.antt =====
-- When a class name is empty.
use notebook_operator.Base.{ℕ, ◌≡◌, refl, Bool-cases, inl, inr, false, [], ◌∷◌, arith}
use notebook_operator.Base.Text.{Text, codes, text_dec}
use notebook_operator.Utils.Strings.{is_empty, to_lower}
use notebook_operator.Utils.Classes.{env_or, get_storage_class_name, get_ingress_class_name}

module _ (env : Text → Text) where
  env_or_nonempty :
      (variable default : Text)
      → is_empty default ≡ false
      → is_empty (env_or env variable default) ≡ false
  unfolding env_or
  env_or_nonempty variable default h = elim (Bool-cases (is_empty (env variable))) [
    | inl b ↦ rw b h
    | inr b ↦ rw (b, b)
  ]

  local_default :
      is_empty (env_or env (codes "DEFAULT_LOCAL_STORAGE_CLASS") (codes "local-path")) ≡ false
  unfolding codes
  local_default = env_or_nonempty _ _ refl

  network_default :
      is_empty (env_or env (codes "DEFAULT_NETWORK_STORAGE_CLASS") (codes "longhorn")) ≡ false
  unfolding codes
  network_default = env_or_nonempty _ _ refl

  named : (c : ℕ) (s : Text) → is_empty (get_storage_class_name env (c ∷ s)) ≡ false
  unfolding get_storage_class_name codes to_lower
  named c s = ground (arith, local_default, network_default)

  -- Whatever the environment says, the storage class of a volume type is the empty one exactly for the
  -- empty type, in any case of letters, and the class of an ingress is never empty.
  pub class_names :
      (volume_type : Text)
      → (is_empty (get_storage_class_name env volume_type) ≡ is_empty volume_type)
        × (is_empty (get_ingress_class_name env) ≡ false)
  unfolding get_storage_class_name get_ingress_class_name codes to_lower text_dec
  class_names [] = (refl, env_or_nonempty _ _ refl)
  class_names (c ∷ s) = (named c s, env_or_nonempty _ _ refl)
