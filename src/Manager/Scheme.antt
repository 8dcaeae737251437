-- ===== src/Manager/Scheme.antt =====
-- The scheme of cmd/main.go: `init` there, api/v1alpha1/groupversion_info.go, and the `init` functions
-- of api/v1alpha1/*_types.go, which Go calls in the order of the files' names.
use notebook_operator.Base.{List, [], ◌∷◌}
use notebook_operator.Base.Text.{Text, codes}
use notebook_operator.Exec.{Result, ok, err}

-- `schema.GroupVersion`
pub record GroupVersion : Type 0 where
  pub group : Text
  pub version : Text

abbrev pub group_version : GroupVersion
group_version = record { group = codes "lab.ngtukien.id.vn"; version = codes "v1alpha1" }

-- The types that each file of the package registers.
abbrev pub cluster_lab_types : List Text
cluster_lab_types = codes "ClusterLab" ∷ codes "ClusterLabList" ∷ []

abbrev pub instance_lab_types : List Text
instance_lab_types = codes "InstanceLab" ∷ codes "InstanceLabList" ∷ []

abbrev pub notebook_lab_types : List Text
notebook_lab_types = codes "NotebookLab" ∷ codes "NotebookLabList" ∷ []

-- What is called of apimachinery and client-go. `add_known_types` takes the names of the Go types,
-- `apply_all` is `SchemeBuilder.AddToScheme` with the functions of the builder.
pub record SchemeLibrary : Type 1 where
  pub Scheme : Type 0
  pub new_scheme : Scheme
  pub add_client_go : Scheme → Result Scheme
  pub add_to_group_version : GroupVersion → Scheme → Scheme
  pub add_known_types : GroupVersion → List Text → Scheme → Scheme
  pub apply_all : List (Scheme → Result Scheme) → Scheme → Result Scheme

-- On the next step if there is a scheme.
abbrev pub and_then : {A B : Type 0} → Result A → (A → Result B) → Result B
and_then (ok a) f = f a
and_then (err e) f = err e

module _ (K : SchemeLibrary) where
  unfoldable pub register_group : K.Scheme → Result K.Scheme
  register_group s = ok (K.add_to_group_version group_version s)

  unfoldable pub register_cluster_lab : K.Scheme → Result K.Scheme
  register_cluster_lab s = ok (K.add_known_types group_version cluster_lab_types s)

  unfoldable pub register_instance_lab : K.Scheme → Result K.Scheme
  register_instance_lab s = ok (K.add_known_types group_version instance_lab_types s)

  unfoldable pub register_notebook_lab : K.Scheme → Result K.Scheme
  register_notebook_lab s = ok (K.add_known_types group_version notebook_lab_types s)

  unfoldable pub scheme_builder : List (K.Scheme → Result K.Scheme)
  unfolding register_group register_cluster_lab register_instance_lab register_notebook_lab
  scheme_builder =
      register_group ∷ register_cluster_lab ∷ register_instance_lab ∷ register_notebook_lab ∷ []

  -- An error is the panic of `utilruntime.Must`.
  unfoldable pub init_scheme : Result K.Scheme
  unfolding scheme_builder
  init_scheme = and_then (K.add_client_go K.new_scheme) (K.apply_all scheme_builder)
