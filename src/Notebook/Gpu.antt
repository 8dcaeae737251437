-- ===== src/Notebook/Gpu.antt =====
-- `injectGPUResources` and `setOrUpdateEnv` of internal/controller/notebooklab_controller.go.
pub mod Limits
use notebook_operator.Base.{◌*◌, Option, none, some, List, [], ◌∷◌, ◌++◌, if◌then◌else◌}
use notebook_operator.Base.Int.{ℤ, pos, ltb_ℤ}
use notebook_operator.Base.Text.{Text, codes, ◌==◌}
use notebook_operator.Base.Dict.{insert}
use notebook_operator.Utils.Strings.{is_empty}
use notebook_operator.Utils.Decimal.{decimal, quotient}
use notebook_operator.Kube.Pod.{EnvVar, Container}
use notebook_operator.Api.NotebookLab.{GpuSpec, HamiSpec, MigSpec}
use notebook_operator.Client.{Machinery}

unfoldable pub set_or_update_env : List EnvVar → Text → Text → List EnvVar
set_or_update_env [] name value = record { name = name; value = value; value_from = none } ∷ []
set_or_update_env (e ∷ env) name value =
    if e.name == name
    then record e { value = value } ∷ env
    else e ∷ set_or_update_env env name value

abbrev pub gpu_resource : Text
gpu_resource = codes "nvidia.com/gpu"

abbrev pub gpumem_resource : Text
gpumem_resource = codes "nvidia.com/gpumem"

abbrev pub gpucores_resource : Text
gpucores_resource = codes "nvidia.com/gpucores"

abbrev pub mig_resource : Text → Text
mig_resource profile = codes "nvidia.com/mig-" ++ profile

module _ (M : Machinery) where
  -- container.Resources.Limits[resource] = *apiresource.NewQuantity(n, apiresource.DecimalSI)
  unfoldable pub set_limit : Text → ℤ → Container M.Quantity → Container M.Quantity
  set_limit resource n c = record c {
    resources = record c.resources {
      limits = insert resource (M.new_quantity n) c.resources.limits;
    };
  }

  abbrev pub set_env : Text → Text → Container M.Quantity → Container M.Quantity
  set_env name value c = record c { env = set_or_update_env c.env name value }

  abbrev pub mem_mib : HamiSpec M.Quantity → ℤ
  mem_mib hami = quotient (M.value hami.memory) (1024 * 1024)

  unfoldable pub inject_memory : HamiSpec M.Quantity → Container M.Quantity → Container M.Quantity
  unfolding set_limit set_or_update_env
  inject_memory hami c =
      if M.is_zero hami.memory
      then c
      else set_env (codes "CUDA_VGPU_MEM") (decimal (mem_mib hami))
          (set_limit gpumem_resource (mem_mib hami) c)

  unfoldable pub inject_cores : HamiSpec M.Quantity → Container M.Quantity → Container M.Quantity
  unfolding set_limit set_or_update_env
  inject_cores hami c =
      if ltb_ℤ (pos 0) hami.cores
      then set_env (codes "CUDA_VGPU_CORES") (decimal hami.cores)
          (set_limit gpucores_resource hami.cores c)
      else c

  unfoldable pub inject_mig : Option MigSpec → Container M.Quantity → Container M.Quantity
  unfolding set_limit
  inject_mig none c = c
  inject_mig (some mig) c =
      if is_empty mig.profile then c else set_limit (mig_resource mig.profile) (pos 1) c

  unfoldable pub inject_hami :
      Option (HamiSpec M.Quantity) → Container M.Quantity → Container M.Quantity
  unfolding inject_memory inject_cores
  inject_hami none c = c
  inject_hami (some hami) c = inject_cores hami (inject_memory hami c)

  unfoldable pub inject_gpu_resources :
      Container M.Quantity → GpuSpec M.Quantity → Container M.Quantity
  unfolding inject_mig inject_hami set_limit
  inject_gpu_resources c gpu =
      if gpu.type == codes "mig"
      then inject_mig gpu.mig c
      else inject_hami gpu.hami (set_limit gpu_resource (pos 1) c)
