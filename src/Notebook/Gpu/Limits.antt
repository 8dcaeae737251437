-- ===== src/Notebook/Gpu/Limits.antt =====
-- The limits of a GPU container.
use notebook_operator.Base.{◌≡◌, ◌≢◌, Option, none, some, ◌&&◌, ◌++◌, not, arith, if◌then◌else◌}
use notebook_operator.Base.Int.{ℤ, pos, ltb_ℤ}
use notebook_operator.Utils.Decimal.{quotient}
use notebook_operator.Base.Text.{Text, codes, ◌==◌}
use notebook_operator.Base.Dict.{lookup, lookup-insert}
use notebook_operator.Utils.Strings.{is_empty}
use notebook_operator.Kube.Pod.{Container}
use notebook_operator.Api.NotebookLab.{GpuSpec, HamiSpec, MigSpec}
use notebook_operator.Client.{Machinery}
use notebook_operator.Notebook.Gpu.{
  gpu_resource, gpumem_resource, gpucores_resource, mig_resource, mem_mib, set_limit, inject_memory,
  inject_cores, inject_mig, inject_hami, inject_gpu_resources,
}

gpu-ne-gpumem : codes "nvidia.com/gpu" ≢ codes "nvidia.com/gpumem"
unfolding codes
gpu-ne-gpumem e = cc

gpu-ne-gpucores : codes "nvidia.com/gpu" ≢ codes "nvidia.com/gpucores"
unfolding codes
gpu-ne-gpucores e = cc

module _ (M : Machinery) where
  -- The memory in MiB, rounded towards zero.
  abbrev mib : M.Quantity → ℤ
  mib q = quotient (M.value q) 1048576

  abbrev hami_limit : Option (HamiSpec M.Quantity) → Text → Option M.Quantity
  hami_limit none k = none
  hami_limit (some h) k =
      if codes "nvidia.com/gpumem" == k
      then (if M.is_zero h.memory then none else some (M.new_quantity (mib h.memory)))
      else if codes "nvidia.com/gpucores" == k
      then (if ltb_ℤ (pos 0) h.cores then some (M.new_quantity h.cores) else none)
      else none

  abbrev mig_limit : Option MigSpec → Text → Option M.Quantity
  mig_limit none k = none
  mig_limit (some g) k =
      if not (is_empty g.profile) && (codes "nvidia.com/mig-" ++ g.profile) == k
      then some (M.new_quantity (pos 1))
      else none

  -- What a notebook asks of a device plugin under the name of a resource, if anything.
  unfoldable pub gpu_limit : GpuSpec M.Quantity → Text → Option M.Quantity
  gpu_limit gpu k =
      if gpu.type == codes "mig"
      then mig_limit gpu.mig k
      else if codes "nvidia.com/gpu" == k
      then some (M.new_quantity (pos 1))
      else hami_limit gpu.hami k

  abbrev limit_in : Container M.Quantity → Text → Option M.Quantity
  limit_in c k = lookup k c.resources.limits

  limit-inject_mig :
      (c : Container M.Quantity) (g : Option MigSpec) (k : Text)
      → limit_in (inject_mig M g c) k
        ≡ elim (mig_limit g k) [ none ↦ limit_in c k | some q ↦ some q ]
  unfolding inject_mig set_limit
  limit-inject_mig c none k = ground arith
  limit-inject_mig c (some g) k =
      ground (
        arith,
        lookup-insert (mig_resource g.profile) k (M.new_quantity (pos 1)) c.resources.limits,
      )

  limit-inject_memory :
      (c : Container M.Quantity) (h : HamiSpec M.Quantity) (k : Text)
      → limit_in (inject_memory M h c) k ≡ (
          if not (M.is_zero h.memory) && gpumem_resource == k
          then some (M.new_quantity (mem_mib M h))
          else limit_in c k)
  unfolding inject_memory set_limit
  limit-inject_memory c h k =
      ground
        (arith, lookup-insert gpumem_resource k (M.new_quantity (mem_mib M h)) c.resources.limits)

  limit-inject_cores :
      (c : Container M.Quantity) (h : HamiSpec M.Quantity) (k : Text)
      → limit_in (inject_cores M h c) k ≡ (
          if ltb_ℤ (pos 0) h.cores && gpucores_resource == k
          then some (M.new_quantity h.cores)
          else limit_in c k)
  unfolding inject_cores set_limit
  limit-inject_cores c h k =
      ground (arith, lookup-insert gpucores_resource k (M.new_quantity h.cores) c.resources.limits)

  limit-inject_hami :
      (c : Container M.Quantity) (h : Option (HamiSpec M.Quantity)) (k : Text)
      → limit_in (inject_hami M h c) k
        ≡ elim (hami_limit h k) [ none ↦ limit_in c k | some q ↦ some q ]
  unfolding inject_hami codes
  limit-inject_hami c none k = ground arith
  limit-inject_hami c (some h) k =
      ground (arith, limit-inject_cores (inject_memory M h c) h k, limit-inject_memory c h k)

  -- After the change, the container's limit of every resource is what the notebook asks of the device
  -- plugin, and what it was before where the notebook asks for nothing: one MIG slice of the profile
  -- for the type "mig", and one GPU, with the memory in MiB and the cores that are set, for any other
  -- type.
  pub inject_gpu_resources_lem :
      (c : Container M.Quantity) (gpu : GpuSpec M.Quantity) (k : Text)
      → lookup k (inject_gpu_resources M c gpu).resources.limits
        ≡ elim (gpu_limit gpu k) [ none ↦ lookup k c.resources.limits | some q ↦ some q ]
  unfolding inject_gpu_resources gpu_limit set_limit
  inject_gpu_resources_lem c gpu k = ground (
    arith,
    limit-inject_mig c gpu.mig k,
    limit-inject_hami (set_limit M gpu_resource (pos 1) c) gpu.hami k,
    lookup-insert gpu_resource k (M.new_quantity (pos 1)) c.resources.limits,
    gpu-ne-gpumem,
    gpu-ne-gpucores,
  )
