-- ===== src/ClusterLab/Quota.antt =====
-- The limits of a lab's resource quota.
use notebook_operator.Base.{◌≡◌, Option, none, some, ◌||◌, arith, if◌then◌else◌, not, ◌&&◌}
use notebook_operator.Base.Int.{ℤ, pos, ltb_ℤ}
use notebook_operator.Base.Text.{Text, codes, ◌==◌}
use notebook_operator.Base.Dict.{Dict, lookup, insert, lookup-insert}
use notebook_operator.Api.ClusterLab.{ClusterLabQuotaConfig}
use notebook_operator.Client.{Machinery}
use notebook_operator.ClusterLab.Provision.{set_both, set_count, set_storage, quota_hard}

module _ (M : Machinery) where
  lookup-set_both :
      (k l r : Text) (q : M.Quantity) (hard : Dict M.Quantity)
      → lookup k (set_both M l r q hard)
        ≡ (if not (M.is_zero q) && (l == k || r == k) then some q else lookup k hard)
  unfolding set_both
  lookup-set_both k l r q hard =
      ground (arith, lookup-insert r k q (insert l q hard), lookup-insert l k q hard)

  lookup-set_count :
      (k l : Text) (n : ℤ) (hard : Dict M.Quantity)
      → lookup k (set_count M l n hard)
        ≡ (if ltb_ℤ (pos 0) n && l == k then some (M.new_quantity n) else lookup k hard)
  unfolding set_count
  lookup-set_count k l n hard = ground (arith, lookup-insert l k (M.new_quantity n) hard)

  lookup-set_storage :
      (k : Text) (q : M.Quantity) (hard : Dict M.Quantity)
      → lookup k (set_storage M q hard) ≡ (
          if not (M.is_zero q) && codes "limits.ephemeral-storage" == k
          then some q
          else lookup k hard)
  unfolding set_storage
  lookup-set_storage k q hard =
      ground (arith, lookup-insert (codes "limits.ephemeral-storage") k q hard)

  abbrev nonzero : M.Quantity → Option M.Quantity
  nonzero q = if M.is_zero q then none else some q

  abbrev counted : ℤ → Option M.Quantity
  counted n = if ltb_ℤ (pos 0) n then some (M.new_quantity n) else none

  -- What the cluster lab asks for under a name of a resource, if anything.
  unfoldable pub limit_of : ClusterLabQuotaConfig M.Quantity → Text → Option M.Quantity
  limit_of quota k =
      if codes "limits.cpu" == k || codes "requests.cpu" == k
      then nonzero quota.compute.cpu.limit
      else if codes "limits.memory" == k || codes "requests.memory" == k
      then nonzero quota.compute.memory.limit
      else if codes "pods" == k
      then counted quota.objects.pods_limit
      else if codes "services" == k
      then counted quota.objects.services_limit
      else if codes "limits.ephemeral-storage" == k
      then nonzero quota.storage.limit
      else none

  -- After the change, the quota's limit of every resource is what the cluster lab asks for, and what
  -- it was before where the cluster lab asks for nothing: CPU and memory limits bound the requests
  -- too, and a limit that is reset to zero stays in force.
  pub quota_hard_lem :
      (quota : ClusterLabQuotaConfig M.Quantity) (hard : Dict M.Quantity) (k : Text)
      → lookup k (quota_hard M quota hard)
        ≡ elim (limit_of quota k) [ none ↦ lookup k hard | some q ↦ some q ]
  unfolding quota_hard limit_of codes
  quota_hard_lem quota hard k =
      rw (lookup-set_storage, lookup-set_count, lookup-set_count, lookup-set_both, lookup-set_both)
        (ground arith)
