-- ===== src/InstanceLab/Parents.antt =====
-- The parent of an instance, as `resolveParentClusterLab` finds it.
use notebook_operator.Base.{ap, Bool-cases, inl, inr, ◌∙◌, if◌then◌else◌, ◌≡◌, none, some}
use notebook_operator.Exec.{Result, ok, err, is_not_found, pure, continue, ◌>>=◌}
use notebook_operator.Api.ClusterLab.{ClusterLab}
use notebook_operator.Api.InstanceLab.{InstanceLab}
use notebook_operator.Client.{Client, Machinery, clusterlab}
use notebook_operator.InstanceLab.Reconcile.{
  Parent, parent_key, is_ready, resolve_by, resolve_parent_cluster_lab,
}

module _ (M : Machinery) (C : Client M.Quantity) where
  -- What is taken as the parent is what was read, if it is ready.
  abbrev parent_of : ClusterLab M.Quantity → InstanceLab M.Quantity → Parent M.Quantity
  parent_of lab inst = record { cluster = if is_ready lab then some lab else none; inst = inst }

  ready_parent :
      (lab parent : ClusterLab M.Quantity) (inst : InstanceLab M.Quantity)
      → (parent_of lab inst).cluster ≡ some parent
      → lab ≡ parent
  ready_parent lab parent inst h = elim (Bool-cases (is_ready lab)) [
    | inl b ↦ let e : some lab ≡ some parent = rw b at h in cc
    | inr b ↦ let e : none ≡ some parent = rw b at h in cc
  ]

  adopted_parent :
      (lab parent : ClusterLab M.Quantity) (p : Parent M.Quantity)
      (s : Result (InstanceLab M.Quantity)) (v : C.World)
      → (continue s (λ a. pure (parent_of lab a)) v).0 ≡ ok p
      → p.cluster ≡ some parent
      → lab ≡ parent
  unfolding ◌>>=◌
  adopted_parent lab parent p (ok inst) v h ready =
      let e : parent_of lab inst ≡ p = cc in
      ready_parent lab parent inst (ap (λ (x : Parent M.Quantity). x.cluster) e ∙ ready)
  adopted_parent lab parent p (err e) v h ready = cc

  resolved_read :
      (inst : InstanceLab M.Quantity) (p : Parent M.Quantity) (parent : ClusterLab M.Quantity)
      (r : Result (ClusterLab M.Quantity)) (v : C.World)
      → (resolve_by M C inst r v).0 ≡ ok p
      → p.cluster ≡ some parent
      → r ≡ ok parent
  unfolding resolve_by ◌>>=◌
  resolved_read inst p parent (ok lab) v h ready = ap ok (adopted_parent lab parent p _ _ h ready)
  resolved_read inst p parent (err e) v h ready = elim (Bool-cases (is_not_found e)) [
    | inl b ↦
        let missing : Parent M.Quantity = record { cluster = none; inst = inst } in
        let e' : ok missing ≡ ok p = rw b at h in cc
    | inr b ↦
        let stop : Result (Parent M.Quantity) = err e in let e' : stop ≡ ok p = rw b at h in cc
  ]

  pub parent_read :
      (inst : InstanceLab M.Quantity) (p : Parent M.Quantity) (parent : ClusterLab M.Quantity)
      (v u : C.World)
      → resolve_parent_cluster_lab M C inst v ≡ (ok p, u)
      → p.cluster ≡ some parent
      → C.get clusterlab (parent_key inst) v ≡ ok parent
  unfolding resolve_parent_cluster_lab ◌>>=◌
  parent_read inst p parent v u h ready =
      resolved_read inst p parent (C.get clusterlab (parent_key inst) v) v (ap (λ x. x.0) h) ready
