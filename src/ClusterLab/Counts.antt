-- ===== src/ClusterLab/Counts.antt =====
-- The numbers of instances in the status of a cluster lab.
use notebook_operator.Base.{
  ℕ, ◌+◌, ◌≤◌, ◌<◌, ◌^◌, ◌≡◌, Bool, ◌&&◌, List, [], ◌∷◌, length, arith, if◌then◌else◌,
}
use notebook_operator.Base.Int.{pos, ◌+ℤ◌, wrap32, wrap32_pos}
use notebook_operator.Base.Text.{Text, codes, ◌==◌}
use notebook_operator.Utils.Strings.{to_lower}
use notebook_operator.Api.ClusterLab.{ClusterLabInstanceCount}
use notebook_operator.Api.InstanceLab.{InstanceLab}
use notebook_operator.ClusterLab.Status.{count_instance, count_instances}

abbrev counts : ℕ → ℕ → ClusterLabInstanceCount
counts t r = record { total = pos t; ready = pos r }

wrapped_suc : (n : ℕ) → n + 1 < 2 ^ 31 → wrap32 (pos n +ℤ pos 1) ≡ pos (n + 1)
unfolding ◌+ℤ◌
wrapped_suc n h = ground (arith, wrap32_pos (n + 1) h)

module _ {Quantity : Type 0} where
  unfoldable pub how_many : (InstanceLab Quantity → Bool) → List (InstanceLab Quantity) → ℕ
  how_many p [] = 0
  how_many p (x ∷ xs) = (if p x then 1 else 0) + how_many p xs

  abbrev pub belongs : Text → InstanceLab Quantity → Bool
  belongs name inst = inst.spec.cluster_lab_ref == name

  abbrev pub runs : Text → InstanceLab Quantity → Bool
  runs name inst = belongs name inst && to_lower inst.status.phase == codes "running"

  count_instance_lem :
      (name : Text) (x : InstanceLab Quantity) (t r : ℕ)
      → t + 1 < 2 ^ 31
      → r + 1 < 2 ^ 31
      → count_instance name x (counts t r)
        ≡ counts (t + (if belongs name x then 1 else 0)) (r + (if runs name x then 1 else 0))
  unfolding count_instance
  count_instance_lem name x t r ht hr = ground (arith, wrapped_suc t ht, wrapped_suc r hr)

  count_from :
      (name : Text) (items : List (InstanceLab Quantity)) (t r : ℕ)
      → t + length items < 2 ^ 31
      → r + length items < 2 ^ 31
      → count_instances name items (counts t r)
        ≡ counts (t + how_many (belongs name) items) (r + how_many (runs name) items)
  unfolding count_instances how_many
  count_from name [] t r ht hr = ground arith
  count_from name (x ∷ xs) t r ht hr =
      let rest =
        count_from name xs (t + (if belongs name x then 1 else 0))
          (r + (if runs name x then 1 else 0)) (ground arith) (ground arith) in
      rw (count_instance_lem name x t r (omega arith) (omega arith)) (ground (arith, rest))

  how_many_mono :
      (name : Text) (items : List (InstanceLab Quantity))
      → how_many (runs name) items ≤ how_many (belongs name) items
  unfolding how_many
  how_many_mono name [] = omega arith
  how_many_mono name (x ∷ xs) = let h = how_many_mono name xs in ground arith

  -- For fewer than 2^31 listed instances, the status counts exactly those that refer to the cluster
  -- and those of them whose phase is "running" in any case of letters, and the second number is at
  -- most the first.
  pub count_instances_lem :
      (name : Text) (items : List (InstanceLab Quantity))
      → length items < 2 ^ 31
      → (count_instances name items (record { total = pos 0; ready = pos 0 }) ≡ record {
        total = pos (how_many (belongs name) items);
        ready = pos (how_many (runs name) items);
      })
        × (how_many (runs name) items ≤ how_many (belongs name) items)
  count_instances_lem name items h = (
    ground (arith, count_from name items 0 0 (omega arith) (omega arith)),
    how_many_mono name items,
  )
