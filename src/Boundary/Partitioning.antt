-- ===== src/Boundary/Partitioning.antt =====
-- How a boundary scales a partitioning: src/execution_plans/common.rs.
use datafusion_distributed.Prelude.{
  ℕ, ◌*◌, ◌≤◌, ◌≡◌, List, [], ◌∷◌, ◌++◌, Option, Result, ok, err, if◌then◌else◌, leb, arith,
}

-- The variants of `Partitioning`, over its expressions `E` and range partitionings `R`.
pub data Partitioning (E R : Type 0) : Type 0 where
  round_robin_batch : ℕ → Partitioning E R
  hash : List E → ℕ → Partitioning E R
  unknown_partitioning : ℕ → Partitioning E R
  range : R → Partitioning E R

pub data PlanError : Type 0 where
  not_implemented plan external : PlanError

-- What the boundaries call of the planner's library, and that a partition count is the number that
-- the variant holds.
pub record PlanApi : Type 1 where
  pub E : Type 0
  pub R : Type 0
  pub partition_count : Partitioning E R → ℕ
  pub range_partition_count : R → ℕ
  pub range_scale : R → ℕ → Option R
  pub u64_literal : ℕ → E
  pub count-round_robin_batch : (n : ℕ) → partition_count (round_robin_batch n) ≡ n
  pub count-hash : (es : List E) (n : ℕ) → partition_count (hash es n) ≡ n
  pub count-unknown_partitioning : (n : ℕ) → partition_count (unknown_partitioning n) ≡ n
  pub count-range : (r : R) → partition_count (range r) ≡ range_partition_count r
  pub count-range_scale :
      (r s : R) (n : ℕ) → range_scale r n ≡ Option.some s → range_partition_count s ≡ n

module _ (api : PlanApi) where
  open api use {E, R, partition_count, range_partition_count, range_scale, u64_literal}

  unfoldable pub coalesce_partitioning : Partitioning E R → ℕ → Partitioning E R
  coalesce_partitioning (round_robin_batch p) m = round_robin_batch (p * m)
  coalesce_partitioning (hash es p) m = hash es (p * m)
  coalesce_partitioning (unknown_partitioning p) m = unknown_partitioning (p * m)
  coalesce_partitioning (range r) m =
      if leb m 1 then range r else unknown_partitioning (range_partition_count r * m)

  unfoldable pub scale_range : Option R → Result PlanError (Partitioning E R)
  scale_range (Option.some r) = ok (range r)
  scale_range Option.none = err external

  unfoldable pub scale_shuffle_partitioning :
      Partitioning E R → ℕ → Result PlanError (Partitioning E R)
  unfolding scale_range
  scale_shuffle_partitioning (round_robin_batch p) m = ok (round_robin_batch (p * m))
  scale_shuffle_partitioning (hash es p) m = ok (hash es (p * m))
  scale_shuffle_partitioning (unknown_partitioning p) m = ok (unknown_partitioning (p * m))
  scale_shuffle_partitioning (range r) m = scale_range (range_scale r m)

  unfoldable pub salted_partitioning :
      Partitioning E R → ℕ → ℕ → Result PlanError (Partitioning E R)
  salted_partitioning (hash es n) salt m = ok (hash (es ++ (u64_literal salt ∷ [])) m)
  salted_partitioning (round_robin_batch p) salt m = err not_implemented
  salted_partitioning (unknown_partitioning p) salt m = err not_implemented
  salted_partitioning (range r) salt m = err not_implemented

  -- Coalescing over a positive number of tasks multiplies the partition count by it.
  pub count-coalesce_partitioning :
      (p : Partitioning E R) (m : ℕ)
      → 1 ≤ m
      → partition_count (coalesce_partitioning p m) ≡ partition_count p * m
  unfolding coalesce_partitioning
  count-coalesce_partitioning (round_robin_batch p) m h =
      ground (arith, api.count-round_robin_batch p, api.count-round_robin_batch (p * m))
  count-coalesce_partitioning (hash es p) m h =
      ground (arith, api.count-hash es p, api.count-hash es (p * m))
  count-coalesce_partitioning (unknown_partitioning p) m h =
      ground (arith, api.count-unknown_partitioning p, api.count-unknown_partitioning (p * m))
  count-coalesce_partitioning (range r) m h =
      ground
        (arith, api.count-range r, api.count-unknown_partitioning (range_partition_count r * m))
