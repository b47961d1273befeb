-- ===== src/Boundary/Examples.antt =====
-- Instances of the theorems on boundaries, over partitionings without ranges.
use datafusion_distributed.Prelude.{
  ℕ, ◌<◌, ◌≡◌, ◌≢◌, refl, Option, ok, err, arith, if◌then◌else◌, ltb,
}
use datafusion_distributed.Boundary.Partitioning.{
  Partitioning, round_robin_batch, hash, unknown_partitioning, range, PlanApi,
  coalesce_partitioning,
}
use datafusion_distributed.Boundary.Coalesce.{
  execute, execute_stage, execute_remote, task_group, try_from_stage, remote_stream, no_partitions,
  stage_task_count,
}
use datafusion_distributed.Boundary.Coalesce.Reads.{
  boundary, reads_complete, reads_once, reads_sound, reads_total,
}

-- A range is known by its number of partitions.
abbrev pub count : Partitioning ℕ ℕ → ℕ
count (round_robin_batch n) = n
count (hash es n) = n
count (unknown_partitioning n) = n
count (range r) = r

-- A range is scaled down to fewer partitions only.
abbrev pub scale : ℕ → ℕ → Option ℕ
scale r n = if ltb r n then Option.none else Option.some n

pub count-scale : (r s n : ℕ) → scale r n ≡ Option.some s → s ≡ n
count-scale r s n h = ground arith

abbrev pub numbers : PlanApi
numbers = record {
  E = ℕ;
  R = ℕ;
  partition_count = count;
  range_partition_count = λ r. r;
  range_scale = scale;
  u64_literal = λ n. n;
  count-round_robin_batch = λ n. refl;
  count-hash = λ es n. refl;
  count-unknown_partitioning = λ n. refl;
  count-range = λ r. refl;
  count-range_scale = count-scale;
}

-- Three producer tasks of three partitions, read by two consumer tasks: the groups are of two tasks
-- and of one.
abbrev three : Partitioning ℕ ℕ
three = unknown_partitioning 3

reads_complete_example :
    (i part : ℕ) × (i < 2)
    × (part < count (boundary numbers three 3 2).properties)
    × (execute numbers (boundary numbers three 3 2) part i 2 ≡ ok (remote_stream 3 2 1))
reads_complete_example =
    reads_complete numbers three 3 2 2 1 (omega arith) (omega arith) (omega arith)

second_group : execute numbers (boundary numbers three 3 2) 1 1 2 ≡ ok (remote_stream 3 2 1)
unfolding execute execute_stage execute_remote try_from_stage stage_task_count task_group
    coalesce_partitioning
second_group = refl

reads_once_example : (◌≡◌ {A = ℕ} 1 1) × (◌≡◌ {A = ℕ} 1 1)
reads_once_example = reads_once numbers three 3 2 1 1 1 1 3 3 2 1 second_group second_group

reads_sound_example : (◌<◌ 2 3) × (1 < count three) × (3 ≡ count three)
reads_sound_example = reads_sound numbers three 3 2 1 1 3 2 1 second_group

reads_total_example : execute numbers (boundary numbers three 3 2) 4 1 2 ≢ err no_partitions
reads_total_example = reads_total numbers three 3 2 1 4 no_partitions (omega arith) (omega arith)
