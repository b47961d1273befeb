-- ===== src/Boundary/NetworkBroadcast.antt =====
-- `NetworkBroadcastExec` of src/execution_plans/network_broadcast.rs, the `BroadcastExec` that
-- src/distributed_planner/network_boundary.rs puts under it, and the consumer for which a partition
-- of it is executed (src/execution_plans/broadcast.rs). Of the properties only the partitioning is
-- modelled.
pub mod Routing
use datafusion_distributed.Prelude.{
  ℕ, zero, suc, ◌+◌, ◌*◌, ◌/◌, ◌%◌, List, [], ◌∷◌, Result, ok, err,
}
use datafusion_distributed.Boundary.Partitioning.{
  PlanApi, Partitioning, PlanError, unknown_partitioning, plan, not_implemented,
}
use datafusion_distributed.Boundary.Coalesce.{Stage, local, remote, stage_task_count}

-- `ProducerHead::BroadcastExec`
pub record BroadcastHead : Type 0 where
  pub output_partitions : ℕ

-- A `BroadcastExec` on an input of so many partitions.
pub record BroadcastExec : Type 0 where
  pub input_partitions : ℕ
  pub consumer_task_count : ℕ

-- `ProducerHead::insert` on an input of so many partitions, for the head of a broadcast
unfoldable pub insert : BroadcastHead → ℕ → BroadcastExec
insert head partitions = record {
  input_partitions = partitions;
  consumer_task_count = head.output_partitions / partitions;
}

-- The input partition, and the consumer task, for which `BroadcastExec` executes a partition.
unfoldable pub real_partition : BroadcastExec → ℕ → ℕ
real_partition b partition = partition % b.input_partitions

unfoldable pub consumer_task : BroadcastExec → ℕ → ℕ
consumer_task b partition = partition / b.input_partitions

-- A read of partition `target` of producer task `task`, over a connection for the partitions from
-- `first` up to `last`, which is not one of them.
pub record BroadcastRequest : Type 0 where
  pub task : ℕ
  pub first : ℕ
  pub last : ℕ
  pub target : ℕ
  pub producer_head : BroadcastHead

pub data BroadcastFetch : Type 0 where
  run_local : (partition : ℕ) → BroadcastFetch
  select_all : List BroadcastRequest → BroadcastFetch

-- The loop over the producer tasks from `task` on, of which `left` are still to be asked.
unfoldable pub ask_all :
    (out off partition : ℕ) → BroadcastHead → (task left : ℕ) → List BroadcastRequest
ask_all out off partition head task zero = []
ask_all out off partition head task (suc left) =
    record {
      task = task;
      first = off;
      last = off + out;
      target = off + partition;
      producer_head = head;
    }
    ∷ ask_all out off partition head (suc task) left

module _ (api : PlanApi) where
  open api use {E, R, partition_count}

  pub record NetworkBroadcastExec : Type 0 where
    pub properties : Partitioning E R
    pub input_stage : Stage api
    pub worker_connections : ℕ

  unfoldable pub from_stage : Stage api → Partitioning E R → NetworkBroadcastExec
  unfolding stage_task_count
  from_stage stage input = record {
    properties = unknown_partitioning (partition_count input);
    input_stage = stage;
    worker_connections = stage_task_count api stage;
  }

  -- The input of `try_new`: a `BroadcastExec` or another plan, with its partitioning.
  pub data Input : Type 0 where
    broadcast_exec other_plan : Partitioning E R → Input

  pub try_new : Input → ℕ → Result PlanError NetworkBroadcastExec
  try_new (other_plan p) tasks = err plan
  try_new (broadcast_exec p) tasks = ok (from_stage (local p tasks) p)

  pub with_input_stage : NetworkBroadcastExec → Stage api → NetworkBroadcastExec
  unfolding stage_task_count
  with_input_stage n stage = record n {
    input_stage = stage;
    worker_connections = stage_task_count api stage;
  }

  unfoldable pub producer_head : NetworkBroadcastExec → ℕ → BroadcastHead
  producer_head n consumers = record {
    output_partitions = partition_count n.properties * consumers;
  }

  new_children :
      NetworkBroadcastExec
      → Stage api
      → List (Partitioning E R)
      → Result PlanError NetworkBroadcastExec
  new_children n (local input tasks) (child ∷ []) =
      ok (record n { input_stage = local child tasks })
  new_children n (local input tasks) children = err plan
  new_children n (remote tasks) [] = ok n
  new_children n (remote tasks) children = err not_implemented

  pub with_new_children :
      NetworkBroadcastExec → List (Partitioning E R) → Result PlanError NetworkBroadcastExec
  unfolding new_children
  with_new_children n children = new_children n n.input_stage children

  unfoldable pub execute_stage :
      NetworkBroadcastExec → Stage api → (partition index count : ℕ) → BroadcastFetch
  unfolding ask_all producer_head
  execute_stage n (local input tasks) partition index count = run_local partition
  execute_stage n (remote tasks) partition index count =
      let out = partition_count n.properties in
      select_all (ask_all out (out * index) partition (producer_head n count) 0 tasks)

  -- Partition `partition` of consumer task `index` of `count`.
  unfoldable pub execute : NetworkBroadcastExec → (partition index count : ℕ) → BroadcastFetch
  unfolding execute_stage
  execute n partition index count = execute_stage n n.input_stage partition index count
