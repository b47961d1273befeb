-- ===== src/Boundary/Coalesce.antt =====
-- `NetworkCoalesceExec` of src/execution_plans/network_coalesce.rs: a consumer task reads the
-- partitions of a contiguous group of producer tasks. Of the plan properties only the partitioning
-- is modelled, and of a stage its kind, its task count and the partitioning of a local plan.
mod Groups
pub mod Reads
use Prim.Native.Nat
use datafusion_distributed.Prelude.{
  ℕ, ◌+◌, ◌*◌, ◌/◌, ◌%◌, ◌≤◌, ◌≡◌, Bool, List, [], ◌∷◌, Result, ok, err, ◌>>=◌, if◌then◌else◌, leb,
  ltb, ◌==◌,
}
use datafusion_distributed.Boundary.Partitioning.{PlanApi, Partitioning, coalesce_partitioning}

pub record TaskGroup : Type 0 where
  pub start_task : ℕ
  pub len : ℕ
  pub max_len : ℕ

-- `usize::from(b)`
abbrev from_bool : Bool → ℕ
from_bool b = if b then 1 else 0

unfoldable pub task_group : ℕ → ℕ → ℕ → TaskGroup
task_group input_task_count task_index task_count =
    if task_count == 0
    then record { start_task = 0; len = 0; max_len = 0 }
    else let base = input_task_count / task_count in
      let extra = input_task_count % task_count in
      record {
        start_task = task_index * base + Nat.min task_index extra;
        len = base + from_bool (ltb task_index extra);
        max_len = base + from_bool (ltb 0 extra);
      }

-- `usize::div_ceil`; its caller never divides by zero
abbrev div_ceil : ℕ → ℕ → ℕ
div_ceil n k = n / k + (if ltb 0 (n % k) then 1 else 0)

-- The number of producer tasks in the largest group, at least one.
abbrev max_input_tasks : ℕ → ℕ → ℕ
max_input_tasks tasks consumers = Nat.max (div_ceil tasks consumers) 1

pub data CoalesceError : Type 0 where
  no_consumers invalid_task_context no_partitions offset_out_of_group : CoalesceError
  one_child_expected not_implemented : CoalesceError

-- What `execute` returns: the plan of a local stage runs, the stream is empty, or the partition
-- `target` of task `task` is read over a connection for the partitions below `partitions`.
pub data Fetch : Type 0 where
  run_local : ℕ → Fetch
  empty_stream : Fetch
  remote_stream : (partitions task target : ℕ) → Fetch

-- the read of a remote stage of `tasks` tasks, by task `index` of `count`
unfoldable pub execute_remote : (out tasks partition index count : ℕ) → Result CoalesceError Fetch
execute_remote out tasks partition index count =
    let per_task = out / max_input_tasks tasks count in
    let group = task_group tasks index count in
    if leb count index
    then err invalid_task_context
    else if per_task == 0
    then err no_partitions
    else if leb group.len (partition / per_task)
    then ok empty_stream
    else if leb group.max_len (partition / per_task)
    then err offset_out_of_group
    else ok
        (remote_stream per_task (group.start_task + partition / per_task) (partition % per_task))

module _ (api : PlanApi) where
  open api use {E, R, partition_count}

  pub data Stage : Type 0 where
    local : (plan : Partitioning E R) → (tasks : ℕ) → Stage
    remote : (tasks : ℕ) → Stage

  unfoldable pub stage_task_count : Stage → ℕ
  stage_task_count (local plan tasks) = tasks
  stage_task_count (remote tasks) = tasks

  pub record NetworkCoalesceExec : Type 0 where
    pub properties : Partitioning E R
    pub input_stage : Stage
    pub worker_connections : ℕ
    pub consumer_tasks : ℕ

  unfoldable pub try_from_stage : Stage → Partitioning E R → ℕ → NetworkCoalesceExec
  try_from_stage stage input consumers = record {
    properties =
        coalesce_partitioning api input (max_input_tasks (stage_task_count stage) consumers);
    input_stage = stage;
    worker_connections = stage_task_count stage;
    consumer_tasks = consumers;
  }

  pub try_new : Partitioning E R → ℕ → ℕ → Result CoalesceError NetworkCoalesceExec
  try_new input producers consumers =
      if consumers == 0
      then err no_consumers
      else ok (try_from_stage (local input producers) input consumers)

  -- the properties that a node takes on with a new input stage
  restaged_properties : NetworkCoalesceExec → Stage → Partitioning E R
  unfolding stage_task_count
  restaged_properties n (local plan tasks) =
      coalesce_partitioning api plan (max_input_tasks tasks n.consumer_tasks)
  restaged_properties n (remote tasks) = coalesce_partitioning api n.properties (
      Nat.max
        (max_input_tasks tasks n.consumer_tasks
          / max_input_tasks (stage_task_count n.input_stage) n.consumer_tasks)
        1)

  pub with_input_stage : NetworkCoalesceExec → Stage → NetworkCoalesceExec
  unfolding restaged_properties
  with_input_stage n stage = record {
    properties = restaged_properties n stage;
    input_stage = stage;
    worker_connections = stage_task_count stage;
    consumer_tasks = n.consumer_tasks;
  }

  new_children :
      NetworkCoalesceExec
      → Stage
      → List (Partitioning E R)
      → Result CoalesceError NetworkCoalesceExec
  new_children n (local plan tasks) (child ∷ []) = ok (record {
    properties = coalesce_partitioning api child (max_input_tasks tasks n.consumer_tasks);
    input_stage = local child tasks;
    worker_connections = n.worker_connections;
    consumer_tasks = n.consumer_tasks;
  })
  new_children n (local plan tasks) children = err one_child_expected
  new_children n (remote tasks) [] = ok n
  new_children n (remote tasks) children = err not_implemented

  pub with_new_children :
      NetworkCoalesceExec → List (Partitioning E R) → Result CoalesceError NetworkCoalesceExec
  unfolding new_children
  with_new_children n children = new_children n n.input_stage children

  unfoldable pub execute_stage :
      NetworkCoalesceExec → Stage → ℕ → ℕ → ℕ → Result CoalesceError Fetch
  execute_stage n (local plan tasks) partition index count = ok (run_local partition)
  execute_stage n (remote tasks) partition index count =
      execute_remote (partition_count n.properties) tasks partition index count

  unfoldable pub execute : NetworkCoalesceExec → ℕ → ℕ → ℕ → Result CoalesceError Fetch
  unfolding execute_stage
  execute n partition index count = execute_stage n n.input_stage partition index count
