-- ===== src/Boundary/Shuffle.antt =====
-- `NetworkShuffleExec` of src/execution_plans/network_shuffle.rs: a consumer task reads a range of
-- partitions from every producer task. Of the plan properties the partitioning is modelled, and the
-- equivalence properties with their ordering are a parameter.

pub mod Requests
pub mod Reads
pub mod TwoPhase
use datafusion_distributed.Prelude.{
  ℕ, zero, suc, ◌+◌, ◌*◌, Bool, true, false, ◌||◌, List, [], ◌∷◌, Result, ok, err, ◌>>=◌,
  if◌then◌else◌, ltb,
}
use datafusion_distributed.Boundary.Partitioning.{
  PlanApi, Partitioning, PlanError, round_robin_batch, hash, unknown_partitioning, range,
  not_implemented, plan, scale_shuffle_partitioning, salted_partitioning,
}
use datafusion_distributed.Boundary.Coalesce.{Stage, local, remote, stage_task_count}

pub data ShuffleMode : Type 0 where
  direct : ShuffleMode
  two_phase : (salt : ℕ) → ShuffleMode

abbrev pub producer_salt_default : ℕ
producer_salt_default = 5871781006564002453

module _ (api : PlanApi) where
  open api use {E, R, partition_count}

  -- `ProducerHead::RepartitionExec`
  pub record RepartitionHead : Type 0 where
    pub partitioning : Partitioning E R
    pub preserve_order : Bool

  -- A read of partition `target` of producer task `task`, over a connection for the partitions from
  -- `first` up to `last`, which is not one of them.
  pub record Request : Type 0 where
    pub task : ℕ
    pub first : ℕ
    pub last : ℕ
    pub target : ℕ
    pub producer_head : RepartitionHead

  -- What `execute` returns: the plan of a local stage runs, or streams are read, one after another
  -- as they come or merged by their order.
  pub data ShuffleFetch : Type 0 where
    run_local : (partition : ℕ) → ShuffleFetch
    empty_stream : ShuffleFetch
    single : Request → ShuffleFetch
    sort_merge select_all : List Request → ShuffleFetch

  -- the streams that are read
  unfoldable pub requests_of : ShuffleFetch → List Request
  requests_of (run_local p) = []
  requests_of empty_stream = []
  requests_of (single r) = r ∷ []
  requests_of (sort_merge rs) = rs
  requests_of (select_all rs) = rs

  unfoldable pub is_range : Partitioning E R → Bool
  is_range (range r) = true
  is_range (round_robin_batch p) = false
  is_range (hash es p) = false
  is_range (unknown_partitioning p) = false

  -- The loop over the producer tasks from `task` on, of which `left` are still to be asked.
  unfoldable pub ask_all :
      (out off target : ℕ)
      → Result PlanError RepartitionHead
      → (task left : ℕ) → Result PlanError (List Request)
  ask_all out off target head task zero = ok []
  ask_all out off target head task (suc left) = do
    h ← head
    rest ← ask_all out off target head (suc task) left
    ok (
        record { task = task; first = off; last = off + out; target = target; producer_head = h }
        ∷ rest)

  unfoldable pub combine : Bool → List Request → ShuffleFetch
  combine ordered [] = empty_stream
  combine ordered (r ∷ []) = single r
  combine ordered (r ∷ s ∷ rs) =
      if ordered then sort_merge (r ∷ s ∷ rs) else select_all (r ∷ s ∷ rs)

  -- `clear` is `clear_per_partition_constants`, and `has_ordering` says whether the output ordering
  -- is there and not empty.
  module _ {Q : Type 0} (clear : Q → Q) (has_ordering : Q → Bool) where
    pub record PlanProperties : Type 0 where
      pub partitioning : Partitioning E R
      pub eq_properties : Q

    pub record NetworkShuffleExec : Type 0 where
      pub properties : PlanProperties
      pub producer_partitioning : Partitioning E R
      pub input_stage : Stage api
      pub worker_connections : ℕ
      pub mode : ShuffleMode

    unfoldable pub compute_properties : PlanProperties → ℕ → PlanProperties
    unfolding is_range
    compute_properties p tasks =
        if ltb 1 tasks || is_range p.partitioning
        then record {
          partitioning = if is_range p.partitioning then unknown_partitioning 1 else p.partitioning;
          eq_properties = if ltb 1 tasks then clear p.eq_properties else p.eq_properties;
        }
        else p

    unfoldable pub from_stage : Stage api → PlanProperties → NetworkShuffleExec
    unfolding compute_properties stage_task_count
    from_stage stage p = record {
      properties = compute_properties p (stage_task_count api stage);
      producer_partitioning = p.partitioning;
      input_stage = stage;
      worker_connections = stage_task_count api stage;
      mode = direct;
    }

    unfoldable pub to_two_phase_salted : NetworkShuffleExec → NetworkShuffleExec
    unfolding stage_task_count
    to_two_phase_salted n = record {
      properties = record {
        partitioning = unknown_partitioning (stage_task_count api n.input_stage);
        eq_properties = n.properties.eq_properties;
      };
      producer_partitioning = n.producer_partitioning;
      input_stage = n.input_stage;
      worker_connections = n.worker_connections;
      mode = two_phase producer_salt_default;
    }

    -- The input of `try_new`: a `RepartitionExec` or another plan.
    pub data Input : Type 0 where
      repartition_exec other_plan : PlanProperties → Input

    can_shuffle : Partitioning E R → Bool
    can_shuffle (hash es p) = true
    can_shuffle (range r) = true
    can_shuffle (round_robin_batch p) = false
    can_shuffle (unknown_partitioning p) = false

    pub try_new : Input → ℕ → Result PlanError NetworkShuffleExec
    unfolding can_shuffle
    try_new (other_plan p) tasks = err plan
    try_new (repartition_exec p) tasks =
        if can_shuffle p.partitioning
        then ok (from_stage (local p.partitioning tasks) p)
        else err plan

    pub with_input_stage : NetworkShuffleExec → Stage api → NetworkShuffleExec
    unfolding compute_properties stage_task_count
    with_input_stage n stage = record n {
      properties = compute_properties n.properties (stage_task_count api stage);
      input_stage = stage;
      worker_connections = stage_task_count api stage;
    }

    scaled_by : ShuffleMode → Partitioning E R → ℕ → Result PlanError (Partitioning E R)
    scaled_by direct p consumers = scale_shuffle_partitioning api p consumers
    scaled_by (two_phase salt) p consumers = salted_partitioning api p salt consumers

    unfoldable pub producer_head : NetworkShuffleExec → ℕ → Result PlanError RepartitionHead
    unfolding scaled_by
    producer_head n consumers = do
      p ← scaled_by n.mode n.producer_partitioning consumers
      ok (record { partitioning = p; preserve_order = has_ordering n.properties.eq_properties })

    -- The streams of one partition of consumer task `index` of `count`.
    unfoldable pub ask :
        NetworkShuffleExec
        → ShuffleMode
        → (tasks partition index count : ℕ) → Result PlanError (List Request)
    ask n direct tasks partition index count =
        let out = partition_count n.properties.partitioning in
        ask_all out (index * out) (index * out + partition) (producer_head n count) 0 tasks
    ask n (two_phase salt) tasks partition index count = do
      h ← producer_head n count
      ok (
          record {
            task = partition;
            first = index;
            last = index + 1;
            target = index;
            producer_head = h;
          }
          ∷ [])

    new_children :
        NetworkShuffleExec
        → Stage api
        → List (Partitioning E R)
        → Result PlanError NetworkShuffleExec
    new_children n (local input tasks) (child ∷ []) =
        ok (record n { input_stage = local child tasks })
    new_children n (local input tasks) children = err plan
    new_children n (remote tasks) [] = ok n
    new_children n (remote tasks) children = err not_implemented

    pub with_new_children :
        NetworkShuffleExec → List (Partitioning E R) → Result PlanError NetworkShuffleExec
    unfolding new_children
    with_new_children n children = new_children n n.input_stage children

    unfoldable pub execute_stage :
        NetworkShuffleExec → Stage api → (partition index count : ℕ) → Result PlanError ShuffleFetch
    unfolding ask combine
    execute_stage n (local input tasks) partition index count = ok (run_local partition)
    execute_stage n (remote tasks) partition index count = do
      rs ← ask n n.mode tasks partition index count
      ok (combine (has_ordering n.properties.eq_properties) rs)

    unfoldable pub execute :
        NetworkShuffleExec → (partition index count : ℕ) → Result PlanError ShuffleFetch
    unfolding execute_stage
    execute n partition index count = execute_stage n n.input_stage partition index count
