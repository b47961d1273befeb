-- ===== src/Pool/Examples.antt =====
-- A pool for one producer task with two partitions, the first of which nobody reads to the end
-- (src/worker/worker_connection_pool.rs).
use datafusion_distributed.Prelude.{
  ℕ, ◌≡◌, ◌≢◌, refl, Bool, true, false, List, [], ◌∷◌, none, some, ok, arith, All,
}
use datafusion_distributed.Pool.{
  Key, StreamSlot, StreamGroup, connecting, WorkerConnectionPool, Handle, Call, executes, sets_up,
  drops, new, execute, set_up, poll, run, step, streams, claim_at, drop_stream, take_at, put,
  entered,
}
use datafusion_distributed.Pool.Claims.{claimed_once}
use datafusion_distributed.Pool.Slots.{IsReleased}
use datafusion_distributed.Pool.Streams.{released}
use datafusion_distributed.Pool.Arrivals.{stream_arrives}
use datafusion_distributed.Pool.Shuffles.{open_partitions, every_partition_opens}
use datafusion_distributed.Boundary.Partitioning.{hash, scale_shuffle_partitioning}
use datafusion_distributed.Boundary.Shuffle.{
  PlanProperties, from_stage, compute_properties, is_range,
}
use datafusion_distributed.Boundary.Shuffle.Reads.{boundary}
use datafusion_distributed.Boundary.Coalesce.{stage_task_count}
use datafusion_distributed.Boundary.Examples.{numbers}

abbrev Pool : Type 0
Pool = WorkerConnectionPool ℕ ℕ

abbrev two : Key
two = record { task = 0; first = 4; last = 6 }

abbrev idle : Handle
idle = record { key = two; index = 0 }

abbrev active : Handle
active = record { key = two; index = 1 }

-- Both streams are claimed, and the reader of the first goes.
abbrev before_setup : List (Call ℕ ℕ)
before_setup = executes 1 two 4 ∷ executes 1 two 5 ∷ drops idle ∷ []

abbrev after_setup : List (Call ℕ ℕ)
after_setup =
    executes 1 two 4 ∷ executes 1 two 5 ∷ sets_up two (ok (30 ∷ 31 ∷ [])) ∷ drops idle ∷ []

abbrev gone : StreamSlot ℕ
gone = record { stream = none; claimed = true; closed = true }

abbrev waiting : StreamSlot ℕ
waiting = record { stream = none; claimed = true; closed = false }

abbrev abandoned : StreamGroup ℕ ℕ
abandoned = record { slots = gone ∷ waiting ∷ []; setup = connecting }

pool_before : (run (new 1) before_setup).groups two ≡ some abandoned
unfolding run step execute claim_at entered drop_stream take_at put new
pool_before = refl

claimed_once_example :
    (execute 1 two 4 (run (execute 1 two 4 (new {S = ℕ} {E = ℕ} 1)).0 (drops idle ∷ []))).1
    ≢ ok idle
unfolding execute entered claim_at put new
claimed_once_example = claimed_once 1 1 two 4 (new 1) (drops idle ∷ []) idle idle refl

released_example : All IsReleased (gone ∷ waiting ∷ [])
released_example = released 1 before_setup two abandoned pool_before

stream_arrives_example :
    (poll active
      (run (set_up two (ok (30 ∷ 31 ∷ [])) (run (new 1) before_setup)) (drops idle ∷ []))).1
    ≡ streams 31
stream_arrives_example =
    stream_arrives (run (new 1) before_setup) active abandoned (30 ∷ 31 ∷ []) 31 (drops idle ∷ [])
      pool_before refl refl refl refl (λ same e. omega (arith, e), tt)

abbrev keep : Bool → Bool
keep b = b

-- hash partitions of which nothing is sorted
abbrev three_hashed : PlanProperties numbers keep keep
three_hashed = record { partitioning = hash [] 3; eq_properties = false }

scaled_to_six : scale_shuffle_partitioning numbers (hash [] 3) 2 ≡ ok (hash [] 6)
unfolding scale_shuffle_partitioning
scaled_to_six = refl

every_partition_opens_example :
    (next : WorkerConnectionPool ℕ ℕ) × (open_partitions numbers keep keep
        (boundary numbers keep keep three_hashed 2)
        2
        1
        2
        (2 ∷ 0 ∷ 1 ∷ [])
        (new 2)
      ≡ ok next)
unfolding from_stage compute_properties is_range stage_task_count
every_partition_opens_example =
    every_partition_opens numbers keep keep three_hashed 2 1 2 (hash [] 6) (2 ∷ 0 ∷ 1 ∷ [])
      scaled_to_six (omega arith) (omega arith)
