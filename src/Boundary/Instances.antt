-- ===== src/Boundary/Instances.antt =====
-- Instances of the theorems on shuffles and broadcasts, over partitionings that are known by their
-- numbers of partitions.
use datafusion_distributed.Prelude.{
  ℕ, ◌≤◌, ◌<◌, ◌≡◌, refl, Bool, false, List, [], ◌∷◌, Option, ok, get_elem?, arith,
}
use datafusion_distributed.Boundary.Partitioning.{
  hash, unknown_partitioning, scale_shuffle_partitioning, salted_partitioning,
}
use datafusion_distributed.Boundary.Coalesce.{stage_task_count}
use datafusion_distributed.Boundary.Shuffle.{
  Request, ShuffleFetch, PlanProperties, select_all, single, requests_of, is_range, ask_all,
  combine, compute_properties, from_stage, producer_head, ask, execute, execute_stage,
  producer_salt_default,
}
use datafusion_distributed.Boundary.Shuffle.Reads.{
  Reads, boundary, shuffle_complete, shuffle_once, shuffle_sound,
}
use datafusion_distributed.Boundary.Shuffle.TwoPhase.{
  salted_boundary, two_phase_complete, two_phase_sound,
}
use datafusion_distributed.Boundary.Examples.{numbers, count}
use datafusion_distributed.Boundary.NetworkBroadcast.{
  BroadcastRequest, real_partition, consumer_task,
}
use datafusion_distributed.Boundary.NetworkBroadcast as broadcast
use datafusion_distributed.Boundary.NetworkBroadcast.Routing.{producer, broadcast_routed}
use datafusion_distributed.Boundary.NetworkBroadcast.Routing as routing

abbrev keep : Bool → Bool
keep b = b

-- hash partitions of which nothing is sorted
abbrev three_hashed : PlanProperties numbers keep keep
three_hashed = record { partitioning = hash [] 3; eq_properties = false }

-- the partitioning of a producer for two consumer tasks
scaled_to_six : scale_shuffle_partitioning numbers (hash [] 3) 2 ≡ ok (hash [] 6)
unfolding scale_shuffle_partitioning
scaled_to_six = refl

shuffle_complete_example :
    (i part : ℕ) × (i < 2)
    × (part < count (boundary numbers keep keep three_hashed 2).properties.partitioning)
    × Reads numbers keep keep three_hashed 2 2 part i 1 4
shuffle_complete_example =
    shuffle_complete numbers keep keep three_hashed 2 2 1 4 (hash [] 6) scaled_to_six (omega arith)
      (omega arith)

abbrev fourth : ℕ → Request numbers
fourth task = record {
  task = task;
  first = 3;
  last = 6;
  target = 4;
  producer_head = record { partitioning = hash [] 6; preserve_order = false };
}

abbrev fourths : ShuffleFetch numbers
fourths = select_all (fourth 0 ∷ fourth 1 ∷ [])

three_advertised : 1 < count (boundary numbers keep keep three_hashed 2).properties.partitioning
unfolding from_stage compute_properties is_range stage_task_count
three_advertised = omega arith

read_fourth :
    execute numbers keep keep (boundary numbers keep keep three_hashed 2) 1 1 2 ≡ ok fourths
unfolding execute execute_stage ask ask_all combine producer_head from_stage compute_properties
    is_range stage_task_count scale_shuffle_partitioning
read_fourth = refl

of_second_task : get_elem? (requests_of numbers fourths) 1 ≡ Option.some (fourth 1)
unfolding requests_of
of_second_task = refl

shuffle_once_example : (◌≡◌ {A = ℕ} 1 1) × (◌≡◌ {A = ℕ} 1 1)
shuffle_once_example =
    shuffle_once numbers keep keep three_hashed 2 2 1 1 1 1 1 (hash [] 6) fourths fourths (fourth 1)
      (fourth 1) scaled_to_six three_advertised three_advertised read_fourth read_fourth
      of_second_task of_second_task refl

shuffle_sound_example :
    (◌<◌ 1 2) × (◌≡◌ {A = ℕ} 1 1) × (4 < count (hash [] 6)) × (◌≤◌ 3 4) × (◌<◌ 4 6)
shuffle_sound_example =
    shuffle_sound numbers keep keep three_hashed 2 2 1 1 1 (hash [] 6) fourths (fourth 1)
      scaled_to_six (omega arith) three_advertised read_fourth of_second_task

abbrev salted : Request numbers
salted = record {
  task = 1;
  first = 0;
  last = 1;
  target = 0;
  producer_head = record {
    partitioning = hash (producer_salt_default ∷ []) 2;
    preserve_order = false;
  };
}

read_salted :
    execute numbers keep keep (salted_boundary numbers keep keep three_hashed 2) 1 0 2
    ≡ ok (single salted)
unfolding execute execute_stage ask combine producer_head salted_boundary compute_properties
    is_range stage_task_count salted_partitioning
read_salted = refl

salted_for_two :
    salted_partitioning numbers (hash [] 3) producer_salt_default 2
    ≡ ok (hash (producer_salt_default ∷ []) 2)
unfolding salted_partitioning
salted_for_two = refl

two_phase_complete_example :
    (i part : ℕ) × (i < 2)
    × (part < count (salted_boundary numbers keep keep three_hashed 2).properties.partitioning)
    × (r : Request numbers) × (execute numbers keep keep
          (salted_boundary numbers keep keep three_hashed 2)
          part
          i
          2
        ≡ ok (single r))
    × (r.task ≡ 1)
    × (r.target ≡ 0)
    × (r.first ≤ 0)
    × (0 < r.last)
two_phase_complete_example =
    two_phase_complete numbers keep keep three_hashed 2 2 1 0 (hash (producer_salt_default ∷ []) 2)
      salted_for_two (omega arith) (omega arith)

two_phase_sound_example :
    (◌≡◌ {A = ℕ} 1 1) × (◌≡◌ {A = ℕ} 0 0) × (◌<◌ 1 2) × (0 < 2) × (◌≤◌ 0 0) × (◌<◌ 0 1)
unfolding requests_of salted_boundary stage_task_count
two_phase_sound_example =
    two_phase_sound numbers keep keep three_hashed 2 2 0 1 0 (hash (producer_salt_default ∷ []) 2)
      (single salted) salted salted_for_two (omega arith) (omega arith) read_salted refl

broadcast_routed_example :
    (rs : List BroadcastRequest) × (broadcast.execute numbers
        (routing.boundary numbers (unknown_partitioning 3) 2)
        2
        1
        2
      ≡ broadcast.select_all rs)
    × (r : BroadcastRequest) × (get_elem? rs 1 ≡ Option.some r)
    × (r.task ≡ 1)
    × (r.first ≤ r.target)
    × (r.target < r.last)
    × (real_partition (producer numbers (unknown_partitioning 3) 2 2) r.target ≡ 2)
    × (consumer_task (producer numbers (unknown_partitioning 3) 2 2) r.target ≡ 1)
    × (1 < (producer numbers (unknown_partitioning 3) 2 2).consumer_task_count)
broadcast_routed_example =
    broadcast_routed numbers (unknown_partitioning 3) 2 2 2 1 1 (omega arith) (omega arith)
      (omega arith)
