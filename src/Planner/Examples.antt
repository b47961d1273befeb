-- ===== src/Planner/Examples.antt =====
-- A plan of two exchanges, planned for at most four tasks, and instances of the theorems at it.
use datafusion_distributed.Prelude.{ℕ, ◌+◌, ◌≡◌, refl, true, [], Option, Result, ok, subst, arith}
use datafusion_distributed.Prelude.FixedPoint.{fixed_point, thousandths}
use datafusion_distributed.TaskCount.{exact, get_min, resolve}
use datafusion_distributed.TaskCount
use datafusion_distributed.Boundary.Partitioning.{hash}
use datafusion_distributed.Boundary.Shuffle.{two_phase, producer_salt_default}
use datafusion_distributed.Boundary.Examples.{numbers}
use datafusion_distributed.Planner.{
  Base, Session, Count, repartition, coalesce_partitions, other, network_shuffle, network_coalesce,
  Plan, node, nil, cons, Staged, placed, boundary, none, more, unknown, count_of, counts,
  runs_alone, as_union,
}
use datafusion_distributed.Planner.Propagate.{
  propagate, rebuild, rebuild_as, children_of, allocate, allocate_as, scaled, record_counts,
  fans_out, to_two_phase, at_boundary,
}
use datafusion_distributed.Planner.Inject.{
  inject, close, edge, capped, reconciled, cross, max_tasks, required_above, inner_count,
  desired_or, merge_all, consumer_count, check_coalesce, calculate_scale_factor, scaled_by,
  is_exact_one, below_parent,
}
use datafusion_distributed.TaskCount.Annotation
use datafusion_distributed.Planner.Stages.{Uniform, Plain, is_union}
use datafusion_distributed.Planner.Stages.Propagated.{IsPlain}
use datafusion_distributed.Planner.Stages.Injected.{stages_settled}
use datafusion_distributed.Planner.Placement.{Cut}
use datafusion_distributed.Planner.Placement.Injected.{boundaries_placed}

abbrev pub base : Base
base = record { f = fixed_point; api = numbers; D = ℕ; E = ℕ }

-- A leaf is worth three tasks.
abbrev desired : Plan base → Option (Result ℕ (Count base))
desired (node op d nil) =
    Option.some (ok (record { soft = thousandths 3000; restriction = TaskCount.none }))
desired (node op d (cons p ps)) = Option.none

-- Shuffles between nine partitions and more go in two phases.
abbrev pub session : Session base
session = record {
  broadcast_joins = true;
  max_tasks_per_stage = 4;
  urls = ok 8;
  two_step_shuffle_fanout_threshold = 9;
  cardinality_task_count_factor = thousandths 1500;
  desired = desired;
  scale_up = λ op d n. Option.some (ok (node other (d + n) nil));
  recompute = λ op d cs. ok d;
  try_repartition = λ p c. ok 0;
  partition_count = λ c. 3;
  cardinality_effect = λ op d. unknown;
}

abbrev plan : Plan base
plan = node coalesce_partitions 1 (cons grouped nil)
  where
    scan : Plan base
    scan = node other 4 nil

    exchanged : Plan base
    exchanged = node (repartition (hash [] 3)) 3 (cons scan nil)

    grouped : Plan base
    grouped = node other 2 (cons exchanged nil)

abbrev three_tasks : Count base
three_tasks = record { soft = thousandths 3000; restriction = TaskCount.none }

abbrev one_task : Count base
one_task = record { soft = thousandths 3000; restriction = exact 1 }

-- The scan runs in three tasks, and so does what is grouped.
abbrev planned : Staged base
planned =
    placed coalesce_partitions 1 one_task (more (boundary network_coalesce one_task 3 grouped) none)
  where
    exchanged : Staged base
    exchanged =
        placed (repartition (hash [] 3)) 3 three_tasks (more (placed other 7 three_tasks none) none)

    shuffle : Staged base
    shuffle =
        boundary (network_shuffle (two_phase producer_salt_default) (hash [] 3)) three_tasks 3
          exchanged

    grouped : Staged base
    grouped =
        placed other 2 three_tasks
          (more (placed (repartition (hash [] 3)) 0 three_tasks (more shuffle none)) none)

plans_two_exchanges : inject base session Option.none plan ≡ ok planned
unfolding inject close edge capped reconciled rebuild counts cross propagate count_of max_tasks
    required_above inner_count desired_or merge_all consumer_count check_coalesce
    calculate_scale_factor scaled_by is_exact_one below_parent runs_alone rebuild_as as_union
    children_of allocate allocate_as scaled record_counts fans_out to_two_phase at_boundary get_min
    Annotation.merge TaskCount.merge resolve Annotation.as_usize
plans_two_exchanges = refl

session-IsPlain : IsPlain base session
unfolding Plain is_union as_union
session-IsPlain op d n p e =
    subst (Plain base session) {x = node other (d + n) nil} (ground (arith, e)) (refl, tt)

stages_settled_example : Uniform base session one_task planned
unfolding count_of
stages_settled_example =
    stages_settled base session session-IsPlain plan planned plans_two_exchanges

boundaries_placed_example : Cut base session true Option.none plan planned
boundaries_placed_example = boundaries_placed base session plan planned plans_two_exchanges
