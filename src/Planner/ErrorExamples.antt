-- ===== src/Planner/ErrorExamples.antt =====
-- A plan of a union whose child has a negative estimate, which `split_children` refuses.
use datafusion_distributed.Prelude.{
  ℕ, ◌≡◌, refl, false, List, [], ◌∷◌, Option, ok, err, subst, arith,
}
use datafusion_distributed.Prelude.FixedPoint.{fixed_point, thousandths}
use datafusion_distributed.TaskCount.{get_min, get_max, resolve}
use datafusion_distributed.TaskCount
use datafusion_distributed.TaskCount.Annotation
use datafusion_distributed.Union.Slots.{
  Entry, assign, place, place_child, place_unallocated, push_at,
}
use datafusion_distributed.Union.Slots.Occurrences.{entry}
use datafusion_distributed.Union.Counts.{
  child_task_counts, restrictions, rounded, shares, total_weight, flexible_count, exact_total,
  is_exact, hand_out, sort_by, insert_sorted, by_remainder, remainder, cmp, then_cmp, range_from,
  bump, impose_all, impose, fill, eligible, below_max, max_by, later, by_deficit, deficit,
}
use datafusion_distributed.Union.Split.{
  split_children, check_children, check_estimate, check_restriction, negative_estimate,
}
use datafusion_distributed.Union.Node.{
  Child, ChildrenIsolatorUnionExec, from_children_and_annotations, with_new_children,
  task_partitions, partitions_of, max_of, split_or_fail, split,
}
use datafusion_distributed.Planner.{
  Session, Count, isolator_union, other, Plan, node, nil, cons, count_of, counts, PlannerError,
  union_error, as_union,
}
use datafusion_distributed.Planner.Errors.{IsExpected, IsValidCount, UnionsBuilt, BuiltOver}
use datafusion_distributed.Planner.Errors.Counts.{DesiresValid}
use datafusion_distributed.Planner.Errors.Injected.{errors-IsExpected}
use datafusion_distributed.Planner.Propagate.{
  propagate, rebuild, rebuild_as, children_of, allocate, allocate_as,
}
use datafusion_distributed.Planner.Inject.{
  inject, close, edge, capped, reconciled, max_tasks, required_above, inner_count, desired_or,
  union_count, load, raised,
}
use datafusion_distributed.Planner.Examples.{base, session}

-- The placeholder for a union of one scan.
abbrev one_scan : List Child
one_scan = record { partitions = 3; is_placeholder = false } ∷ []

abbrev one_count : List (Count base)
one_count = record { soft = thousandths 1000; restriction = TaskCount.none } ∷ []

abbrev one_slot : List (List Entry)
one_slot = (entry 0 0 1 ∷ []) ∷ []

split_one : split_children fixed_point one_count 1 ≡ ok one_slot
unfolding split_children check_children check_estimate check_restriction assign place place_child
    place_unallocated push_at child_task_counts restrictions rounded shares total_weight
    flexible_count exact_total is_exact hand_out sort_by insert_sorted by_remainder remainder cmp
    then_cmp range_from bump impose_all impose get_min get_max fill eligible below_max max_by later
    by_deficit deficit
split_one = refl

abbrev placeholder : ChildrenIsolatorUnionExec fixed_point
placeholder = record {
  children = one_scan;
  child_annotations = one_count;
  task_idx_map = one_slot;
  partition_count = 3;
}

build_one : from_children_and_annotations fixed_point one_scan one_count 1 ≡ ok placeholder
unfolding from_children_and_annotations task_partitions partitions_of max_of
build_one = rw (split_one, split_or_fail)

abbrev negative : Count base
negative = record { soft = 999000; restriction = TaskCount.none }

abbrev pessimistic : Session base
pessimistic = record session { desired = λ p. Option.some (ok negative) }

pessimistic-DesiresValid : DesiresValid base pessimistic
pessimistic-DesiresValid p t e =
    subst (IsValidCount base) {x = negative} {y = t} (ground (arith, e)) tt

abbrev union_of_scan : Plan base
union_of_scan = node (isolator_union placeholder) 0 (cons (node other 4 nil) nil)

union_of_scan-UnionsBuilt : UnionsBuilt base union_of_scan
unfolding UnionsBuilt BuiltOver as_union
union_of_scan-UnionsBuilt = (((one_scan, one_count, 1, build_one), refl), ((tt, tt), tt))

abbrev negative_child : PlannerError ℕ
negative_child = union_error (split (negative_estimate 0))

plan_refused : inject base pessimistic Option.none union_of_scan ≡ err negative_child
unfolding inject close edge capped reconciled rebuild counts propagate count_of max_tasks
    required_above inner_count desired_or union_count load raised rebuild_as as_union children_of
    allocate allocate_as get_min get_max resolve Annotation.as_usize with_new_children
    from_children_and_annotations task_partitions partitions_of max_of split_or_fail split_children
    check_children check_estimate check_restriction assign place place_child place_unallocated
    push_at child_task_counts restrictions rounded shares total_weight flexible_count exact_total
    is_exact hand_out sort_by insert_sorted by_remainder remainder cmp then_cmp range_from bump
    impose_all impose fill eligible below_max max_by later by_deficit deficit
plan_refused = refl

errors-IsExpected_example : IsExpected negative_child
errors-IsExpected_example =
    errors-IsExpected base pessimistic pessimistic-DesiresValid union_of_scan negative_child
      union_of_scan-UnionsBuilt plan_refused
