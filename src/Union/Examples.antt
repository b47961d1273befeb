-- ===== src/Union/Examples.antt =====
-- The example in the comments of `split_children`, and instances of the theorems at it.
use datafusion_distributed.Prelude.{
  ℕ, ◌<◌, ◌≡◌, refl, List, [], ◌∷◌, ◌≢◌, ◌≤◌, false, err, All, ok, arith, if◌then◌else◌, nth_or,
  ltb, ◌==◌, ◌&&◌,
}
use datafusion_distributed.Prelude.FixedPoint.{fixed_point, thousandths}
use datafusion_distributed.TaskCount.{
  TaskCountRestriction, none, exact, min, max, get_min, get_max, Admits, IsValid,
}
use datafusion_distributed.TaskCount.Annotation.{TaskCountAnnotation}
use datafusion_distributed.Union.Slots.{
  Entry, assign, place, place_child, place_unallocated, push_at,
}
use datafusion_distributed.Union.Counts.{
  child_task_counts, restrictions, rounded, shares, total_weight, flexible_count, exact_total,
  is_exact, hand_out, sort_by, insert_sorted, by_remainder, remainder, cmp, then_cmp, range_from,
  bump, impose_all, impose, fill, eligible, below_max, max_by, later, by_deficit, deficit,
}
use datafusion_distributed.Union.Slots.Occurrences.{entry, occurrences}
use datafusion_distributed.Union.Split.{
  split_children, check_children, check_estimate, check_restriction,
}
use datafusion_distributed.Union.Split.Complete.{every_child_runs}
use datafusion_distributed.Union.Node.{
  Child, ChildrenIsolatorUnionExec, ExecuteError, index_out_of_bounds, child_stream, empty_stream,
  execute, from_children_and_annotations, task_entries, task_partitions, partitions_of, max_of,
  split_or_fail,
}
use datafusion_distributed.Union.Node
use datafusion_distributed.Union.Node.Counted.{child_task_counts_lem}
use datafusion_distributed.Union.Node.Partitions.{streams_complete, streams_total}

abbrev annotation : ℕ → TaskCountRestriction → TaskCountAnnotation fixed_point
annotation n r = record { soft = thousandths n; restriction = r }

-- c0 to c3
abbrev four_children : List (TaskCountAnnotation fixed_point)
four_children =
    annotation 4000 (max 1)
    ∷ annotation 2000 (min 1)
    ∷ annotation 0 (exact 1)
    ∷ annotation 0 none
    ∷ []

abbrev four_slots : List (List Entry)
four_slots =
    (entry 0 0 1 ∷ entry 3 0 1 ∷ [])
    ∷ (entry 1 0 2 ∷ [])
    ∷ (entry 1 1 2 ∷ [])
    ∷ (entry 2 0 1 ∷ [])
    ∷ []

-- the table of step 7
split_four : split_children fixed_point four_children 4 ≡ ok four_slots
unfolding split_children check_children check_estimate check_restriction assign place place_child
    place_unallocated push_at child_task_counts restrictions rounded shares total_weight
    flexible_count exact_total is_exact hand_out sort_by insert_sorted by_remainder remainder cmp
    then_cmp range_from bump impose_all impose get_min get_max fill eligible below_max max_by later
    by_deficit deficit
split_four = refl

four-IsValid : All IsValid (restrictions fixed_point four_children)
unfolding restrictions
four-IsValid = omega arith

-- c3, which is given no share, still runs.
every_child_runs_example :
    (n : ℕ) × (0 < n)
    × Admits none n
    × ((j m : ℕ) → occurrences 3 j m four_slots ≡ (if m == n && ltb j m then 1 else 0))
every_child_runs_example =
    every_child_runs fixed_point four_children 4 four_slots 3 (annotation 0 none) four-IsValid
      split_four refl

-- children with two partitions each
abbrev four_plans : List Child
four_plans = two ∷ two ∷ two ∷ two ∷ []
  where
    two : Child
    two = record { partitions = 2; is_placeholder = false }

abbrev four_node : ChildrenIsolatorUnionExec fixed_point
four_node = record {
  children = four_plans;
  child_annotations = four_children;
  task_idx_map = four_slots;
  partition_count = 4;
}

build_four : from_children_and_annotations fixed_point four_plans four_children 4 ≡ ok four_node
unfolding from_children_and_annotations task_partitions partitions_of max_of
build_four = rw (split_four, split_or_fail)

-- Task 0 runs c0 and c3, and reads the second partition of c3 as its last.
streams_complete_example :
    (p : ℕ) × (p < 4)
    × (execute fixed_point four_node 0 p
        ≡ ok (child_stream 3 1 (record { task_index = 0; task_count = 1 })))
unfolding task_entries partitions_of
streams_complete_example =
    streams_complete fixed_point four_plans four_children 4 four_node 0 3 1
      (record { task_index = 0; task_count = 1 }) (entry 0 0 1 ∷ []) [] four-IsValid build_four refl
      (omega arith)

streams_total_example :
    (1 < 4
      → (es : List Entry) × (task_entries four_slots 1 ≡ ok es)
        × ((e : ExecuteError) → execute fixed_point four_node 1 2 ≢ err e)
        × (task_partitions four_plans es ≤ 2 → execute fixed_point four_node 1 2 ≡ ok empty_stream))
    × (4 ≤ 1 → execute fixed_point four_node 1 2 ≡ err index_out_of_bounds)
streams_total_example =
    streams_total fixed_point four_plans four_children 4 four_node 1 2 four-IsValid build_four

child_task_counts_lem_example :
    (0 < nth_or 0 (Node.child_task_counts fixed_point four_node) 1)
    × Admits (min 1) (nth_or 0 (Node.child_task_counts fixed_point four_node) 1)
    × ((j m : ℕ)
        → occurrences 1 j m four_slots ≡ (
            if m == nth_or 0 (Node.child_task_counts fixed_point four_node) 1 && ltb j m
            then 1
            else 0))
child_task_counts_lem_example =
    child_task_counts_lem fixed_point four_plans four_children 4 four_node 1
      (annotation 2000 (min 1)) four-IsValid build_four refl
