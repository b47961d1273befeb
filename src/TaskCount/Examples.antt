-- ===== src/TaskCount/Examples.antt =====
-- Instances of the theorems on task counts.
use datafusion_distributed.Prelude.{ℕ, ◌≤◌, ◌<◌, ◌≡◌, refl, ok, err, arith}
use datafusion_distributed.Prelude.FixedPoint.{fixed_point, thousandths}
use datafusion_distributed.TaskCount.{TaskCountRestriction, min, range, min_above_max, merge}
use datafusion_distributed.TaskCount.Merging.{Intersects, merge-Intersects}
use datafusion_distributed.TaskCount.Annotation.{
  TaskCountAnnotation, as_usize, as_usize-Admits, as_usize-merge,
}
use datafusion_distributed.TaskCount.Annotation

merge_range : merge (min 3) (range 2 8) ≡ ok (range 3 8)
unfolding merge
merge_range = refl

merge_empty : merge (min 9) (range 2 8) ≡ err (min_above_max 9 8)
unfolding merge
merge_empty = refl

merge-Intersects_example : Intersects (min 3) (range 2 8) (merge (min 3) (range 2 8))
merge-Intersects_example = merge-Intersects (min 3) (range 2 8) (omega arith) (omega arith)

abbrev annotation : ℕ → TaskCountRestriction → TaskCountAnnotation fixed_point
annotation n r = record { soft = thousandths n; restriction = r }

as_usize-merge_example :
    (3 ≤ as_usize fixed_point (annotation 9500 (range 3 8)))
    × ((2 ≤ as_usize fixed_point (annotation 9500 (range 3 8)))
        × (as_usize fixed_point (annotation 9500 (range 3 8)) ≤ 8))
    × (0 < as_usize fixed_point (annotation 9500 (range 3 8)))
unfolding merge Annotation.merge
as_usize-merge_example =
    as_usize-merge fixed_point (annotation 1200 (min 3)) (annotation 9500 (range 2 8))
      (annotation 9500 (range 3 8)) (omega arith) (omega arith) refl
