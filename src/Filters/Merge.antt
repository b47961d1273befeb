-- ===== src/Filters/Merge.antt =====
-- How the reports on a dynamic filter are merged: `merge` of
-- src/coordinator/dynamic_filter_registry.rs. Of a report only its predicate, its completion and its
-- generation are modelled.
use Prim.Native.Nat
use Prim.Native.Nat.{Ordering}
use datafusion_distributed.Prelude.{
  ℕ, ◌+◌, Bool, true, false, not, ◌&&◌, ◌||◌, List, [], ◌∷◌, Option, none, some, if◌then◌else◌,
  ◌==◌,
}

pub data DynamicFilterMergePolicy : Type 0 where
  union_when_all_complete forward_first_complete intersect_on_update : DynamicFilterMergePolicy

pub record TaskKey : Type 0 where
  pub stage_id : ℕ
  pub task_number : ℕ

-- What is used of the planner's expressions: the node of a chain of operands, equality, and how an
-- expression is evaluated on a row.
pub record Expressions : Type 1 where
  pub Node : Type 0
  pub Row : Type 0
  pub and_node : List Node → Node
  pub or_node : List Node → Node
  pub same : Option Node → Option Node → Bool
  pub holds : Row → Node → Bool

unfoldable pub any {ℓ} : {A : Type ℓ} → (A → Bool) → List A → Bool
any p [] = false
any p (x ∷ xs) = p x || any p xs

unfoldable pub all {ℓ} : {A : Type ℓ} → (A → Bool) → List A → Bool
all p [] = true
all p (x ∷ xs) = p x && all p xs

unfoldable pub is_forward : DynamicFilterMergePolicy → Bool
is_forward forward_first_complete = true
is_forward union_when_all_complete = false
is_forward intersect_on_update = false

unfoldable pub is_union : DynamicFilterMergePolicy → Bool
is_union union_when_all_complete = true
is_union forward_first_complete = false
is_union intersect_on_update = false

-- the order by stage and task number
unfoldable pub then_by : Ordering → ℕ → ℕ → Ordering
then_by Ordering.eq a b = Nat.compare a b
then_by Ordering.lt a b = Ordering.lt
then_by Ordering.gt a b = Ordering.gt

unfoldable pub compare_keys : TaskKey → TaskKey → Ordering
unfolding then_by
compare_keys a b = then_by (Nat.compare a.stage_id b.stage_id) a.task_number b.task_number

module _ (x : Expressions) where
  open x use {Node, Row, and_node, or_node, same, holds}

  -- `PhysicalDynamicFilterNode`
  pub record Report : Type 0 where
    pub inner_expr : Option Node
    pub is_complete : Bool
    pub generation : ℕ

  pub record PlannedDynamicFilter : Type 0 where
    pub producers : List (TaskKey × Option Report)
    pub merge_mode : Option DynamicFilterMergePolicy
    pub merged : Option Report

  unfoldable pub merge_predicates : List Node → DynamicFilterMergePolicy → Option Node
  merge_predicates [] mode = none
  merge_predicates (p ∷ []) mode = some p
  merge_predicates (p ∷ q ∷ ps) intersect_on_update = some (and_node (p ∷ q ∷ ps))
  merge_predicates (p ∷ q ∷ ps) union_when_all_complete = some (or_node (p ∷ q ∷ ps))
  merge_predicates (p ∷ q ∷ ps) forward_first_complete = some (or_node (p ∷ q ∷ ps))

  unfoldable pub report_complete : Option Report → Bool
  report_complete none = false
  report_complete (some r) = r.is_complete

  -- Is every producer's stage sealed and its report complete?
  unfoldable pub producers_complete : List ℕ → List (TaskKey × Option Report) → Bool
  unfolding all any report_complete
  producers_complete sealed = all (λ p. any (λ s. s == p.0.stage_id) sealed && report_complete p.1)

  unfoldable pub is_empty : List (TaskKey × Option Report) → Bool
  is_empty [] = true
  is_empty (p ∷ ps) = false

  unfoldable pub all_complete : List ℕ → PlannedDynamicFilter → Bool
  unfolding producers_complete is_empty
  all_complete sealed f = not (is_empty f.producers) && producers_complete sealed f.producers

  unfoldable pub reported : List (TaskKey × Option Report) → List (TaskKey × Report)
  reported [] = []
  reported ((k, none) ∷ ps) = reported ps
  reported ((k, some r) ∷ ps) = (k, r) ∷ reported ps

  -- `sort_unstable_by_key`; the keys of a map differ
  unfoldable pub insert_report :
      TaskKey × Report → List (TaskKey × Report) → List (TaskKey × Report)
  insert_report a [] = a ∷ []
  insert_report a (b ∷ bs) =
      let rest = insert_report a bs in
      elim (compare_keys a.0 b.0) [ Ordering.gt ↦ b ∷ rest | _ ↦ a ∷ b ∷ bs ]

  unfoldable pub sort_reports : List (TaskKey × Report) → List (TaskKey × Report)
  sort_reports [] = []
  sort_reports (a ∷ as') = insert_report a (sort_reports as')

  unfoldable pub first_only : List (TaskKey × Report) → List (TaskKey × Report)
  first_only [] = []
  first_only (a ∷ as') = a ∷ []

  unfoldable pub predicates : List (TaskKey × Report) → List Node
  predicates [] = []
  predicates ((k, r) ∷ rs) = elim r.inner_expr [ none ↦ predicates rs | some e ↦ e ∷ predicates rs ]

  unfoldable pub previous_complete : Option Report → Bool
  previous_complete none = false
  previous_complete (some r) = r.is_complete

  unfoldable pub unchanged : Option Report → Option Node → Bool → Bool
  unchanged none inner complete = false
  unchanged (some r) inner complete =
      same r.inner_expr inner && (if r.is_complete then complete else not complete)

  unfoldable pub next_generation : Option Report → ℕ
  next_generation none = 0
  next_generation (some r) = r.generation + 1

  -- The end of `merge`, with the reports to be merged.
  unfoldable pub merge_reports :
      DynamicFilterMergePolicy
      → (complete : Bool) → List (TaskKey × Report)
      → PlannedDynamicFilter
      → Bool × PlannedDynamicFilter
  unfolding unchanged next_generation
  merge_reports mode complete [] f = (false, f)
  merge_reports mode complete (r ∷ rs) f =
      let inner = merge_predicates (predicates (r ∷ rs)) mode in
      if unchanged f.merged inner complete then (false, f) else (
        true,
        record f {
          merged = some (record {
            inner_expr = inner;
            is_complete = complete;
            generation = next_generation f.merged;
          });
        },
      )

  unfoldable pub merge_mode_in :
      Option DynamicFilterMergePolicy → List ℕ → PlannedDynamicFilter → Bool × PlannedDynamicFilter
  unfolding merge_reports all_complete is_union is_forward first_only
  merge_mode_in none sealed f = (false, f)
  merge_mode_in (some mode) sealed f =
      let complete = all_complete sealed f in
      if is_union mode && not complete
      then (false, f)
      else let rs = sort_reports (reported f.producers) in
        merge_reports mode (is_forward mode || complete)
          (if is_forward mode then first_only rs else rs) f

  -- `merge`, with the sealed stages
  unfoldable pub merge : List ℕ → PlannedDynamicFilter → Bool × PlannedDynamicFilter
  unfolding merge_mode_in previous_complete
  merge sealed f =
      if previous_complete f.merged then (false, f) else merge_mode_in f.merge_mode sealed f
