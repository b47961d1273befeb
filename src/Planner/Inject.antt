-- ===== src/Planner/Inject.antt =====
-- `_inject_network_boundaries`, with the boundary builder of a static plan,
-- `CardinalityBasedNetworkBoundaryBuilder`. The children of a node are planned from left to right,
-- where the source waits for all of them at once. Stages are not numbered: a later pass numbers them.
use datafusion_distributed.Prelude.{
  ℕ, Bool, List, [], ◌∷◌, Option, Result, ok, err, ◌>>=◌, if◌then◌else◌, ltb, ◌==◌, map_err,
}
use Prim.Native.Nat
use datafusion_distributed.TaskCount.{TaskCountRestriction, exact, min, get_min, get_max}
use datafusion_distributed.TaskCount.Annotation.{as_usize, merge}
use datafusion_distributed.TaskCount
use datafusion_distributed.Boundary.Partitioning.{hash, range}
use datafusion_distributed.Boundary.Shuffle.{direct}
use datafusion_distributed.Planner.{
  Base, Session, Count, Operator, repartition, broadcast, coalesce_partitions,
  sort_preserving_merge, CardinalityEffect, lower_equal, greater_equal, NetworkBoundary,
  network_shuffle, network_broadcast, network_coalesce, Plan, node, Plans, nil, cons, Staged,
  placed, boundary, Stageds, none, more, count_of, counts, PlannerError, library, merge_error,
  above_max_tasks, coalesce_not_exact, runs_alone, as_union,
}
use datafusion_distributed.Union.Node.{ChildrenIsolatorUnionExec}
use datafusion_distributed.Planner.Propagate.{propagate, rebuild}

-- What stands above a node: a network boundary, the end of the plan, or its parent.
pub data Edge (b : Base) : Type 0 where
  crosses : NetworkBoundary b → Edge b
  root inside : Edge b

module _ (b : Base) where
  open b use {f}

  -- `parent.is::<CoalescePartitionsExec>() || parent.is::<SortPreservingMergeExec>()`
  unfoldable pub below_parent : Option (Operator b) → Edge b
  below_parent Option.none = root
  below_parent (Option.some coalesce_partitions) = crosses network_coalesce
  below_parent (Option.some sort_preserving_merge) = crosses network_coalesce
  below_parent (Option.some op) = inside

  unfoldable pub edge : Option (Operator b) → Operator b → Edge b
  unfolding below_parent
  edge parent (repartition (hash es n)) = crosses (network_shuffle direct (hash es n))
  edge parent (repartition (range r)) = crosses (network_shuffle direct (range r))
  edge parent broadcast = crosses network_broadcast
  edge parent op = below_parent parent

  -- The load that one child adds to a union.
  unfoldable pub load : Count b → f.F
  load a = elim (get_max a.restriction) [
    | Option.none ↦ a.soft
    | Option.some m ↦ f.min a.soft (f.of_usize m)
  ]

  unfoldable pub raised : Option ℕ → Option ℕ → Option ℕ
  raised m Option.none = m
  raised Option.none (Option.some n) = Option.some n
  raised (Option.some m) (Option.some n) = Option.some (Nat.max m n)

  unfoldable pub union_count : f.F → Option ℕ → List (Count b) → Count b
  unfolding load raised
  union_count sum Option.none [] = record { soft = sum; restriction = TaskCount.none }
  union_count sum (Option.some m) [] = record { soft = sum; restriction = min m }
  union_count sum m (a ∷ rest) =
      union_count (f.add sum (load a)) (raised m (get_min a.restriction)) rest

  unfoldable pub merge_all : Count b → List (Count b) → Result (PlannerError b.E) (Count b)
  merge_all t [] = ok t
  merge_all t (a ∷ rest) = do t' ← map_err merge_error (merge f t a); merge_all t' rest

  -- What the handlers desire, or the default.
  unfoldable pub desired_or :
      Count b → Option (Result b.E (Count b)) → Result (PlannerError b.E) (Count b)
  desired_or t Option.none = ok t
  desired_or t (Option.some r) = map_err library r

  abbrev pub one_task : Count b
  one_task = record { soft = f.zero; restriction = exact 1 }

module _ (b : Base) (s : Session b) where
  open b use {f, D, E}

  -- The number of URLs of a resolver that answers, and one at least.
  unfoldable pub urls_or_one : Result (PlannerError E) ℕ
  urls_or_one = do n ← map_err library s.urls; ok (Nat.max n 1)

  unfoldable pub max_tasks : Result (PlannerError E) ℕ
  unfolding urls_or_one
  max_tasks = if s.max_tasks_per_stage == 0 then urls_or_one else ok s.max_tasks_per_stage

  unfoldable pub inner_count :
      Option (ChildrenIsolatorUnionExec f)
      → Operator b
      → D
      → Plans b
      → List (Count b)
      → Result (PlannerError E) (Count b)
  unfolding union_count merge_all desired_or runs_alone
  inner_count (Option.some n) op d ps ts = ok (union_count b f.zero Option.none ts)
  inner_count Option.none op d ps ts =
      if runs_alone b s.broadcast_joins op then merge_all b (one_task b) ts else do
        t ←
            desired_or b (record { soft = f.zero; restriction = TaskCount.none })
              (s.desired (node op d ps))
        merge_all b t ts

  -- The count of a node, by those of its children.
  unfoldable pub reconciled :
      Operator b → D → Plans b → List (Count b) → Result (PlannerError E) (Count b)
  unfolding inner_count desired_or as_union
  reconciled op d nil ts = desired_or b (one_task b) (s.desired (node op d nil))
  reconciled op d (cons p ps) ts = inner_count (as_union b op) op d (cons p ps) ts

  unfoldable pub required_above : ℕ → Option ℕ → Result (PlannerError E) (Unit {0})
  required_above most Option.none = ok tt
  required_above most (Option.some lo) =
      if ltb most lo then err (above_max_tasks lo most) else ok tt

  unfoldable pub capped : Count b → Result (PlannerError E) (Count b)
  unfolding max_tasks required_above
  capped t = do
    most ← max_tasks
    u ← required_above most (get_min t.restriction)
    ok (record t { soft = f.min t.soft (f.of_usize most) })

  unfoldable pub scaled_by : CardinalityEffect → f.F → f.F
  scaled_by lower_equal sf = f.div sf s.cardinality_task_count_factor
  scaled_by greater_equal sf = f.mul sf s.cardinality_task_count_factor
  scaled_by effect sf = sf

  unfoldable mutual
    unfolding scaled_by

    pub calculate_scale_factor : Staged b → f.F
    calculate_scale_factor (boundary nb t tasks input) = f.one
    calculate_scale_factor (placed op d t cs) =
        scaled_by (s.cardinality_effect op d)
          (elim (greatest Option.none cs) [ Option.none ↦ f.one | Option.some sf ↦ sf ])

    pub greatest : Option f.F → Stageds b → Option f.F
    greatest sf none = sf
    greatest Option.none (more c cs) = greatest (Option.some (calculate_scale_factor c)) cs
    greatest (Option.some sf) (more c cs) =
        greatest (Option.some (f.max sf (calculate_scale_factor c))) cs

  -- `consumer_task_count` of a boundary over a stage with count `t`
  unfoldable pub consumer_count : NetworkBoundary b → Count b → Staged b → Count b
  unfolding calculate_scale_factor
  consumer_count network_coalesce t input = record { soft = t.soft; restriction = exact 1 }
  consumer_count nb t input = record {
    soft = f.mul (f.min t.soft (f.of_usize (as_usize f t))) (calculate_scale_factor input);
    restriction = TaskCount.none;
  }

  unfoldable pub is_exact_one : TaskCountRestriction → Bool
  is_exact_one (exact n) = n == 1
  is_exact_one r = Bool.false

  unfoldable pub check_coalesce : NetworkBoundary b → Count b → Result (PlannerError E) (Unit {0})
  unfolding is_exact_one
  check_coalesce network_coalesce t =
      if is_exact_one t.restriction then ok tt else err coalesce_not_exact
  check_coalesce nb t = ok tt

  -- A boundary over the stage of a node.
  unfoldable pub cross : NetworkBoundary b → Staged b → Result (PlannerError E) (Staged b)
  unfolding consumer_count check_coalesce propagate count_of
  cross nb p = do
    input ← propagate b s (count_of b p) p
    u ← check_coalesce nb (consumer_count nb (count_of b p) input)
    ok (boundary nb (consumer_count nb (count_of b p) input) (as_usize f (count_of b p)) input)

  unfoldable pub close : Edge b → Staged b → Result (PlannerError E) (Staged b)
  unfolding cross propagate count_of
  close (crosses nb) p = cross nb p
  close root p = propagate b s (count_of b p) p
  close inside p = ok p

  unfoldable mutual
    unfolding close edge capped reconciled rebuild counts

    pub inject : Option (Operator b) → Plan b → Result (PlannerError E) (Staged b)
    inject parent (node op d ps) = do
      cs ← inject_all op ps
      t ← reconciled op d ps (counts b cs)
      r ← rebuild b s op d cs
      t' ← capped t
      close (edge b parent r.0) (placed r.0 r.1 t' cs)

    pub inject_all : Operator b → Plans b → Result (PlannerError E) (Stageds b)
    inject_all parent nil = ok none
    inject_all parent (cons p ps) = do
      c ← inject (Option.some parent) p
      cs ← inject_all parent ps
      ok (more c cs)
