-- ===== src/Planner.antt =====
-- The plans that src/distributed_planner/inject_network_boundaries.rs reads and makes, and what it
-- calls of plans, handlers and the configuration. A plan is a tree of operators; of an operator the
-- planner's own tests are modelled, and all else of a node is an opaque detail.
pub mod Propagate
pub mod Inject
pub mod Stages
pub mod Placement
pub mod Errors
mod Examples
mod ErrorExamples
use datafusion_distributed.Prelude.{
  ℕ, Bool, true, false, not, ◌&&◌, ◌||◌, List, [], ◌∷◌, Option, Result,
}
use datafusion_distributed.Prelude.Float.{Float}
use datafusion_distributed.TaskCount.{MergeError}
use datafusion_distributed.TaskCount.Annotation.{TaskCountAnnotation}
use datafusion_distributed.Boundary.Partitioning.{PlanApi, Partitioning}
use datafusion_distributed.Boundary.Shuffle.{ShuffleMode}
use datafusion_distributed.Union.Node.{ChildrenIsolatorUnionExec, UnionError}

pub data JoinType : Type 0 where
  inner left right full left_semi right_semi left_anti right_anti left_mark right_mark : JoinType

unfoldable pub is_left_broadcast_safe : JoinType → Bool
is_left_broadcast_safe inner = true
is_left_broadcast_safe right = true
is_left_broadcast_safe right_semi = true
is_left_broadcast_safe right_anti = true
is_left_broadcast_safe right_mark = true
is_left_broadcast_safe t = false

unfoldable pub is_full : JoinType → Bool
is_full full = true
is_full t = false

pub data CardinalityEffect : Type 0 where
  unknown equal lower_equal greater_equal : CardinalityEffect

-- `E` is the type of the errors of handlers and of operators.
pub data PlannerError (E : Type 0) : Type 0 where
  library : E → PlannerError E
  merge_error : MergeError → PlannerError E
  union_error : UnionError → PlannerError E
  above_max_tasks : (required available : ℕ) → PlannerError E
  zero_allocation coalesce_not_exact : PlannerError E

-- `D` is the type of what the planner does not look at in a node.
pub record Base : Type 1 where
  pub f : Float
  pub api : PlanApi
  pub D : Type 0
  pub E : Type 0

module _ (b : Base) where
  abbrev pub Count : Type 0
  Count = TaskCountAnnotation b.f

  pub data Operator : Type 0 where
    isolator_union : ChildrenIsolatorUnionExec b.f → Operator
    hash_join : (collect_left null_aware : Bool) → JoinType → Operator
    nested_loop_join : JoinType → Operator
    repartition : Partitioning b.api.E b.api.R → Operator
    cross_join broadcast coalesce_partitions sort_preserving_merge other : Operator

  pub data NetworkBoundary : Type 0 where
    network_shuffle : ShuffleMode → Partitioning b.api.E b.api.R → NetworkBoundary
    network_broadcast network_coalesce : NetworkBoundary

  mutual
    pub data Plan : Type 0 where
      node : Operator → b.D → Plans → Plan

    pub data Plans : Type 0 where
      nil : Plans
      cons : Plan → Plans → Plans

  -- A plan with the count that is recorded for each node. A boundary has the task count and the plan
  -- of its input stage.
  mutual
    pub data Staged : Type 0 where
      placed : Operator → b.D → Count → Stageds → Staged
      boundary : NetworkBoundary → Count → (tasks : ℕ) → Staged → Staged

    pub data Stageds : Type 0 where
      none : Stageds
      more : Staged → Stageds → Stageds

  -- `task_count` of a node
  unfoldable pub count_of : Staged → Count
  count_of (placed op d t cs) = t
  count_of (boundary nb t tasks s) = t

  unfoldable pub counts : Stageds → List Count
  unfolding count_of
  counts none = []
  counts (more s ss) = count_of s ∷ counts ss

  -- The configuration, the handlers of events, and what is called of operators.
  pub record Session : Type 0 where
    pub broadcast_joins : Bool
    pub max_tasks_per_stage : ℕ
    -- how many URLs the worker resolver gives
    pub urls : Result b.E ℕ
    pub two_step_shuffle_fanout_threshold : ℕ
    pub cardinality_task_count_factor : b.f.F
    pub desired : Plan → Option (Result b.E Count)
    pub scale_up : Operator → b.D → (task_count : ℕ) → Option (Result b.E Plan)
    -- the detail of a node over new children
    pub recompute : Operator → b.D → Stageds → Result b.E b.D
    -- the detail of a new `RepartitionExec`
    pub try_repartition : Partitioning b.api.E b.api.R → Staged → Result b.E b.D
    pub partition_count : Staged → ℕ
    pub cardinality_effect : Operator → b.D → CardinalityEffect

  -- Where the planner runs a node whose left side is collected in a single task.
  unfoldable pub runs_alone : (broadcast_joins : Bool) → Operator → Bool
  unfolding is_left_broadcast_safe is_full
  runs_alone bj (hash_join collect_left null_aware t) =
      collect_left && (not bj || null_aware || not (is_left_broadcast_safe t))
  runs_alone bj (nested_loop_join t) = not bj || is_full t || not (is_left_broadcast_safe t)
  runs_alone bj cross_join = not bj
  runs_alone bj op = false

  -- `downcast_ref::<ChildrenIsolatorUnionExec>()`
  unfoldable pub as_union : Operator → Option (ChildrenIsolatorUnionExec b.f)
  as_union (isolator_union n) = Option.some n
  as_union op = Option.none
