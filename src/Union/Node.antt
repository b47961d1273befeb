-- ===== src/Union/Node.antt =====
-- The node itself: `from_children_and_annotations`, `with_new_children`, `child_task_counts`,
-- `to_task_specialized` and `execute`. Of a child plan only its partition count and whether an
-- empty plan stands in its place are modelled.
mod Execution
pub mod Allocated
mod Raised
pub mod Counted
pub mod Partitions
pub mod Failures
use Prim.Native.Nat
use datafusion_distributed.Prelude.{
  ℕ, zero, suc, ◌+◌, ◌-◌, ◌≡◌, Bool, true, false, ◌||◌, not, List, [], ◌∷◌, map, Option, Result, ok,
  err, ◌>>=◌, if◌then◌else◌, ltb, ◌==◌, length, replicate, get_elem?,
}
use datafusion_distributed.Prelude.Float.{Float}
use datafusion_distributed.TaskCount.Annotation.{TaskCountAnnotation}
use datafusion_distributed.Union.Slots.{DistributedTaskContext, Entry}
use datafusion_distributed.Union.Split.{SplitError, split_children}

pub record Child : Type 0 where
  pub partitions : ℕ
  -- an `EmptyExec` placeholder with the schema and partitions of the child
  pub is_placeholder : Bool

pub data UnionError : Type 0 where
  children_annotations_mismatch empty_task_idx_map children_mismatch : UnionError
  split : SplitError → UnionError

-- How `execute` fails: it panics on a task that `task_idx_map` does not have, and returns an error
-- on a child that there is not.
pub data ExecuteError : Type 0 where
  index_out_of_bounds no_such_child : ExecuteError

-- What `execute` streams: one partition of a child in its task context, or nothing.
pub data Stream : Type 0 where
  empty_stream : Stream
  child_stream : (child partition : ℕ) → DistributedTaskContext → Stream

-- the partition count of a child, and 0 where the source would panic
unfoldable pub partitions_of : List Child → ℕ → ℕ
partitions_of [] i = 0
partitions_of (c ∷ cs) zero = c.partitions
partitions_of (c ∷ cs) (suc i) = partitions_of cs i

-- The partitions of the children that one task executes.
unfoldable pub task_partitions : List Child → List Entry → ℕ
task_partitions cs [] = 0
task_partitions cs ((i, ctx) ∷ es) = partitions_of cs i + task_partitions cs es

-- `Iterator::max`, which is none on an empty list
unfoldable pub max_of : List ℕ → Option ℕ
max_of [] = Option.none
max_of (n ∷ ns) = elim (max_of ns) [
  | Option.none ↦ Option.some n
  | Option.some m ↦ Option.some (Nat.max n m)
]

-- The loop of `execute` over the children of its task.
unfoldable pub execute_entries : List Child → List Entry → ℕ → Result ExecuteError Stream
execute_entries cs [] partition = ok empty_stream
execute_entries cs ((i, ctx) ∷ es) partition = elim (get_elem? cs i) [
  | Option.none ↦ err no_such_child
  | Option.some c ↦
      let rest = execute_entries cs es (partition - c.partitions) in
      if ltb partition c.partitions then ok (child_stream i partition ctx) else rest
]

-- `counts[child] = counts[child].max(task_count)`
unfoldable pub raise : List ℕ → ℕ → ℕ → List ℕ
raise [] i n = []
raise (x ∷ xs) zero n = Nat.max x n ∷ xs
raise (x ∷ xs) (suc i) n = x ∷ raise xs i n

unfoldable pub raise_entries : List ℕ → List Entry → List ℕ
raise_entries counts [] = counts
raise_entries counts ((i, ctx) ∷ es) = raise_entries (raise counts i ctx.task_count) es

unfoldable pub raise_tasks : List ℕ → List (List Entry) → List ℕ
raise_tasks counts [] = counts
raise_tasks counts (es ∷ tasks) = raise_tasks (raise_entries counts es) tasks

unfoldable pub contains : ℕ → List Entry → Bool
contains i [] = false
contains i ((j, ctx) ∷ es) = i == j || contains i es

-- Children from index `i` on that the task does not execute become placeholders.
unfoldable pub specialize : List Entry → ℕ → List Child → List Child
specialize es i [] = []
specialize es i (c ∷ cs) =
    (if contains i es then c else record { partitions = c.partitions; is_placeholder = true })
    ∷ specialize es (suc i) cs

-- `self.task_idx_map[task]`, which panics out of bounds
unfoldable pub task_entries : List (List Entry) → ℕ → Result ExecuteError (List Entry)
task_entries tasks task = elim (get_elem? tasks task) [
  | Option.none ↦ err index_out_of_bounds
  | Option.some es ↦ ok es
]

module _ (f : Float) where
  pub record ChildrenIsolatorUnionExec : Type 0 where
    pub children : List Child
    pub child_annotations : List (TaskCountAnnotation f)
    pub task_idx_map : List (List Entry)
    pub partition_count : ℕ

  unfoldable pub with_partition_count :
      List Child
      → List (TaskCountAnnotation f)
      → List (List Entry)
      → Option ℕ
      → Result UnionError ChildrenIsolatorUnionExec
  with_partition_count cs annotations tasks Option.none = err empty_task_idx_map
  with_partition_count cs annotations tasks (Option.some n) = ok (record {
    children = cs;
    child_annotations = annotations;
    task_idx_map = tasks;
    partition_count = n;
  })

  unfoldable pub split_or_fail :
      List (TaskCountAnnotation f) → ℕ → Result UnionError (List (List Entry))
  split_or_fail annotations budget = elim (split_children f annotations budget) [
    | ok tasks ↦ ok tasks
    | err e ↦ err (split e)
  ]

  unfoldable pub from_children_and_annotations :
      List Child → List (TaskCountAnnotation f) → ℕ → Result UnionError ChildrenIsolatorUnionExec
  unfolding with_partition_count split_or_fail
  from_children_and_annotations cs annotations budget =
      if not (length cs == length annotations) then err children_annotations_mismatch else do
        tasks ← split_or_fail annotations budget
        with_partition_count cs annotations tasks (max_of (map (task_partitions cs) tasks))

  unfoldable pub with_new_children :
      ChildrenIsolatorUnionExec → List Child → Result UnionError ChildrenIsolatorUnionExec
  unfolding from_children_and_annotations
  with_new_children n cs =
      if not (length cs == length n.children)
      then err children_mismatch
      else from_children_and_annotations cs n.child_annotations (length n.task_idx_map)

  unfoldable pub child_task_counts : ChildrenIsolatorUnionExec → List ℕ
  unfolding raise_tasks raise_entries raise
  child_task_counts n = raise_tasks (replicate (length n.children) 0) n.task_idx_map

  pub to_task_specialized :
      ChildrenIsolatorUnionExec → ℕ → Result ExecuteError ChildrenIsolatorUnionExec
  unfolding specialize task_entries contains
  to_task_specialized n task_i = do
    children_in_task ← task_entries n.task_idx_map task_i
    ok (record n { children = specialize children_in_task 0 n.children })

  unfoldable pub execute : ChildrenIsolatorUnionExec → ℕ → ℕ → Result ExecuteError Stream
  unfolding execute_entries task_entries
  execute n task partition = do
    children ← task_entries n.task_idx_map task
    execute_entries n.children children partition
