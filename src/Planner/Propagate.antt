-- ===== src/Planner/Propagate.antt =====
-- `propagate_task_count_until_network_boundaries`, which gives each node of a stage the count of
-- the stage.
use datafusion_distributed.Prelude.{
  ℕ, zero, suc, ◌*◌, Bool, false, List, [], ◌∷◌, Option, Result, ok, err, ◌>>=◌, if◌then◌else◌, leb,
  length, replicate, map_err,
}
use datafusion_distributed.TaskCount.{exact}
use datafusion_distributed.TaskCount.Annotation.{as_usize}
use datafusion_distributed.Boundary.Partitioning.{Partitioning, hash}
use datafusion_distributed.Boundary.Shuffle.{direct, two_phase, producer_salt_default}
use datafusion_distributed.Union.Node.{
  Child, ChildrenIsolatorUnionExec, from_children_and_annotations, child_task_counts,
  with_new_children,
}
use datafusion_distributed.Planner.{
  Base, Session, Count, Operator, isolator_union, repartition, NetworkBoundary, network_shuffle,
  Plan, node, Plans, nil, cons, Staged, placed, boundary, Stageds, none, more, counts, as_union,
  PlannerError, library, union_error, zero_allocation,
}

module _ (b : Base) (s : Session b) where
  open b use {f, api, D, E}

  -- `set_task_count` on each node of what a leaf is scaled up to
  unfoldable mutual
    pub record_counts : Count b → Plan b → Staged b
    record_counts t (node op d ps) = placed op d t (record_all t ps)

    pub record_all : Count b → Plans b → Stageds b
    record_all t nil = none
    record_all t (cons p ps) = more (record_counts t p) (record_all t ps)

  unfoldable pub children_of : Stageds b → List Child
  children_of none = []
  children_of (more c cs) =
      record { partitions = s.partition_count c; is_placeholder = false } ∷ children_of cs

  unfoldable pub rebuild_as :
      Option (ChildrenIsolatorUnionExec f)
      → Operator b
      → D
      → Stageds b
      → Result (PlannerError E) (Operator b × D)
  unfolding children_of
  rebuild_as (Option.some n) op d cs = do
    n' ← map_err union_error (with_new_children f n (children_of cs))
    ok (isolator_union n', d)
  rebuild_as Option.none op d cs = do d' ← map_err library (s.recompute op d cs); ok (op, d')

  -- `replace_children`, which keeps what the planner looks at of an operator
  unfoldable pub rebuild : Operator b → D → Stageds b → Result (PlannerError E) (Operator b × D)
  unfolding rebuild_as as_union
  rebuild op d cs = rebuild_as (as_union b op) op d cs

  -- The counts of the children of a union, from those that it allocates.
  unfoldable pub isolated : f.F → List ℕ → Result (PlannerError E) (List (Count b))
  isolated soft [] = ok []
  isolated soft (zero ∷ ns) = err zero_allocation
  isolated soft (suc n ∷ ns) = do
    rest ← isolated soft ns
    ok (record { soft = soft; restriction = exact (suc n) } ∷ rest)

  unfoldable pub allocate_as :
      Option (ChildrenIsolatorUnionExec f)
      → Operator b
      → Count b
      → Stageds b
      → Result (PlannerError E) (Operator b × List (Count b))
  unfolding children_of isolated counts
  allocate_as (Option.some old) op t cs = do
    n ←
        map_err union_error
          (from_children_and_annotations f (children_of cs) (counts b cs) (as_usize f t))
    ts ← isolated t.soft (child_task_counts f n)
    ok (isolator_union n, ts)
  allocate_as Option.none op t cs = ok (op, replicate (length (counts b cs)) t)

  -- The operator over its children of before, and the count that each child is given.
  unfoldable pub allocate :
      Operator b → Count b → Stageds b → Result (PlannerError E) (Operator b × List (Count b))
  unfolding allocate_as as_union
  allocate op t cs = allocate_as (as_union b op) op t cs

  -- A leaf, by what the handlers make of it.
  unfoldable pub scaled :
      Operator b → D → Count b → Option (Result E (Plan b)) → Result (PlannerError E) (Staged b)
  unfolding record_counts
  scaled op d t Option.none = ok (placed op d t none)
  scaled op d t (Option.some (err e)) = err (library e)
  scaled op d t (Option.some (ok p)) = ok (record_counts t p)

  -- Whether a shuffle by hash between so many partitions of a consumer goes in two phases.
  unfoldable pub fans_out : Count b → Partitioning api.E api.R → Bool
  fans_out t p = leb s.two_step_shuffle_fanout_threshold (as_usize f t * api.partition_count p)

  unfoldable pub to_two_phase :
      Count b → Partitioning api.E api.R → ℕ → Staged b → Result (PlannerError E) (Staged b)
  to_two_phase t p tasks input = do
    let shuffle = boundary (network_shuffle (two_phase producer_salt_default) p) t tasks input
    d ← map_err library (s.try_repartition p shuffle)
    ok (placed (repartition p) d t (more shuffle none))

  unfoldable pub at_boundary :
      NetworkBoundary b → Count b → ℕ → Staged b → Result (PlannerError E) (Staged b)
  unfolding fans_out to_two_phase
  at_boundary (network_shuffle direct (hash es n)) t tasks input =
      if fans_out t (hash es n)
      then to_two_phase t (hash es n) tasks input
      else ok (boundary (network_shuffle direct (hash es n)) t tasks input)
  at_boundary nb t tasks input = ok (boundary nb t tasks input)

  unfoldable mutual
    unfolding scaled at_boundary allocate rebuild

    pub propagate : Count b → Staged b → Result (PlannerError E) (Staged b)
    propagate t (boundary nb old tasks input) = at_boundary nb t tasks input
    propagate t (placed op d old none) = scaled op d t (s.scale_up op d (as_usize f t))
    propagate t (placed op d old (more c cs)) = do
      a ← allocate op t (more c cs)
      new_children ← propagate_all a.1 (more c cs)
      r ← rebuild a.0 d new_children
      ok (placed r.0 r.1 t new_children)

    -- The children with their counts, as far as both go.
    pub propagate_all : List (Count b) → Stageds b → Result (PlannerError E) (Stageds b)
    propagate_all ts none = ok none
    propagate_all [] (more c cs) = ok none
    propagate_all (t ∷ ts) (more c cs) = do
      c' ← propagate t c
      cs' ← propagate_all ts cs
      ok (more c' cs')
