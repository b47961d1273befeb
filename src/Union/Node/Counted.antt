-- ===== src/Union/Node/Counted.antt =====
-- What `child_task_counts` of src/execution_plans/children_isolator_union.rs reads from the tasks of
-- a union.
use datafusion_distributed.Prelude.{
  ℕ, zero, ◌<◌, ◌≡◌, sym, ap, Bool-cases, ==→eq, inl, inr, subst, ◌∙◌, not, List, map, All, Option,
  ok, err, ◌>>=◌, bind-ok, ok_inj, length, replicate, length-replicate, nth_or, get_elem?,
  get_elem?-below, ◌==◌, ◌&&◌, ltb, if◌then◌else◌, arith,
}
use datafusion_distributed.Union.Node.Allocated.{children-from_children_and_annotations}
use datafusion_distributed.Prelude.Float.{Float}
use datafusion_distributed.TaskCount.{IsValid, Admits}
use datafusion_distributed.TaskCount.Annotation.{TaskCountAnnotation}
use datafusion_distributed.Union.Slots.{Entry}
use datafusion_distributed.Union.Slots.Occurrences.{occurrences}
use datafusion_distributed.Union.Counts.{restrictions}
use datafusion_distributed.Union.Split.{split_children}
use datafusion_distributed.Union.Split.Complete.{every_child_runs}
use datafusion_distributed.Union.Node.{
  Child, raise_tasks, ChildrenIsolatorUnionExec, max_of, task_partitions, with_partition_count,
  split_or_fail, children_annotations_mismatch, from_children_and_annotations, child_task_counts,
}
use datafusion_distributed.Union.Node.Raised.{
  raise_tasks-reaches, raise_tasks-below, nth_or-replicate,
}

module _ (f : Float) where
  -- A union that is built has a count for each child and the tasks that the split gives.
  record Built (cs : List Child) (annotations : List (TaskCountAnnotation f)) (budget : ℕ)
      (n : ChildrenIsolatorUnionExec f) : Type 0 where
    same_length : length cs ≡ length annotations
    tasks_split : split_children f annotations budget ≡ ok n.task_idx_map
    same_children : n.children ≡ cs

  split_or_fail_lem :
      (annotations : List (TaskCountAnnotation f)) (budget : ℕ) (tasks : List (List Entry))
      → split_or_fail f annotations budget ≡ ok tasks
      → split_children f annotations budget ≡ ok tasks
  unfolding split_or_fail
  split_or_fail_lem annotations budget tasks e = ground (arith, e)

  tasks-with_partition_count :
      (cs : List Child) (annotations : List (TaskCountAnnotation f)) (tasks : List (List Entry))
      (o : Option ℕ) (n : ChildrenIsolatorUnionExec f)
      → with_partition_count f cs annotations tasks o ≡ ok n
      → tasks ≡ n.task_idx_map
  unfolding with_partition_count
  tasks-with_partition_count cs annotations tasks Option.none n e = absurd (ground (arith, e))
  tasks-with_partition_count cs annotations tasks (Option.some m) n e =
      ap (λ n. n.task_idx_map) (ok_inj e)

  built :
      (cs : List Child) (annotations : List (TaskCountAnnotation f)) (budget : ℕ)
      (n : ChildrenIsolatorUnionExec f)
      → from_children_and_annotations f cs annotations budget ≡ ok n
      → Built cs annotations budget n
  unfolding from_children_and_annotations
  built cs annotations budget n e = elim (Bool-cases (length cs == length annotations)) [
    | inr q ↦ absurd (ground (arith, e, q))
    | inl q ↦
        let known : (do
          tasks ← split_or_fail f annotations budget
          with_partition_count f cs annotations tasks (max_of (map (task_partitions cs) tasks)))
            ≡ ok n =
          sym (
            ap
              (λ b. if not b then err children_annotations_mismatch else do
                tasks ← split_or_fail f annotations budget
                with_partition_count f cs annotations tasks
                    (max_of (map (task_partitions cs) tasks)))
              q)
          ∙ e in
        let (tasks, e1, e2) = bind-ok (split_or_fail f annotations budget) _ n known in
        record {
          same_length = ==→eq (length cs) (length annotations) q;
          tasks_split =
              split_or_fail_lem annotations budget tasks e1
              ∙ ap ok (
                  tasks-with_partition_count cs annotations tasks
                    (max_of (map (task_partitions cs) tasks)) n e2);
          same_children = children-from_children_and_annotations f cs annotations budget n e;
        }
  ]

  -- When a union is built over children with valid restrictions, `child_task_counts` is for each child
  -- the positive number of tasks that its restriction admits and that the union's tasks run it in, each
  -- once.
  pub child_task_counts_lem :
      (cs : List Child) (annotations : List (TaskCountAnnotation f)) (budget : ℕ)
      (n : ChildrenIsolatorUnionExec f) (c : ℕ) (a : TaskCountAnnotation f)
      → All IsValid (restrictions f annotations)
      → from_children_and_annotations f cs annotations budget ≡ ok n
      → get_elem? annotations c ≡ Option.some a
      → (0 < nth_or 0 (child_task_counts f n) c)
        × Admits a.restriction (nth_or 0 (child_task_counts f n) c)
        × ((j m : ℕ)
            → occurrences c j m n.task_idx_map
              ≡ (if m == nth_or 0 (child_task_counts f n) c && ltb j m then 1 else 0))
  unfolding child_task_counts
  child_task_counts_lem cs annotations budget n c a v e g =
      let known = built cs annotations budget n e in
      let (k, p, fit, runs) =
        every_child_runs f annotations budget n.task_idx_map c a v known.tasks_split g in
      let start : List ℕ = replicate (length n.children) 0 in
      let low = raise_tasks-reaches n.task_idx_map start c 0 k (ground (arith, runs 0 k, p)) (
        omega (
          arith,
          get_elem?-below annotations c a g,
          known.same_length,
          ap length known.same_children,
          length-replicate (length n.children) (zero),
        )) in
      let high =
        raise_tasks-below n.task_idx_map start c k
          (omega (arith, nth_or-replicate (length n.children) c))
          (λ j m o. ground (arith, runs j m, o)) in
      let same : k ≡ nth_or 0 (raise_tasks start n.task_idx_map) c = omega (arith, low, high) in
      subst
        (λ x.
          (0 < x)
          × Admits a.restriction x
          × ((j m : ℕ) → occurrences c j m n.task_idx_map ≡ (if m == x && ltb j m then 1 else 0)))
        same (p, fit, runs)
