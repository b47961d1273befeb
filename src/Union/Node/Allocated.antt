-- ===== src/Union/Node/Allocated.antt =====
-- Each child of a union has a task count: `child_task_counts` of
-- src/execution_plans/children_isolator_union.rs.
use datafusion_distributed.Prelude.{
  ℕ, zero, suc, ◌≡◌, refl, sym, ap, ◌∙◌, not, List, [], ◌∷◌, map, Option, ok, bind-ok, ok_inj,
  length, replicate, length-replicate, ◌==◌, if-elim, arith,
}
use datafusion_distributed.Prelude.Float.{Float}
use datafusion_distributed.TaskCount.Annotation.{TaskCountAnnotation}
use datafusion_distributed.Union.Slots.{Entry}
use datafusion_distributed.Union.Node.{
  Child, raise, raise_entries, raise_tasks, ChildrenIsolatorUnionExec, max_of, task_partitions,
  with_partition_count, split_or_fail, from_children_and_annotations, child_task_counts,
}

pub length-raise : (xs : List ℕ) (i n : ℕ) → length (raise xs i n) ≡ length xs
unfolding raise
length-raise [] i n = refl
length-raise (x ∷ xs) zero n = refl
length-raise (x ∷ xs) (suc i) n = ap suc (length-raise xs i n)

pub length-raise_entries :
    (xs : List ℕ) (es : List Entry) → length (raise_entries xs es) ≡ length xs
unfolding raise_entries
length-raise_entries xs [] = refl
length-raise_entries xs ((i, ctx) ∷ es) =
    length-raise_entries (raise xs i ctx.task_count) es ∙ length-raise xs i ctx.task_count

length-raise_tasks :
    (xs : List ℕ) (tasks : List (List Entry)) → length (raise_tasks xs tasks) ≡ length xs
unfolding raise_tasks
length-raise_tasks xs [] = refl
length-raise_tasks xs (es ∷ tasks) =
    length-raise_tasks (raise_entries xs es) tasks ∙ length-raise_entries xs es

module _ (f : Float) where
  pub length-child_task_counts :
      (n : ChildrenIsolatorUnionExec f) → length (child_task_counts f n) ≡ length n.children
  unfolding child_task_counts
  length-child_task_counts n =
      length-raise_tasks (replicate (length n.children) 0) n.task_idx_map
      ∙ length-replicate (length n.children) 0

  children-with_partition_count :
      (cs : List Child) (annotations : List (TaskCountAnnotation f)) (tasks : List (List Entry))
      (o : Option ℕ) (n : ChildrenIsolatorUnionExec f)
      → with_partition_count f cs annotations tasks o ≡ ok n
      → n.children ≡ cs
  unfolding with_partition_count
  children-with_partition_count cs annotations tasks Option.none n e = absurd (ground (arith, e))
  children-with_partition_count cs annotations tasks (Option.some m) n e =
      sym (ap (λ n. n.children) (ok_inj e))

  pub children-from_children_and_annotations :
      (cs : List Child) (annotations : List (TaskCountAnnotation f)) (budget : ℕ)
      (n : ChildrenIsolatorUnionExec f)
      → from_children_and_annotations f cs annotations budget ≡ ok n
      → n.children ≡ cs
  unfolding from_children_and_annotations
  children-from_children_and_annotations cs annotations budget n =
      if-elim (λ x. x ≡ ok n → n.children ≡ cs) (not (length cs == length annotations))
        (λ e. absurd (ground (arith, e)))
        (λ e.
          let (tasks, e1, e2) = bind-ok (split_or_fail f annotations budget) _ n e in
          children-with_partition_count cs annotations tasks
            (max_of (map (task_partitions cs) tasks)) n e2)
