-- ===== src/Union/Node/Failures.antt =====
-- Which errors building a union gives: `from_children_and_annotations` and `with_new_children` of
-- src/execution_plans/children_isolator_union.rs.
use datafusion_distributed.Prelude.{
  ℕ, ◌<◌, ◌≡◌, refl, ap, sym, subst, ◌∙◌, not, inl, inr, List, map, Option, Option-cases, Result,
  ok, err, bind-err, err_inj, length, length-map, ◌==◌, arith,
}
use datafusion_distributed.Prelude.Float.{Float}
use datafusion_distributed.TaskCount.Annotation.{TaskCountAnnotation}
use datafusion_distributed.Union.Slots.{Entry}
use datafusion_distributed.Union.Split.{SplitError, split_children}
use datafusion_distributed.Union.Split.Failures.{
  IsChildError, if_false, split_children-IsChildError,
}
use datafusion_distributed.Union.Split.Complete.{split_parts, length-split_children}
use datafusion_distributed.Union.Node.{
  Child, UnionError, children_annotations_mismatch, empty_task_idx_map, children_mismatch, split,
  ChildrenIsolatorUnionExec, max_of, task_partitions, with_partition_count, split_or_fail,
  from_children_and_annotations, with_new_children,
}
use datafusion_distributed.Union.Node.Partitions.{node_parts, max_of_none}

-- The errors about the restriction or the estimate of one child; the others report a fault of the
-- planner.
abbrev pub IsUnionChildError : UnionError → Type 0
IsUnionChildError (split e) = IsChildError e
IsUnionChildError children_annotations_mismatch = ⊥
IsUnionChildError empty_task_idx_map = ⊥
IsUnionChildError children_mismatch = ⊥

module _ (f : Float) where
  split_or_fail-IsUnionChildError :
      (as' : List (TaskCountAnnotation f)) (budget : ℕ) (e : UnionError)
      → 0 < budget
      → 0 < length as'
      → split_or_fail f as' budget ≡ err e
      → IsUnionChildError e
  unfolding split_or_fail
  split_or_fail-IsUnionChildError as' budget e p q h = on (split_children f as' budget) refl h
    where
      on :
          (r : Result SplitError (List (List Entry)))
          → split_children f as' budget ≡ r
          → elim r [ ok tasks ↦ ok tasks | err e ↦ err (split e) ] ≡ err e
          → IsUnionChildError e
      on (ok tasks) same k = absurd (ground (arith, k))
      on (err x) same k =
          subst IsUnionChildError (err_inj k) (split_children-IsChildError f as' budget x p q same)

  split_or_fail_ok :
      (as' : List (TaskCountAnnotation f)) (budget : ℕ) (tasks : List (List Entry))
      → split_or_fail f as' budget ≡ ok tasks
      → split_children f as' budget ≡ ok tasks
  unfolding split_or_fail
  split_or_fail_ok as' budget tasks e = ground (arith, e)

  widest-IsUnionChildError :
      (cs : List Child) (as' : List (TaskCountAnnotation f)) (tasks : List (List Entry))
      (o : Option ℕ) (e : UnionError)
      → 0 < length tasks
      → max_of (map (task_partitions cs) tasks) ≡ o
      → with_partition_count f cs as' tasks o ≡ err e
      → IsUnionChildError e
  unfolding with_partition_count
  widest-IsUnionChildError cs as' tasks (Option.some n) e p same h = absurd (ground (arith, h))
  widest-IsUnionChildError cs as' tasks Option.none e p same h = absurd (
      omega (
        arith,
        p,
        length-map (task_partitions cs) tasks,
        ap length (max_of_none (map (task_partitions cs) tasks) same),
      ))

  -- A union over as many annotations as children, of which there are some, with a positive task
  -- count fails only by the restriction or the estimate of a child.
  pub from_children_and_annotations-IsUnionChildError :
      (cs : List Child) (as' : List (TaskCountAnnotation f)) (budget : ℕ) (e : UnionError)
      → length cs ≡ length as'
      → 0 < length cs
      → 0 < budget
      → from_children_and_annotations f cs as' budget ≡ err e
      → IsUnionChildError e
  unfolding from_children_and_annotations
  from_children_and_annotations-IsUnionChildError cs as' budget e same p q h =
      let k = sym (if_false (not (length cs == length as')) _ _ (ground arith)) ∙ h in
      elim (bind-err (split_or_fail f as' budget) _ e k) [
        | inl x ↦ split_or_fail-IsUnionChildError as' budget e q (omega (arith, same, p)) x
        | inr (tasks, e1, k1) ↦
            widest-IsUnionChildError cs as' tasks (max_of (map (task_partitions cs) tasks)) e
              (omega (
                arith,
                q,
                length-split_children f as' budget tasks (split_or_fail_ok as' budget tasks e1),
              ))
              refl k1
      ]

  -- A union that `from_children_and_annotations` returned.
  abbrev pub IsBuilt : ChildrenIsolatorUnionExec f → Type 0
  IsBuilt n =
      (cs : List Child) × (as' : List (TaskCountAnnotation f)) × (budget : ℕ)
      × (from_children_and_annotations f cs as' budget ≡ ok n)

  child_annotations-from_children_and_annotations :
      (cs : List Child) (as' : List (TaskCountAnnotation f)) (budget : ℕ)
      (n : ChildrenIsolatorUnionExec f)
      → from_children_and_annotations f cs as' budget ≡ ok n
      → n.child_annotations ≡ as'
  unfolding from_children_and_annotations with_partition_count split_or_fail
  child_annotations-from_children_and_annotations cs as' budget n h =
      ground (arith, Option-cases (max_of (map (task_partitions cs) n.task_idx_map)))

  -- A union that was built has an annotation for each child, and there are children and tasks.
  sizes :
      (n : ChildrenIsolatorUnionExec f)
      → IsBuilt n
      → (length n.child_annotations ≡ length n.children)
        × (0 < length n.children)
        × (0 < length n.task_idx_map)
  sizes n (cs, as', budget, e) =
      let (same, done, kept, widest) = node_parts f cs as' budget n e in
      let (p, q, tasks) = split_parts f as' budget n.task_idx_map done in
      let annotations =
        ap length (child_annotations-from_children_and_annotations cs as' budget n e) in
      let children = ap length kept in
      (
        omega (arith, annotations, same, children),
        omega (arith, q, same, children),
        omega (arith, p, length-split_children f as' budget n.task_idx_map done),
      )

  pub with_new_children-IsUnionChildError :
      (n : ChildrenIsolatorUnionExec f) (cs : List Child) (e : UnionError)
      → IsBuilt n
      → length cs ≡ length n.children
      → with_new_children f n cs ≡ err e
      → IsUnionChildError e
  unfolding with_new_children
  with_new_children-IsUnionChildError n cs e built same h =
      let (annotated, children, tasks) = sizes n built in
      from_children_and_annotations-IsUnionChildError cs n.child_annotations (length n.task_idx_map)
        e (omega (arith, same, annotated)) (omega (arith, same, children)) tasks
        (sym (if_false (not (length cs == length n.children)) _ _ (ground arith)) ∙ h)
