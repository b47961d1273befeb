-- ===== src/Union/Node/Partitions.antt =====
-- Which partition of which child the partitions of a task stream.
use datafusion_distributed.Prelude.{
  ℕ, zero, suc, ◌+◌, ◌≤◌, ◌<◌, ◌≡◌, ◌≢◌, refl, sym, subst, ◌∙◌, inl, inr, List, [], ◌∷◌, ◌++◌, map,
  Option, ok, err, ok_inj, length, All, below-get_elem?, Option-cases, arith,
}
use datafusion_distributed.Prelude.Float.{Float}
use datafusion_distributed.TaskCount.{IsValid}
use datafusion_distributed.TaskCount.Annotation.{TaskCountAnnotation}
use datafusion_distributed.Union.Slots.{DistributedTaskContext, Entry}
use datafusion_distributed.Union.Slots.Occurrences.{occurrences, in_slot}
use datafusion_distributed.Union.Counts.{restrictions}
use datafusion_distributed.Union.Split.{split_children}
use datafusion_distributed.Union.Split.Complete.{only_children_run, length-split_children}
use datafusion_distributed.Union.Node.{
  Child, ExecuteError, index_out_of_bounds, empty_stream, child_stream, partitions_of,
  task_partitions, max_of, execute_entries, task_entries, ChildrenIsolatorUnionExec,
  from_children_and_annotations, execute,
}
use datafusion_distributed.Union.Node.Execution.{
  Exists, Known, execute_at, execute_past, execute_no_error, split-Known, task_partitions-append,
}

pub max_of_none : (ns : List ℕ) → max_of ns ≡ Option.none → ns ≡ []
unfolding max_of
max_of_none [] h = refl
max_of_none (n ∷ ns) h = ground (arith, Option-cases (max_of ns))

max_of-bound : (ns : List ℕ) (k m : ℕ) → max_of ns ≡ Option.some k → k ≤ m → All (λ n. n ≤ m) ns
max_of-bound [] k m h le = tt
max_of-bound (n ∷ ns) k m h le = elim (Option-cases (max_of ns)) [
  | inl e ↦
      (unfold max_of in ground (arith, e), subst (All (λ x. x ≤ m)) (sym (max_of_none ns e)) tt)
  | inr (x, e) ↦ (
    unfold max_of in ground (arith, e),
    max_of-bound ns x m e (unfold max_of in ground (arith, e)),
  )
]

-- Where only some children occur, the entries name those.
in_slot_self :
    (s : List Entry) (P : ℕ → Type 0)
    → ((c j m : ℕ) → 0 < in_slot c j m s → P c)
    → All (λ e. P e.0) s
in_slot_self [] P h = tt
in_slot_self (e ∷ s) P h = (
  h e.0 e.1.task_index e.1.task_count (unfold in_slot in ground arith),
  in_slot_self s P (λ c j m k. h c j m (unfold in_slot in omega arith)),
)

occurrences_self :
    (slots : List (List Entry)) (P : ℕ → Type 0)
    → ((c j m : ℕ) → 0 < occurrences c j m slots → P c)
    → All (All (λ e. P e.0)) slots
occurrences_self [] P h = tt
occurrences_self (s ∷ slots) P h = (
  in_slot_self s P (λ c j m k. h c j m (unfold occurrences in omega arith)),
  occurrences_self slots P (λ c j m k. h c j m (unfold occurrences in omega arith)),
)

All-task {κ} :
    (tasks : List (List Entry)) (t : ℕ) (P : List Entry → Type κ)
    → All P tasks
    → (es : List Entry) → task_entries tasks t ≡ ok es
    → P es
unfolding task_entries
All-task [] t P h es e = absurd (ground (arith, e))
All-task (x ∷ tasks) zero P h es e = subst P (ok_inj e) h.0
All-task (x ∷ tasks) (suc t) P h es e = All-task tasks t P h.1 es e

task_entries-below :
    (tasks : List (List Entry)) (t : ℕ)
    → t < length tasks
    → (es : List Entry) × (task_entries tasks t ≡ ok es)
unfolding task_entries
task_entries-below [] t lt = absurd (omega arith)
task_entries-below (x ∷ tasks) zero lt = (x, refl)
task_entries-below (x ∷ tasks) (suc t) lt = task_entries-below tasks t (omega arith)

task_entries-past :
    (tasks : List (List Entry)) (t : ℕ)
    → length tasks ≤ t
    → task_entries tasks t ≡ err index_out_of_bounds
unfolding task_entries
task_entries-past [] t le = refl
task_entries-past (x ∷ tasks) zero le = absurd (omega arith)
task_entries-past (x ∷ tasks) (suc t) le = task_entries-past tasks t (omega arith)

All-unmap {ℓ κ} :
    {A : Type ℓ} (g : A → ℕ) (P : ℕ → Type κ) (xs : List A)
    → All P (map g xs)
    → All (λ x. P (g x)) xs
All-unmap g P [] h = tt
All-unmap g P (x ∷ xs) h = (h.0, All-unmap g P xs h.1)

module _ (f : Float) where
  -- What a successful construction says.
  pub node_parts :
      (cs : List Child) (as' : List (TaskCountAnnotation f)) (budget : ℕ)
      (n : ChildrenIsolatorUnionExec f)
      → from_children_and_annotations f cs as' budget ≡ ok n
      → (length cs ≡ length as')
        × (split_children f as' budget ≡ ok n.task_idx_map)
        × (n.children ≡ cs)
        × (max_of (map (task_partitions cs) n.task_idx_map) ≡ Option.some n.partition_count)
  unfolding from_children_and_annotations
  node_parts cs as' budget n h =
      ground (arith, Option-cases (max_of (map (task_partitions cs) n.task_idx_map)))

  -- Every task names existing children only, and has no more partitions than the node advertises.
  tasks_lem :
      (cs : List Child) (as' : List (TaskCountAnnotation f)) (budget : ℕ)
      (n : ChildrenIsolatorUnionExec f) (t : ℕ) (es : List Entry)
      → All IsValid (restrictions f as')
      → from_children_and_annotations f cs as' budget ≡ ok n
      → task_entries n.task_idx_map t ≡ ok es
      → Known cs es × (task_partitions cs es ≤ n.partition_count)
  tasks_lem cs as' budget n t es v h e =
      let (same, split, kept, widest) = node_parts cs as' budget n h in
      let tasks = n.task_idx_map in
      let bounded =
        All-unmap (task_partitions cs) (λ x. x ≤ n.partition_count) tasks
          (max_of-bound (map (task_partitions cs) tasks) n.partition_count n.partition_count widest
            (omega arith)) in
      (
        All-task tasks t (Known cs)
            (occurrences_self tasks (Exists cs) (λ c j m o.
              below-get_elem? cs c
                (omega (arith, only_children_run f as' budget tasks c j m v split o))))
            es e,
        All-task tasks t (λ es. task_partitions cs es ≤ n.partition_count) bounded es e,
      )

  -- A node built with valid restrictions advertises enough partitions: for each entry of a task and
  -- each partition of its child, some advertised partition of the task streams exactly that, in the
  -- entry's context.
  pub streams_complete :
      (cs : List Child) (as' : List (TaskCountAnnotation f)) (budget : ℕ)
      (n : ChildrenIsolatorUnionExec f) (t i q : ℕ) (ctx : DistributedTaskContext)
      (before after : List Entry)
      → All IsValid (restrictions f as')
      → from_children_and_annotations f cs as' budget ≡ ok n
      → task_entries n.task_idx_map t ≡ ok (before ++ ((i, ctx) ∷ after))
      → q < partitions_of cs i
      → (p : ℕ) × (p < n.partition_count) × (execute f n t p ≡ ok (child_stream i q ctx))
  unfolding execute
  streams_complete cs as' budget n t i q ctx before after v h e lt =
      let (same, split, kept, widest) = node_parts cs as' budget n h in
      let (known, bound) = tasks_lem cs as' budget n t (before ++ ((i, ctx) ∷ after)) v h e in
      let (first, exists) = split-Known cs before after (i, ctx) known in
      let total = task_partitions-append cs before ((i, ctx) ∷ after) in
      let own : partitions_of cs i ≤ task_partitions cs ((i, ctx) ∷ after) =
        unfold task_partitions in omega arith in
      (
        task_partitions cs before + q,
        omega (arith, total, own),
        rw (e, kept) (execute_at cs before after i ctx q first exists lt),
      )

  -- In a node built with valid restrictions, each task below its task count has entries: executing a
  -- partition of such a task neither panics nor fails, and past the partitions of the children in its
  -- entries the stream is empty. Executing a partition of any other task panics.
  pub streams_total :
      (cs : List Child) (as' : List (TaskCountAnnotation f)) (budget : ℕ)
      (n : ChildrenIsolatorUnionExec f) (t p : ℕ)
      → All IsValid (restrictions f as')
      → from_children_and_annotations f cs as' budget ≡ ok n
      → (t < budget
          → (es : List Entry) × (task_entries n.task_idx_map t ≡ ok es)
            × ((e : ExecuteError) → execute f n t p ≢ err e)
            × (task_partitions cs es ≤ p → execute f n t p ≡ ok empty_stream))
        × (budget ≤ t → execute f n t p ≡ err index_out_of_bounds)
  unfolding execute
  streams_total cs as' budget n t p v h =
      let (same, split, kept, widest) = node_parts cs as' budget n h in
      let size = length-split_children f as' budget n.task_idx_map split in
      (
        λ lt.
            let (es, e) = task_entries-below n.task_idx_map t (omega (arith, size, lt)) in
            let (known, bound) = tasks_lem cs as' budget n t es v h e in
            let run : execute f n t p ≡ execute_entries cs es p = rw (e, kept) refl in
            (
              es,
              e,
              λ x q. execute_no_error cs es p x known (sym run ∙ q),
              λ past. run ∙ execute_past cs es p known past,
            ),
        λ ge. rw (task_entries-past n.task_idx_map t (omega (arith, size, ge))) refl,
      )
