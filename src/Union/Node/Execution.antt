-- ===== src/Union/Node/Execution.antt =====
-- The loop of `execute` over the entries of a task.
use datafusion_distributed.Prelude.{
  ℕ, zero, suc, ◌+◌, ◌-◌, ◌≤◌, ◌<◌, ◌≡◌, ◌≢◌, refl, ◌∙◌, List, [], ◌∷◌, ◌++◌, Option, ok, err,
  if◌then◌else◌, ltb, le→ltb, get_elem?, All, arith,
}
use datafusion_distributed.Union.Slots.{DistributedTaskContext, Entry}
use datafusion_distributed.Union.Node.{
  Child, ExecuteError, empty_stream, child_stream, partitions_of, task_partitions, execute_entries,
}

abbrev pub Exists : List Child → ℕ → Type 0
Exists cs i = (c : Child) × (get_elem? cs i ≡ Option.some c)

-- The entries name children that there are.
abbrev pub Known : List Child → List Entry → Type 0
Known cs es = All (λ e. Exists cs e.0) es

pub partitions_of_lem :
    (cs : List Child) (i : ℕ) (c : Child)
    → get_elem? cs i ≡ Option.some c
    → partitions_of cs i ≡ c.partitions
unfolding partitions_of
partitions_of_lem [] i c e = absurd (cc)
partitions_of_lem (x ∷ cs) zero c e = ground arith
partitions_of_lem (x ∷ cs) (suc i) c e = partitions_of_lem cs i c e

-- One round of the loop of `execute`.
execute_first :
    (cs : List Child) (i : ℕ) (ctx : DistributedTaskContext) (es : List Entry) (p : ℕ)
    → Exists cs i
    → execute_entries cs ((i, ctx) ∷ es) p ≡ (
        if ltb p (partitions_of cs i)
        then ok (child_stream i p ctx)
        else execute_entries cs es (p - partitions_of cs i))
unfolding execute_entries
execute_first cs i ctx es p (c, e) = rw (partitions_of_lem cs i c e, e, execute_entries)

pub execute_at :
    (cs : List Child) (before after : List Entry) (i : ℕ) (ctx : DistributedTaskContext) (q : ℕ)
    → Known cs before
    → Exists cs i
    → q < partitions_of cs i
    → execute_entries cs (before ++ ((i, ctx) ∷ after)) (task_partitions cs before + q)
      ≡ ok (child_stream i q ctx)
unfolding task_partitions
execute_at cs [] after i ctx q k x h = ground (arith, execute_first cs i ctx after q x)
execute_at cs ((j, other) ∷ before) after i ctx q k x h =
    let n = partitions_of cs j in
    let t = task_partitions cs before in
    let at : n + t + q - n ≡ t + q = omega arith in
    execute_first cs j other (before ++ ((i, ctx) ∷ after)) (n + t + q) k.0
    ∙ rw (le→ltb (n + t + q) n (omega arith), at) (execute_at cs before after i ctx q k.1 x h)

pub execute_past :
    (cs : List Child) (es : List Entry) (p : ℕ)
    → Known cs es
    → task_partitions cs es ≤ p
    → execute_entries cs es p ≡ ok empty_stream
unfolding task_partitions
execute_past cs [] p k h = unfold execute_entries in refl
execute_past cs ((j, other) ∷ es) p k h =
    execute_first cs j other es p k.0
    ∙ rw (le→ltb p (partitions_of cs j) (omega arith))
        (execute_past cs es (p - partitions_of cs j) k.1 (omega arith))

pub execute_no_error :
    (cs : List Child) (es : List Entry) (p : ℕ) (x : ExecuteError)
    → Known cs es
    → execute_entries cs es p ≢ err x
execute_no_error cs [] p x k h = unfold execute_entries in cc
execute_no_error cs ((j, other) ∷ es) p x k h = ground (
  arith,
  execute_first cs j other es p k.0,
  execute_no_error cs es (p - partitions_of cs j) x k.1,
)

pub split-Known :
    (cs : List Child) (before after : List Entry) (e : Entry)
    → Known cs (before ++ (e ∷ after))
    → Known cs before × Exists cs e.0
split-Known cs [] after e k = (tt, k.0)
split-Known cs (b ∷ before) after e k =
    let (known, exists) = split-Known cs before after e k.1 in ((k.0, known), exists)

pub task_partitions-append :
    (cs : List Child) (xs ys : List Entry)
    → task_partitions cs (xs ++ ys) ≡ task_partitions cs xs + task_partitions cs ys
unfolding task_partitions
task_partitions-append cs [] ys = omega arith
task_partitions-append cs ((i, ctx) ∷ xs) ys = omega (arith, task_partitions-append cs xs ys)
