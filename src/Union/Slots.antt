-- ===== src/Union/Slots.antt =====
-- Steps 6 and 7 of `split_children`: the outer tasks in which the tasks of each child run.
pub mod Occurrences
pub mod Assigned
use Prim.Native.Nat
use datafusion_distributed.Prelude.{
  ℕ, zero, suc, ◌+◌, ◌-◌, ◌%◌, ◌<◌, ◌≡◌, List, [], ◌∷◌, ◌++◌, if◌then◌else◌, ltb, replicate,
}

pub record DistributedTaskContext : Type 0 where
  pub task_index : ℕ
  pub task_count : ℕ

-- An entry of an outer task: a child and the context in which it runs there.
abbrev pub Entry : Type 0
Entry = ℕ × DistributedTaskContext

-- `result[slot].push(entry)`
unfoldable pub push_at : List (List Entry) → ℕ → Entry → List (List Entry)
push_at [] i e = []
push_at (s ∷ ss) zero e = (s ++ (e ∷ [])) ∷ ss
push_at (s ∷ ss) (suc i) e = s ∷ push_at ss i e

-- The slots under construction and the running index of step 6.
pub record Placed : Type 0 where
  pub slots : List (List Entry)
  pub task_idx : ℕ

-- Step 6 for the tasks of one child: `left` of its `count` are still to be placed.
unfoldable pub place_child : ℕ → ℕ → ℕ → ℕ → Placed → Placed
place_child budget child count zero p = p
place_child budget child count (suc left) p = place_child budget child count left (record {
  slots =
      push_at p.slots (p.task_idx % budget)
        (child, record { task_index = count - suc left; task_count = count });
  task_idx = p.task_idx + 1;
})

-- Step 6, for the children from index `child` on.
unfoldable pub place : ℕ → ℕ → List ℕ → Placed → Placed
place budget child [] p = p
place budget child (n ∷ counts) p = place budget (suc child) counts (place_child budget child n n p)

-- Step 7, for the children from index `child` on; `turn` is `zero_alloc_i`, and `modulus` is
-- `task_idx.min(task_count_budget)`.
unfoldable pub place_unallocated : ℕ → ℕ → ℕ → List ℕ → List (List Entry) → List (List Entry)
place_unallocated modulus turn child [] slots = slots
place_unallocated modulus turn child (zero ∷ counts) slots =
    place_unallocated modulus (turn + 1) (suc child) counts
      (push_at slots (turn % modulus) (child, record { task_index = 0; task_count = 1 }))
place_unallocated modulus turn child (suc n ∷ counts) slots =
    place_unallocated modulus turn (suc child) counts slots

-- Steps 6 and 7.
unfoldable pub assign : ℕ → List ℕ → List (List Entry)
assign budget counts =
    let p = place budget 0 counts (record { slots = replicate budget []; task_idx = 0 }) in
    if ltb 0 p.task_idx
    then place_unallocated (Nat.min p.task_idx budget) 0 0 counts p.slots
    else p.slots
