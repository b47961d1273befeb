-- ===== src/Union/Slots/Assigned.antt =====
-- The outer tasks run every task of every child exactly once.
use Prim.Native.Nat
use native.Mathlib.Nat.{mod-lt}
use datafusion_distributed.Prelude.{
  ℕ, zero, suc, ◌+◌, ◌-◌, ◌%◌, ◌≤◌, ◌<◌, ◌≡◌, refl, ◌&&◌, Option, none, some, List, [], ◌∷◌,
  if◌then◌else◌, ltb, lt→ltb, ◌==◌, replicate, length, length-replicate, sum, get_elem?, arith,
}
use datafusion_distributed.Union.Slots.{
  Entry, Placed, push_at, place_child, place, place_unallocated, assign,
}
use datafusion_distributed.Union.Slots.Occurrences.{
  entry, same, occurrences, among, occurrences-push_at, length-push_at, length-place_child,
  occurrences-place_child, occurrences-empty,
}

-- What step 6 places for the children from `d` on.
placed : ℕ → ℕ → ℕ → ℕ → List ℕ → ℕ
placed c j m d [] = 0
placed c j m d (n ∷ ns) = among c j m d n n + placed c j m (suc d) ns

length-place : (b d : ℕ) (ns : List ℕ) (p : Placed) → length (place b d ns p).slots ≡ length p.slots
unfolding place
length-place b d [] p = refl
length-place b d (n ∷ ns) p =
    omega (arith, length-place b (suc d) ns (place_child b d n n p), length-place_child b d n n p)

occurrences-place :
    (c j m b d : ℕ) (ns : List ℕ) (p : Placed)
    → 0 < b
    → length p.slots ≡ b
    → occurrences c j m (place b d ns p).slots ≡ occurrences c j m p.slots + placed c j m d ns
unfolding place placed
occurrences-place c j m b d [] p hb hl = omega arith
occurrences-place c j m b d (n ∷ ns) p hb hl = omega (
  arith,
  occurrences-place c j m b (suc d) ns (place_child b d n n p) hb
      (omega (arith, length-place_child b d n n p)),
  occurrences-place_child c j m b d n n p hb hl (omega arith),
)

task_idx-place_child :
    (b d n left : ℕ) (p : Placed) → (place_child b d n left p).task_idx ≡ p.task_idx + left
unfolding place_child
task_idx-place_child b d n zero p = omega arith
task_idx-place_child b d n (suc left) p = omega (
  arith,
  task_idx-place_child b d n left (record {
    slots = push_at p.slots (p.task_idx % b) (entry d (n - suc left) n);
    task_idx = p.task_idx + 1;
  }),
)

-- The running index counts the placed tasks.
task_idx-place :
    (b d : ℕ) (ns : List ℕ) (p : Placed) → (place b d ns p).task_idx ≡ p.task_idx + sum ns
unfolding place
task_idx-place b d [] p = omega arith
task_idx-place b d (n ∷ ns) p =
    omega
      (arith, task_idx-place b (suc d) ns (place_child b d n n p), task_idx-place_child b d n n p)

-- What step 7 adds for the children from `d` on.
added : ℕ → ℕ → ℕ → ℕ → List ℕ → ℕ
added c j m d [] = 0
added c j m d (zero ∷ ns) = (if same (entry d 0 1) c j m then 1 else 0) + added c j m (suc d) ns
added c j m d (suc n ∷ ns) = added c j m (suc d) ns

length-place_unallocated :
    (modulus turn d : ℕ) (ns : List ℕ) (slots : List (List Entry))
    → length (place_unallocated modulus turn d ns slots) ≡ length slots
unfolding place_unallocated
length-place_unallocated modulus turn d [] slots = refl
length-place_unallocated modulus turn d (zero ∷ ns) slots = omega (
  arith,
  length-place_unallocated modulus (turn + 1) (suc d) ns
      (push_at slots (turn % modulus) (entry d 0 1)),
  length-push_at slots (turn % modulus) (entry d 0 1),
)
length-place_unallocated modulus turn d (suc n ∷ ns) slots =
    length-place_unallocated modulus turn (suc d) ns slots

occurrences-place_unallocated :
    (c j m modulus turn d : ℕ) (ns : List ℕ) (slots : List (List Entry))
    → 0 < modulus
    → modulus ≤ length slots
    → occurrences c j m (place_unallocated modulus turn d ns slots)
      ≡ occurrences c j m slots + added c j m d ns
unfolding place_unallocated added
occurrences-place_unallocated c j m modulus turn d [] slots hm hl = omega arith
occurrences-place_unallocated c j m modulus turn d (zero ∷ ns) slots hm hl = omega (
  arith,
  occurrences-place_unallocated c j m modulus (turn + 1) (suc d) ns
      (push_at slots (turn % modulus) (entry d 0 1)) hm
      (omega (arith, length-push_at slots (turn % modulus) (entry d 0 1))),
  occurrences-push_at c j m slots (turn % modulus) (entry d 0 1)
      (omega (arith, mod-lt turn {m = modulus} hm)),
)
occurrences-place_unallocated c j m modulus turn d (suc n ∷ ns) slots hm hl =
    occurrences-place_unallocated c j m modulus turn (suc d) ns slots hm hl

-- How often task `j` of `m` of a child with `n` allocated tasks has to run.
abbrev pub runs : ℕ → ℕ → ℕ → ℕ
runs j m n = if m == Nat.max n 1 && ltb j m then 1 else 0

abbrev pub wanted : ℕ → ℕ → Option ℕ → ℕ
wanted j m none = 0
wanted j m (some n) = runs j m n

placed_past : (c j m d : ℕ) (ns : List ℕ) → c < d → placed c j m d ns + added c j m d ns ≡ 0
unfolding placed added
placed_past c j m d [] h = omega arith
placed_past c j m d (zero ∷ ns) h = ground (arith, placed_past c j m (suc d) ns)
placed_past c j m d (suc n ∷ ns) h = ground (arith, placed_past c j m (suc d) ns)

placed-added :
    (c j m d i : ℕ) (ns : List ℕ)
    → c ≡ d + i
    → placed c j m d ns + added c j m d ns ≡ wanted j m (get_elem? ns i)
unfolding placed added
placed-added c j m d i [] e = omega arith
placed-added c j m d zero (zero ∷ ns) e = ground (arith, placed_past c j m (suc d) ns)
placed-added c j m d zero (suc n ∷ ns) e = ground (arith, placed_past c j m (suc d) ns)
placed-added c j m d (suc i) (zero ∷ ns) e = ground (arith, placed-added c j m (suc d) i ns)
placed-added c j m d (suc i) (suc n ∷ ns) e = ground (arith, placed-added c j m (suc d) i ns)

-- the slots and the index before step 6
abbrev start : ℕ → Placed
start b = record { slots = replicate b []; task_idx = 0 }

-- With a budget and a task to place, each task of each child runs in exactly one outer task, and
-- nothing else runs; a child without tasks runs once as the only task of one.
pub occurrences-assign :
    (c j m budget : ℕ) (counts : List ℕ)
    → 0 < budget
    → 0 < sum counts
    → occurrences c j m (assign budget counts) ≡ wanted j m (get_elem? counts c)
unfolding assign
occurrences-assign c j m b counts hb hs =
    let p = place b 0 counts (start b) in
    let index : p.task_idx ≡ sum counts = omega (arith, task_idx-place b 0 counts (start b)) in
    let slots : length p.slots ≡ b =
      omega
        (arith, length-place b 0 counts (start b), length-replicate {0} {A = List Entry} b []) in
    rw (lt→ltb 0 p.task_idx (omega arith)) (
      omega (
        arith,
        occurrences-place_unallocated c j m (Nat.min p.task_idx b) 0 0 counts p.slots (omega arith)
            (omega arith),
        occurrences-place c j m b 0 counts (start b) hb (length-replicate b []),
        occurrences-empty c j m b,
        placed-added c j m 0 c counts (omega arith),
      ))

pub length-assign : (budget : ℕ) (counts : List ℕ) → length (assign budget counts) ≡ budget
unfolding assign
length-assign b counts =
    let p = place b 0 counts (start b) in
    ground (
      arith,
      length-place b 0 counts (start b),
      length-replicate {0} {A = List Entry} b [],
      length-place_unallocated (Nat.min p.task_idx b) 0 0 counts p.slots,
    )
