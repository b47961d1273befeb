-- ===== src/Boundary/Coalesce/Groups.antt =====
-- The groups of `task_group` split the producer tasks into contiguous runs.
use datafusion_distributed.Prelude.{
  ℕ, zero, suc, ◌+◌, ◌≤◌, ◌<◌, ◌≡◌, inl, inr, arith, Bool-cases, ltb, ltb→lt, ltb→le,
}
use datafusion_distributed.Boundary.Coalesce.{task_group, div_ceil}
use native.Mathlib.Nat.{div-add-mod, mod-lt}

pub start-zero : (n k : ℕ) → (task_group n 0 k).start_task ≡ 0
unfolding task_group
start-zero n k = ground arith

-- Each group begins where the one before it ends.
pub start-suc :
    (n i k : ℕ)
    → (task_group n (suc i) k).start_task ≡ (task_group n i k).start_task + (task_group n i k).len
unfolding task_group
start-suc n i k = ground arith

-- The last group ends with the last task.
pub start-last : (n k : ℕ) → 0 < k → (task_group n k k).start_task ≡ n
unfolding task_group
start-last n k h = ground (arith, div-add-mod n k, mod-lt n {m = k} h)

pub len-le-max_len : (n i k : ℕ) → (task_group n i k).len ≤ (task_group n i k).max_len
unfolding task_group
len-le-max_len n i k = ground arith

pub max_len-div_ceil : (n i k : ℕ) → 0 < k → (task_group n i k).max_len ≡ div_ceil n k
unfolding task_group
max_len-div_ceil n i k h = ground arith

pub start_mono :
    (n k i j : ℕ) → i ≤ j → (task_group n i k).start_task ≤ (task_group n j k).start_task
start_mono n k i zero h = let e : i ≡ 0 = omega arith in rw e (omega arith)
start_mono n k i (suc j) h = elim (Bool-cases (ltb i (suc j))) [
  | inl below ↦
      let le : i ≤ j = omega (arith, ltb→lt i (suc j) below) in
      omega (arith, start_mono n k i j le, start-suc n j k)
  | inr above ↦ let e : i ≡ suc j = omega (arith, ltb→le i (suc j) above) in rw e (omega arith)
]

-- No task stands in two groups.
not_before :
    (n k t i j : ℕ)
    → t < (task_group n i k).start_task + (task_group n i k).len
    → (task_group n j k).start_task ≤ t
    → j ≤ i
not_before n k t i j hi lo = elim (Bool-cases (ltb i j)) [
  | inl below ↦ absurd (omega (arith, start_mono n k (suc i) j (ltb→lt i j below), start-suc n i k))
  | inr above ↦ ltb→le i j above
]

pub group_unique :
    (n k t i j : ℕ)
    → (task_group n i k).start_task ≤ t
    → t < (task_group n i k).start_task + (task_group n i k).len
    → (task_group n j k).start_task ≤ t
    → t < (task_group n j k).start_task + (task_group n j k).len
    → i ≡ j
group_unique n k t i j lo hi lo' hi' =
    omega (arith, not_before n k t i j hi lo', not_before n k t j i hi' lo)

-- The group that holds a task.
pub owner :
    (n k t j : ℕ)
    → t < (task_group n j k).start_task
    → (i : ℕ) × (i < j)
      × ((task_group n i k).start_task ≤ t)
      × (t < (task_group n i k).start_task + (task_group n i k).len)
owner n k t zero h = absurd (omega (arith, start-zero n k))
owner n k t (suc j) h = elim (Bool-cases (ltb t (task_group n j k).start_task)) [
  | inl below ↦ let (i, lt, lo, hi) = owner n k t j (ltb→lt _ _ below) in (i, omega arith, lo, hi)
  | inr above ↦ (j, omega arith, ltb→le _ _ above, omega (arith, start-suc n j k))
]
