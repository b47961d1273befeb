-- ===== src/Boundary/Coalesce/Reads.antt =====
-- Which partitions the consumers of a coalesce boundary read.
use native.Mathlib.Nat.{div-add-mod, mod-lt}
use datafusion_distributed.Prelude.{
  ℕ, suc, ◌+◌, ◌*◌, ◌/◌, ◌%◌, ◌≤◌, ◌<◌, ◌≡◌, ◌≢◌, sym, ap, ◌-◌, ◌∙◌, arith, ok, err,
}
use datafusion_distributed.Boundary.Partitioning.{
  PlanApi, Partitioning, count-coalesce_partitioning,
}
use datafusion_distributed.Boundary.Coalesce.{
  task_group, max_input_tasks, execute_remote, remote_stream, CoalesceError, remote,
  NetworkCoalesceExec, stage_task_count, try_from_stage, execute,
}
use datafusion_distributed.Boundary.Coalesce.Groups.{
  start-last, start_mono, start-suc, owner, group_unique, len-le-max_len, max_len-div_ceil,
}

per_task_lem : (p m : ℕ) → 0 < m → (p * m) / m ≡ p
per_task_lem p m h = grind arith

quotient_lem : (p o q : ℕ) → q < p → (o * p + q) / p ≡ o
quotient_lem p o q h = grind arith

remainder_lem : (p o q : ℕ) → q < p → (o * p + q) % p ≡ q
remainder_lem p o q h = grind arith

-- What a remote stream says of the call that returned it.
stream_parts :
    (out n k i part w t q : ℕ)
    → execute_remote out n part i k ≡ ok (remote_stream w t q)
    → (i < k)
      × (w ≡ out / max_input_tasks n k)
      × (0 < w)
      × (t ≡ (task_group n i k).start_task + part / w)
      × (q ≡ part % w)
      × (part / w < (task_group n i k).len)
unfolding execute_remote
stream_parts out n k i part w t q h = ground arith

-- The call for partition `q` of the task `o` places into the group.
stream_at :
    (p n k i o q : ℕ)
    → i < k
    → o < (task_group n i k).len
    → q < p
    → execute_remote (p * max_input_tasks n k) n (o * p + q) i k
      ≡ ok (remote_stream p ((task_group n i k).start_task + o) q)
unfolding execute_remote
stream_at p n k i o q h l r = ground (
  arith,
  per_task_lem p (max_input_tasks n k),
  quotient_lem p o q,
  remainder_lem p o q,
  len-le-max_len n i k,
)

bound_lem : (p m o q : ℕ) → o < m → q < p → o * p + q < p * m
bound_lem p m o q h l = grind arith

len-le : (n k i : ℕ) → 0 < k → (task_group n i k).len ≤ max_input_tasks n k
len-le n k i h = omega (arith, len-le-max_len n i k, max_len-div_ceil n i k h)

same_call : (a b w : ℕ) → a / w ≡ b / w → a % w ≡ b % w → a ≡ b
same_call a b w d r = ground (arith, div-add-mod a w, div-add-mod b w)

-- A call within the advertised partitions never fails.
no_failure :
    (p n k i part : ℕ) (e : CoalesceError)
    → 0 < p
    → i < k
    → execute_remote (p * max_input_tasks n k) n part i k ≢ err e
unfolding execute_remote
no_failure p n k i part e h l r =
    ground (arith, per_task_lem p (max_input_tasks n k), len-le-max_len n i k)

module _ (api : PlanApi) where
  open api use {E, R, partition_count}

  -- The boundary over `n` remote tasks with partitioning `input`, read by `k` consumer tasks.
  abbrev pub boundary : Partitioning E R → ℕ → ℕ → NetworkCoalesceExec api
  boundary input n k = try_from_stage api (remote n) input k

  execute_lem :
      (input : Partitioning E R) (n k part i : ℕ)
      → execute api (boundary input n k) part i k
        ≡ execute_remote (partition_count input * max_input_tasks n k) n part i k
  unfolding execute try_from_stage stage_task_count
  execute_lem input n k part i =
      rw (count-coalesce_partitioning api input (max_input_tasks n k) (omega arith))

  -- Every partition of every producer task is read: some consumer task has an advertised partition
  -- whose execution streams exactly it.
  pub reads_complete :
      (input : Partitioning E R) (n k t q : ℕ)
      → 0 < k
      → t < n
      → q < partition_count input
      → (i part : ℕ) × (i < k)
        × (part < partition_count (boundary input n k).properties)
        × (execute api (boundary input n k) part i k
            ≡ ok (remote_stream (partition_count input) t q))
  unfolding try_from_stage stage_task_count
  reads_complete input n k t q h l r =
      let (i, lt, lo, hi) = owner n k t k (omega (arith, start-last n k h)) in
      let p = partition_count input in
      let o = t - (task_group n i k).start_task in
      let at : (task_group n i k).start_task + o ≡ t = omega arith in
      (
        i,
        o * p + q,
        lt,
        rw (count-coalesce_partitioning api input (max_input_tasks n k) (omega arith))
            (bound_lem p (max_input_tasks n k) o q (omega (arith, len-le n k i h)) r),
        execute_lem input n k (o * p + q) i
            ∙ (stream_at p n k i o q lt (omega arith) r ∙ ap (λ x. ok (remote_stream p x q)) at),
      )

  -- No partition of a producer task is read twice, by one consumer task or by two.
  pub reads_once :
      (input : Partitioning E R) (n k a i b j w v t q : ℕ)
      → execute api (boundary input n k) a i k ≡ ok (remote_stream w t q)
      → execute api (boundary input n k) b j k ≡ ok (remote_stream v t q)
      → (i ≡ j) × (a ≡ b)
  reads_once input n k a i b j w v t q g h =
      let m = max_input_tasks n k in
      let out = partition_count input * m in
      let x = stream_parts out n k i a w t q (sym (execute_lem input n k a i) ∙ g) in
      let y = stream_parts out n k j b v t q (sym (execute_lem input n k b j) ∙ h) in
      let same : i ≡ j =
        group_unique n k t i j (omega arith) (omega arith) (omega arith) (omega arith) in
      let width : w ≡ v = omega arith in (same, same_call a b w (ground arith) (ground arith))

  -- A stream reads a partition that its producer task has, whatever the consumer task.
  pub reads_sound :
      (input : Partitioning E R) (n k part i w t q : ℕ)
      → execute api (boundary input n k) part i k ≡ ok (remote_stream w t q)
      → (t < n) × (q < partition_count input) × (w ≡ partition_count input)
  reads_sound input n k part i w t q h =
      let p = partition_count input in
      let x = stream_parts _ n k i part w t q (sym (execute_lem input n k part i) ∙ h) in
      let width = per_task_lem p (max_input_tasks n k) (omega arith) in
      let end = start_mono n k (suc i) k x.0 in
      (
        omega (arith, end, start-suc n i k, start-last n k (omega arith)),
        omega (arith, mod-lt part {m = w} x.2),
        omega arith,
      )

  -- Where the input has a partition, no task of the consumer stage meets an error, whatever the
  -- partition that it executes.
  pub reads_total :
      (input : Partitioning E R) (n k i part : ℕ) (e : CoalesceError)
      → 0 < partition_count input
      → i < k
      → execute api (boundary input n k) part i k ≢ err e
  reads_total input n k i part e h l x =
      no_failure (partition_count input) n k i part e h l (sym (execute_lem input n k part i) ∙ x)
