-- ===== src/Pool/Shuffles.antt =====
-- A consumer task opens the partitions of its shuffle (src/execution_plans/network_shuffle.rs) on a
-- connection pool (src/worker/worker_connection_pool.rs).
use datafusion_distributed.Prelude.{
  ℕ, zero, suc, ◌+◌, ◌*◌, ◌<◌, ◌≤◌, ◌≡◌, ◌≢◌, refl, ap, ◌∙◌, Bool, List, [], ◌∷◌, Result, ok, err,
  ◌>>=◌, arith, inl, inr, All, All-zip,
}
use datafusion_distributed.Boundary.Partitioning.{
  PlanApi, Partitioning, PlanError, scale_shuffle_partitioning,
}
use datafusion_distributed.Boundary.Shuffle.{
  RepartitionHead, Request, ShuffleFetch, NetworkShuffleExec, PlanProperties, requests_of, combine,
}
use datafusion_distributed.Boundary.Shuffle as shuffle
use datafusion_distributed.Boundary.Shuffle.Requests.{all_requests, requests_of-combine}
use datafusion_distributed.Boundary.Shuffle.Reads.{boundary, advertised, head, execute_lem}
use datafusion_distributed.Pool.{Key, WorkerConnectionPool, Handle, PoolError, execute, new}
use datafusion_distributed.Pool.Requests.{IsFree, execute-IsFree, new-IsFree}

-- Each item stands once in the list.
abbrev pub IsDistinct : List ℕ → Type 0
IsDistinct [] = Unit
IsDistinct (x ∷ xs) = All (λ y. y ≢ x) xs × IsDistinct xs

pub data OpenError (E : Type 0) : Type 0 where
  planned : PlanError → OpenError E
  pooled : PoolError E → OpenError E

abbrev pub connection_of : (api : PlanApi) → Request api → Key
connection_of api r = record { task = r.task; first = r.first; last = r.last }

module _ (api : PlanApi) {S E : Type 0} where
  open api use {R, partition_count}

  -- The calls of the pool by `execute`, with the first error returned.
  unfoldable pub read_requests :
      ℕ
      → List (Request api)
      → WorkerConnectionPool S E
      → Result (PoolError E) (WorkerConnectionPool S E)
  read_requests workers [] pool = ok pool
  read_requests workers (r ∷ rs) pool =
      let next = execute workers (connection_of api r) r.target pool in
      elim next.1 [ ok h ↦ read_requests workers rs next.0 | err e ↦ err e ]

  -- A consumer task opens all partitions from `task` on in the order of a list.
  read_all :
      (w p off a task left : ℕ) (h : RepartitionHead api) (pool : WorkerConnectionPool S E)
      → task + left ≤ w
      → task + left ≤ pool.size
      → ((u : ℕ) → task ≤ u → u < task + left → IsFree off a pool u p)
      → (next : WorkerConnectionPool S E) × (read_requests w
            (all_requests api a off (off + p) h task left)
            pool
          ≡ ok next)
        × (next.size ≡ pool.size)
        × ((u q : ℕ) → q ≢ p → IsFree off a pool u q → IsFree off a next u q)
  unfolding read_requests
  read_all w p off a task zero h pool lw ls free = (pool, refl, refl, λ u q n f. f)
  read_all w p off a task (suc left) h pool lw ls free =
      let (hd, mid, e, size, keep) =
        execute-IsFree off a w task p pool (omega arith) (omega arith)
          (free task (omega arith) (omega arith)) in
      let (next, e', size', keep') =
        read_all w p off a (suc task) left h mid (omega arith) (omega (arith, size)) (λ u l m.
          keep u p (inl (λ same. omega (arith, same, l))) (free u (omega arith) (omega arith))) in
      (
        next,
        ap
              (λ (x : WorkerConnectionPool S E × Result (PoolError E) Handle).
                elim x.1 as (λ _. Result (PoolError E) (WorkerConnectionPool S E)) [
                  | ok y ↦ read_requests w (all_requests api a off (off + p) h (suc task) left) x.0
                  | err y ↦ err y
                ])
              e
            ∙ e',
        size' ∙ size,
        λ u q n f. keep' u q n (keep u q (inr n) f),
      )

  opened :
      Result (PoolError E) (WorkerConnectionPool S E)
      → Result (OpenError E) (WorkerConnectionPool S E)
  opened (ok pool) = ok pool
  opened (err e) = err (pooled e)

  -- One partition of a shuffle, by the streams that it reads.
  unfoldable pub open_partition :
      (workers : ℕ)
      → Result PlanError (ShuffleFetch api)
      → WorkerConnectionPool S E
      → Result (OpenError E) (WorkerConnectionPool S E)
  unfolding read_requests opened
  open_partition workers (err e) pool = err (planned e)
  open_partition workers (ok f) pool = opened (read_requests workers (requests_of api f) pool)

  open_combined :
      (workers : ℕ) (ordered : Bool) (rs : List (Request api))
      (pool next : WorkerConnectionPool S E) (r : Result PlanError (ShuffleFetch api))
      → r ≡ ok (combine api ordered rs)
      → read_requests workers rs pool ≡ ok next
      → open_partition workers r pool ≡ ok next
  unfolding open_partition opened
  open_combined workers ordered rs pool next r e c =
      ap (λ x. open_partition workers x pool) e
      ∙ (ap (λ x. opened (read_requests workers x pool)) (requests_of-combine api ordered rs)
          ∙ ap opened c)

  module _ {Q : Type 0} (clear : Q → Q) (has_ordering : Q → Bool) where
    -- The consumer task `i` of `k` opens the partitions of a list, on the pool of a stage on so many
    -- workers, and stops at the first error.
    unfoldable pub open_partitions :
        NetworkShuffleExec api clear has_ordering
        → (workers i k : ℕ) → List ℕ
        → WorkerConnectionPool S E
        → Result (OpenError E) (WorkerConnectionPool S E)
    unfolding open_partition
    open_partitions node workers i k [] pool = ok pool
    open_partitions node workers i k (part ∷ parts) pool = do
      next ← open_partition workers (shuffle.execute api clear has_ordering node part i k) pool
      open_partitions node workers i k parts next

    open_all :
        (p : PlanProperties api clear has_ordering) (n i k : ℕ) (s : Partitioning api.E api.R)
        (parts : List ℕ) (pool : WorkerConnectionPool S E)
        → scale_shuffle_partitioning api p.partitioning k ≡ ok s
        → IsDistinct parts
        → pool.size ≡ n
        → All
            (λ part.
              (t : ℕ)
              → IsFree
                  (i * advertised api clear has_ordering p n)
                  (advertised api clear has_ordering p n)
                  pool
                  t
                  part)
            parts
        → (next : WorkerConnectionPool S E) × (open_partitions
              (boundary api clear has_ordering p n)
              n
              i
              k
              parts
              pool
            ≡ ok next)
    unfolding open_partitions
    open_all p n i k s [] pool h d size fr = (pool, refl)
    open_all p n i k s (part ∷ parts) pool h d size fr =
        let a = advertised api clear has_ordering p n in
        let node = boundary api clear has_ordering p n in
        let (mid, e, size', keep) =
          read_all n part (i * a) a 0 n (head api clear has_ordering p n s) pool (omega arith)
            (omega (arith, size)) (λ u l m. fr.0 u) in
        let (next, e') = open_all p n i k s parts mid h d.1 (size' ∙ size) (
          All-zip {P = λ q. q ≢ part} {Q = λ q. (t : ℕ) → IsFree (i * a) a pool t q}
            {R = λ q. (t : ℕ) → IsFree (i * a) a mid t q} parts (λ q n f t. keep t q n (f t)) d.0
            fr.1) in
        (
          next,
          ap (λ r. r >>= λ x. open_partitions node n i k parts x)
                (open_combined n _ _ pool mid _
                  (execute_lem api clear has_ordering p n k part i s h) e)
              ∙ e',
        )

    -- Where a producer can be scaled for the consumer tasks, a consumer task can open any of its
    -- advertised partitions once each, in any order, on a new pool: no connection is refused as out of
    -- range, as without a stream or as claimed before.
    pub every_partition_opens :
        (p : PlanProperties api clear has_ordering) (n i k : ℕ) (s : Partitioning api.E api.R)
        (parts : List ℕ)
        → scale_shuffle_partitioning api p.partitioning k ≡ ok s
        → IsDistinct parts
        → All
            (λ part.
              part < partition_count (boundary api clear has_ordering p n).properties.partitioning)
            parts
        → (next : WorkerConnectionPool S E) × (open_partitions
              (boundary api clear has_ordering p n)
              n
              i
              k
              parts
              (new n)
            ≡ ok next)
    unfolding new
    every_partition_opens p n i k s parts h d below =
        let a = advertised api clear has_ordering p n in
        open_all p n i k s parts (new n) h d refl (
          All-zip {P = λ q. q < a} {Q = λ q. q < a}
            {R = λ q. (t : ℕ) → IsFree (i * a) a (new n) t q} parts
            (λ q l m t. new-IsFree (i * a) a S E n t q l) below below)
