-- ===== src/Boundary/Shuffle/TwoPhase.antt =====
-- The two-phase mode of `NetworkShuffleExec` (src/execution_plans/network_shuffle.rs): a consumer task
-- reads one partition from each producer task, as partitions of its own that a `RepartitionExec`
-- above brings together.
use datafusion_distributed.Prelude.{
  ok_inj, ℕ, zero, suc, ◌+◌, ◌≤◌, ◌<◌, ◌≡◌, refl, sym, subst, ◌∙◌, Bool, [], ◌∷◌, ◌++◌, Option, ok,
  get_elem?, arith,
}
use datafusion_distributed.Boundary.Partitioning.{
  PlanApi, Partitioning, round_robin_batch, hash, unknown_partitioning, range, salted_partitioning,
}
use datafusion_distributed.Boundary.Coalesce.{remote, stage_task_count}
use datafusion_distributed.Boundary.Shuffle.{
  RepartitionHead, Request, ShuffleFetch, NetworkShuffleExec, PlanProperties, single, requests_of,
  combine, from_stage, producer_head, ask, execute, execute_stage, scaled_by, to_two_phase_salted,
  producer_salt_default,
}

module _ (api : PlanApi) where
  open api use {E, R, partition_count}

  -- A salted producer has one partition for each consumer task.
  salted_count :
      (p s : Partitioning E R) (salt k : ℕ)
      → salted_partitioning api p salt k ≡ ok s
      → partition_count s ≡ k
  unfolding salted_partitioning
  salted_count (round_robin_batch p) s salt k h = ground (arith, h)
  salted_count (hash es p) s salt k h =
      ground (arith, h, api.count-hash (es ++ (api.u64_literal salt ∷ [])) k)
  salted_count (unknown_partitioning p) s salt k h = ground (arith, h)
  salted_count (range r) s salt k h = ground (arith, h)

  only_request :
      (x r : Request api) (t : ℕ) → get_elem? (requests_of api (single x)) t ≡ Option.some r → x ≡ r
  unfolding requests_of
  only_request x r zero h = ground (arith, h)
  only_request x r (suc t) h = ground (arith, h)

  module _ {Q : Type 0} (clear : Q → Q) (has_ordering : Q → Bool) where
    -- a boundary on `n` producer tasks whose head has the properties `p`, in the two-phase mode
    unfoldable pub salted_boundary :
        PlanProperties api clear has_ordering → ℕ → NetworkShuffleExec api clear has_ordering
    unfolding to_two_phase_salted from_stage
    salted_boundary p n =
        to_two_phase_salted api clear has_ordering (from_stage api clear has_ordering (remote n) p)

    count-salted_boundary :
        (p : PlanProperties api clear has_ordering) (n : ℕ)
        → partition_count (salted_boundary p n).properties.partitioning ≡ n
    unfolding salted_boundary stage_task_count
    count-salted_boundary p n = api.count-unknown_partitioning n

    salted_head : PlanProperties api clear has_ordering → ℕ → Partitioning E R → RepartitionHead api
    salted_head p n s = record {
      partitioning = s;
      preserve_order = has_ordering (salted_boundary p n).properties.eq_properties;
    }

    salted_request :
        PlanProperties api clear has_ordering → (n part i : ℕ) → Partitioning E R → Request api
    salted_request p n part i s = record {
      task = part;
      first = i;
      last = i + 1;
      target = i;
      producer_head = salted_head p n s;
    }

    execute_salted :
        (p : PlanProperties api clear has_ordering) (n k part i : ℕ) (s : Partitioning E R)
        → salted_partitioning api p.partitioning producer_salt_default k ≡ ok s
        → execute api clear has_ordering (salted_boundary p n) part i k
          ≡ ok (single (salted_request p n part i s))
    unfolding execute execute_stage ask producer_head scaled_by salted_boundary salted_head
        salted_request combine
    execute_salted p n k part i s h = rw h refl

    -- Where the producer's head can be salted, each partition that it then has of each producer task
    -- is read by an advertised partition of a consumer task of the two-phase mode.
    pub two_phase_complete :
        (p : PlanProperties api clear has_ordering) (n k t q : ℕ) (s : Partitioning E R)
        → salted_partitioning api p.partitioning producer_salt_default k ≡ ok s
        → t < n
        → q < partition_count s
        → (i part : ℕ) × (i < k)
          × (part < partition_count (salted_boundary p n).properties.partitioning)
          × (r : Request api) × (execute api clear has_ordering (salted_boundary p n) part i k
              ≡ ok (single r))
          × (r.task ≡ t)
          × (r.target ≡ q)
          × (r.first ≤ q)
          × (q < r.last)
    unfolding salted_request
    two_phase_complete p n k t q s h lt lq = (
      q,
      t,
      omega (arith, salted_count p.partitioning s producer_salt_default k h),
      omega (arith, count-salted_boundary p n),
      salted_request p n t q s,
      execute_salted p n k t q s h,
      refl,
      refl,
      omega arith,
      omega arith,
    )

    -- In the two-phase mode, each stream of an advertised partition `part` of consumer task `i` reads
    -- partition `i` of producer task `part`, which both are there, over a connection that spans it.
    pub two_phase_sound :
        (p : PlanProperties api clear has_ordering) (n k i part t : ℕ) (s : Partitioning E R)
        (f : ShuffleFetch api) (r : Request api)
        → salted_partitioning api p.partitioning producer_salt_default k ≡ ok s
        → i < k
        → part < partition_count (salted_boundary p n).properties.partitioning
        → execute api clear has_ordering (salted_boundary p n) part i k ≡ ok f
        → get_elem? (requests_of api f) t ≡ Option.some r
        → (r.task ≡ part)
          × (r.target ≡ i)
          × (part < n)
          × (i < partition_count s)
          × (r.first ≤ r.target)
          × (r.target < r.last)
    unfolding salted_request
    two_phase_sound p n k i part t s f r h li lp e g =
        let own =
          subst (λ x. get_elem? (requests_of api x) t ≡ Option.some r)
            (ok_inj (sym e ∙ execute_salted p n k part i s h)) g in
        let below : part < n = omega (arith, count-salted_boundary p n) in
        let there : i < partition_count s =
          omega (arith, salted_count p.partitioning s producer_salt_default k h) in
        subst
          (λ (x : Request api).
            (x.task ≡ part)
            × (x.target ≡ i)
            × (part < n)
            × (i < partition_count s)
            × (x.first ≤ x.target)
            × (x.target < x.last))
          (only_request (salted_request p n part i s) r t own)
          (refl, refl, below, there, omega arith, omega arith)
