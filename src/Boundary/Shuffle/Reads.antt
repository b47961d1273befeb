-- ===== src/Boundary/Shuffle/Reads.antt =====
-- Which partitions the tasks of a consumer stage read through a `NetworkShuffleExec`
-- (src/execution_plans/network_shuffle.rs).
use datafusion_distributed.Prelude.{
  ok_inj, ℕ, ◌+◌, ◌*◌, ◌/◌, ◌%◌, ◌≤◌, ◌<◌, ◌≡◌, refl, ap, sym, ◌∙◌, Bool, Option, ok, get_elem?,
  arith, if◌then◌else◌,
}
use native.Mathlib.Nat.{mod-lt}
use datafusion_distributed.Prelude.Digits.{digits, digits_bound, digits_unique, div-lt}
use datafusion_distributed.Boundary.Partitioning.{PlanApi, Partitioning, scale_shuffle_partitioning}
use datafusion_distributed.Boundary.Coalesce.{remote, stage_task_count}
use datafusion_distributed.Boundary.Shuffle.{
  RepartitionHead, Request, ShuffleFetch, NetworkShuffleExec, PlanProperties, requests_of, is_range,
  combine, compute_properties, from_stage, producer_head, ask, execute, execute_stage, scaled_by,
}
use datafusion_distributed.Boundary.Shuffle.Requests.{
  scaled_count, request, all_requests, ask_all_lem, get_elem?-all_requests, some_request,
  requests_of-combine,
}

module _ (api : PlanApi) where
  open api use {E, R, partition_count}

  module _ {Q : Type 0} (clear : Q → Q) (has_ordering : Q → Bool) where
    -- a boundary on `n` producer tasks whose head has the properties `p`
    abbrev pub boundary :
        PlanProperties api clear has_ordering → ℕ → NetworkShuffleExec api clear has_ordering
    boundary p n = from_stage api clear has_ordering (remote n) p

    abbrev pub advertised : PlanProperties api clear has_ordering → ℕ → ℕ
    advertised p n = partition_count (boundary p n).properties.partitioning

    count-advertised :
        (p : PlanProperties api clear has_ordering) (n : ℕ)
        → advertised p n
          ≡ (if is_range api p.partitioning then 1 else partition_count p.partitioning)
    unfolding from_stage compute_properties stage_task_count
    count-advertised p n = ground (arith, api.count-unknown_partitioning 1)

    -- `s` is the partitioning of a producer for `k` consumer tasks.
    abbrev pub Scaled : PlanProperties api clear has_ordering → ℕ → Partitioning E R → Type 0
    Scaled p k s = scale_shuffle_partitioning api p.partitioning k ≡ ok s

    pub head : PlanProperties api clear has_ordering → ℕ → Partitioning E R → RepartitionHead api
    head p n s = record {
      partitioning = s;
      preserve_order = has_ordering (boundary p n).properties.eq_properties;
    }

    pub execute_lem :
        (p : PlanProperties api clear has_ordering) (n k part i : ℕ) (s : Partitioning E R)
        → Scaled p k s
        → execute api clear has_ordering (boundary p n) part i k
          ≡ ok (
              combine api (has_ordering (boundary p n).properties.eq_properties) (
                all_requests api
                  (advertised p n)
                  (i * advertised p n)
                  (i * advertised p n + part)
                  (head p n s)
                  0
                  n))
    unfolding execute execute_stage ask producer_head scaled_by from_stage head stage_task_count
    execute_lem p n k part i s h =
        rw
          (
            h,
            ask_all_lem api (advertised p n) (i * advertised p n) (i * advertised p n + part)
                (head p n s) 0 n,
          )
          refl

    -- Among the streams of partition `part` of consumer task `i` is partition `q` of producer task
    -- `t`, read over a connection that spans it.
    abbrev pub Reads : PlanProperties api clear has_ordering → (n k part i t q : ℕ) → Type 0
    Reads p n k part i t q =
        (f : ShuffleFetch api) × (execute api clear has_ordering (boundary p n) part i k ≡ ok f)
        × (r : Request api) × (get_elem? (requests_of api f) t ≡ Option.some r)
        × (r.task ≡ t)
        × (r.target ≡ q)
        × (r.first ≤ q)
        × (q < r.last)

    requests_lem :
        (p : PlanProperties api clear has_ordering) (n k part i : ℕ) (s : Partitioning E R)
        (f : ShuffleFetch api)
        → Scaled p k s
        → execute api clear has_ordering (boundary p n) part i k ≡ ok f
        → requests_of api f
          ≡ all_requests api
              (advertised p n)
              (i * advertised p n)
              (i * advertised p n + part)
              (head p n s)
              0
              n
    requests_lem p n k part i s f h e =
        let same = ok_inj (sym e ∙ execute_lem p n k part i s h) in
        ap (requests_of api) same ∙ requests_of-combine api _ _

    -- Where a producer can be scaled for the consumer tasks, each partition that it then has is read
    -- from each producer task by some advertised partition of some consumer task.
    pub shuffle_complete :
        (p : PlanProperties api clear has_ordering) (n k t q : ℕ) (s : Partitioning E R)
        → scale_shuffle_partitioning api p.partitioning k ≡ ok s
        → t < n
        → q < partition_count s
        → (i part : ℕ) × (i < k)
          × (part < partition_count (boundary p n).properties.partitioning)
          × Reads p n k part i t q
    shuffle_complete p n k t q s h lt lq =
        let a = advertised p n in
        let total : partition_count s ≡ a * k =
          scaled_count api p.partitioning s k h ∙ ap (λ c. c * k) (sym (count-advertised p n)) in
        let below : q < k * a = omega (arith, total) in
        let positive : 0 < a = grind arith in
        let i = q / a in
        let part = q % a in
        let at : i * a + part ≡ q = digits a q in
        let own : part < a = mod-lt q {m = a} positive in
        (
          i,
          part,
          div-lt a k q below,
          own,
          (
            _,
            execute_lem p n k part i s h,
            request api a (i * a) (i * a + part) (head p n s) t,
            ap (λ rs. get_elem? rs t) (requests_of-combine api _ _)
                ∙ (get_elem?-all_requests api a (i * a) (i * a + part) (head p n s) 0 n t lt
                    ∙ ap (λ x. Option.some (request api a (i * a) (i * a + part) (head p n s) x))
                        (omega arith)),
            refl,
            at,
            omega (arith, at),
            omega (arith, at, own),
          ),
        )

    -- No partition of a producer task is read by two consumer tasks, or by two partitions of one.
    pub shuffle_once :
        (p : PlanProperties api clear has_ordering) (n k i j a b t : ℕ) (s : Partitioning E R)
        (f g : ShuffleFetch api) (r v : Request api)
        → scale_shuffle_partitioning api p.partitioning k ≡ ok s
        → a < partition_count (boundary p n).properties.partitioning
        → b < partition_count (boundary p n).properties.partitioning
        → execute api clear has_ordering (boundary p n) a i k ≡ ok f
        → execute api clear has_ordering (boundary p n) b j k ≡ ok g
        → get_elem? (requests_of api f) t ≡ Option.some r
        → get_elem? (requests_of api g) t ≡ Option.some v
        → r.target ≡ v.target
        → (i ≡ j) × (a ≡ b)
    shuffle_once p n k i j a b t s f g r v h la lb ef eg gr gv same =
        let x =
          some_request api _ _ _ _ 0 n t r
            (sym (ap (λ rs. get_elem? rs t) (requests_lem p n k a i s f h ef)) ∙ gr) in
        let y =
          some_request api _ _ _ _ 0 n t v
            (sym (ap (λ rs. get_elem? rs t) (requests_lem p n k b j s g h eg)) ∙ gv) in
        digits_unique (advertised p n) i j a b (omega (arith, x, y, same)) la lb

    -- A stream of an advertised partition reads a partition that the producer has, of a task that
    -- there is, over a connection that spans it.
    pub shuffle_sound :
        (p : PlanProperties api clear has_ordering) (n k i part t : ℕ) (s : Partitioning E R)
        (f : ShuffleFetch api) (r : Request api)
        → scale_shuffle_partitioning api p.partitioning k ≡ ok s
        → i < k
        → part < partition_count (boundary p n).properties.partitioning
        → execute api clear has_ordering (boundary p n) part i k ≡ ok f
        → get_elem? (requests_of api f) t ≡ Option.some r
        → (t < n)
          × (r.task ≡ t)
          × (r.target < partition_count s)
          × (r.first ≤ r.target)
          × (r.target < r.last)
    shuffle_sound p n k i part t s f r h li lp e g =
        let x =
          some_request api _ _ _ _ 0 n t r
            (sym (ap (λ rs. get_elem? rs t) (requests_lem p n k part i s f h e)) ∙ g) in
        let total : partition_count s ≡ advertised p n * k =
          scaled_count api p.partitioning s k h ∙ ap (λ c. c * k) (sym (count-advertised p n)) in
        (
          x.0,
          omega (arith, x),
          omega (arith, x, total, digits_bound (advertised p n) k i part li lp),
          omega (arith, x),
          omega (arith, x, lp),
        )
