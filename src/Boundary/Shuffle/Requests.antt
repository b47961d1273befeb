-- ===== src/Boundary/Shuffle/Requests.antt =====
-- The requests that a `NetworkShuffleExec` makes for one partition
-- (src/execution_plans/network_shuffle.rs).
use datafusion_distributed.Prelude.{
  ℕ, zero, suc, ◌+◌, ◌*◌, ◌<◌, ◌≡◌, refl, ap, ◌∙◌, Bool, true, false, List, [], ◌∷◌, Option, ok,
  get_elem?, arith, if◌then◌else◌, Option-cases, inl, inr,
}
use datafusion_distributed.Boundary.Partitioning.{
  PlanApi, Partitioning, round_robin_batch, hash, unknown_partitioning, range,
  scale_shuffle_partitioning, scale_range,
}
use datafusion_distributed.Boundary.Shuffle.{
  RepartitionHead, Request, requests_of, is_range, ask_all, combine,
}

module _ (api : PlanApi) where
  open api use {E, R, partition_count, range_scale}

  -- A producer that is scaled for `k` consumer tasks has as many partitions for each of them as a
  -- consumer task advertises.
  pub scaled_count :
      (p s : Partitioning E R) (k : ℕ)
      → scale_shuffle_partitioning api p k ≡ ok s
      → partition_count s ≡ (if is_range api p then 1 else partition_count p) * k
  unfolding scale_shuffle_partitioning scale_range is_range
  scaled_count (round_robin_batch p) s k h =
      ground (arith, h, api.count-round_robin_batch p, api.count-round_robin_batch (p * k))
  scaled_count (hash es p) s k h = ground (arith, h, api.count-hash es p, api.count-hash es (p * k))
  scaled_count (unknown_partitioning p) s k h =
      ground (arith, h, api.count-unknown_partitioning p, api.count-unknown_partitioning (p * k))
  scaled_count (range r) s k h = elim (Option-cases (range_scale r k)) [
    | inl e ↦ ground (arith, h, e)
    | inr (r', e) ↦ ground (arith, h, e, api.count-range r', api.count-range_scale r r' k e)
  ]

  abbrev pub request : (out off target : ℕ) → RepartitionHead api → ℕ → Request api
  request out off target h task = record {
    task = task;
    first = off;
    last = off + out;
    target = target;
    producer_head = h;
  }

  -- The requests to `left` producer tasks from `task` on.
  abbrev pub all_requests :
      (out off target : ℕ) → RepartitionHead api → (task left : ℕ) → List (Request api)
  all_requests out off target h task zero = []
  all_requests out off target h task (suc left) =
      request out off target h task ∷ all_requests out off target h (suc task) left

  pub ask_all_lem :
      (out off target : ℕ) (h : RepartitionHead api) (task left : ℕ)
      → ask_all api out off target (ok h) task left ≡ ok (all_requests out off target h task left)
  unfolding ask_all
  ask_all_lem out off target h task zero = refl
  ask_all_lem out off target h task (suc left) =
      rw (ask_all_lem out off target h (suc task) left) refl

  pub get_elem?-all_requests :
      (out off target : ℕ) (h : RepartitionHead api) (task left t : ℕ)
      → t < left
      → get_elem? (all_requests out off target h task left) t
        ≡ Option.some (request out off target h (task + t))
  get_elem?-all_requests out off target h task zero t l = ground arith
  get_elem?-all_requests out off target h task (suc left) zero l = ground arith
  get_elem?-all_requests out off target h task (suc left) (suc t) l =
      get_elem?-all_requests out off target h (suc task) left t (omega arith)
      ∙ ap (λ n. Option.some (request out off target h n)) (omega arith)

  pub some_request :
      (out off target : ℕ) (h : RepartitionHead api) (task left t : ℕ) (r : Request api)
      → get_elem? (all_requests out off target h task left) t ≡ Option.some r
      → (t < left)
        × (r.task ≡ task + t)
        × (r.first ≡ off)
        × (r.last ≡ off + out)
        × (r.target ≡ target)
  some_request out off target h task zero t r e = ground arith
  some_request out off target h task (suc left) zero r e = ground arith
  some_request out off target h task (suc left) (suc t) r e =
      let x = some_request out off target h (suc task) left t r e in
      (omega (arith, x), omega (arith, x), omega (arith, x), omega (arith, x), omega (arith, x))

  pub requests_of-combine :
      (ordered : Bool) (rs : List (Request api)) → requests_of api (combine api ordered rs) ≡ rs
  unfolding requests_of combine
  requests_of-combine ordered [] = refl
  requests_of-combine ordered (r ∷ []) = refl
  requests_of-combine true (r ∷ s ∷ rs) = refl
  requests_of-combine false (r ∷ s ∷ rs) = refl
