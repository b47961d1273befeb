-- ===== src/Boundary/NetworkBroadcast/Routing.antt =====
-- Where the requests of a `NetworkBroadcastExec` arrive (src/execution_plans/network_broadcast.rs,
-- src/execution_plans/broadcast.rs).
use native.Mathlib.Nat.{mod-lt}
use datafusion_distributed.Prelude.{
  ℕ, zero, suc, ◌+◌, ◌*◌, ◌/◌, ◌%◌, ◌≤◌, ◌<◌, ◌≡◌, refl, ap, ◌∙◌, List, Option, get_elem?, arith,
}
use datafusion_distributed.Prelude.Digits.{digits, digits_unique}
use datafusion_distributed.Boundary.Partitioning.{PlanApi, Partitioning, unknown_partitioning}
use datafusion_distributed.Boundary.Coalesce.{remote, stage_task_count}
use datafusion_distributed.Boundary.NetworkBroadcast.{
  BroadcastHead, BroadcastExec, BroadcastRequest, NetworkBroadcastExec, insert, real_partition,
  consumer_task, select_all, ask_all, from_stage, producer_head, execute, execute_stage,
}

get_elem?-ask_all :
    (out off part : ℕ) (h : BroadcastHead) (task left t : ℕ)
    → t < left
    → get_elem? (ask_all out off part h task left) t
      ≡ Option.some (record {
        task = task + t;
        first = off;
        last = off + out;
        target = off + part;
        producer_head = h;
      })
unfolding ask_all
get_elem?-ask_all out off part h task zero t l = absurd (omega arith)
get_elem?-ask_all out off part h task (suc left) zero l = ground arith
get_elem?-ask_all out off part h task (suc left) (suc t) l =
    get_elem?-ask_all out off part h (suc task) left t (omega arith)
    ∙ ap
        (λ n. Option.some (record {
          task = n;
          first = off;
          last = off + out;
          target = off + part;
          producer_head = h;
        }))
        {x = suc task + t} {y = task + suc t} (omega arith)

-- The digits of a sum in which they can be read off.
digits_of : (a i x : ℕ) → x < a → ((a * i + x) / a ≡ i) × ((a * i + x) % a ≡ x)
digits_of a i x l =
    digits_unique a ((a * i + x) / a) i ((a * i + x) % a) x (digits a (a * i + x) ∙ grind arith)
      (mod-lt (a * i + x) {m = a} (omega (arith, l))) l

consumers_of : (a k : ℕ) → 0 < a → a * k / a ≡ k
consumers_of a k h =
    ap (λ n. n / a) {x = a * k} {y = a * k + 0} (omega arith) ∙ (digits_of a k 0 h).0

routed :
    (a out k i part : ℕ)
    → out ≡ a
    → part < a
    → i < k
    → ((out * i + part) % a ≡ part) × ((out * i + part) / a ≡ i) × (i < out * k / a)
routed a out k i part e lp li =
    let d = digits_of a i part lp in
    rw e (d.1, d.0, omega (arith, consumers_of a k (omega arith), li))

module _ (api : PlanApi) where
  open api use {E, R, partition_count}

  abbrev pub boundary : Partitioning E R → ℕ → NetworkBroadcastExec api
  boundary input n = from_stage api (remote n) input

  -- The producer that a boundary of `k` consumer tasks has on an input of its partitions.
  abbrev pub producer : Partitioning E R → (n k : ℕ) → BroadcastExec
  producer input n k = insert (producer_head api (boundary input n) k) (partition_count input)

  -- Executing an input partition as one of the consumer tasks asks every producer task, over a
  -- connection that spans the partition asked for, which the producer executes as that input
  -- partition for that consumer task: a reader that its queue has.
  pub broadcast_routed :
      (input : Partitioning E R) (n k part i t : ℕ)
      → part < partition_count input
      → i < k
      → t < n
      → (rs : List BroadcastRequest) × (execute api (boundary input n) part i k ≡ select_all rs)
        × (r : BroadcastRequest) × (get_elem? rs t ≡ Option.some r)
        × (r.task ≡ t)
        × (r.first ≤ r.target)
        × (r.target < r.last)
        × (real_partition (producer input n k) r.target ≡ part)
        × (consumer_task (producer input n k) r.target ≡ i)
        × (i < (producer input n k).consumer_task_count)
  unfolding execute execute_stage from_stage producer_head insert real_partition consumer_task
      stage_task_count
  broadcast_routed input n k part i t lp li lt =
      let a = partition_count input in
      let e : partition_count (unknown_partitioning a) ≡ a = api.count-unknown_partitioning a in
      let out = partition_count (unknown_partitioning a) in
      let x = routed a out k i part e lp li in
      (
        _,
        refl,
        record {
          task = t;
          first = out * i;
          last = out * i + out;
          target = out * i + part;
          producer_head = producer_head api (boundary input n) k;
        },
        get_elem?-ask_all out (out * i) part (producer_head api (boundary input n) k) 0 n t lt
            ∙ ap
                (λ m. Option.some (record {
                  task = m;
                  first = out * i;
                  last = out * i + out;
                  target = out * i + part;
                  producer_head = producer_head api (boundary input n) k;
                }))
                {x = 0 + t} {y = t} (omega arith),
        refl,
        omega arith,
        omega (arith, e, lp),
        x.0,
        x.1,
        x.2,
      )
