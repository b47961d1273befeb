-- ===== src/Filters/Registry/Merges.antt =====
-- Seals, updates and new senders keep every consumer of a dynamic filter served
-- (src/coordinator/dynamic_filter_registry.rs).
use datafusion_distributed.Prelude.{
  ℕ, ◌≡◌, ◌≢◌, refl, sym, subst, ◌∙◌, Bool, true, false, List, [], ◌∷◌, some, Result, ok, err,
  arith,
}
use datafusion_distributed.Filters.Merge.{TaskKey, Expressions, Report, PlannedDynamicFilter, merge}
use datafusion_distributed.Filters.Updates.{same_key, record_dynamic_filter_update, kept_on_update}
use datafusion_distributed.Filters.Coherence.{Coherent, merge-Coherent, record-Coherent}
use datafusion_distributed.Filters.Dispatch.{
  RegistryError, update_error, Env, Registry, contains, sender_of, remove, absorb, after_merge,
  seal_stage, record_update, register_sender,
}
use datafusion_distributed.Filters.Dispatch.Offers.{IsCalm}
use datafusion_distributed.Filters.Dispatch.Kept.{Keeps, merge-Keeps, record-Keeps}
use datafusion_distributed.Filters.Registry.Serving.{HasSchema, Serves, dispatch-Serves}

module _ (x : Expressions) (Schema : Type 0) where
  after_merge-Serves :
      (env : Env) (sealed : List ℕ) (m : Bool × PlannedDynamicFilter x) (r : Registry x Schema)
      → IsCalm x Schema env
      → Serves x Schema r
      → Keeps x r.state.filter m
      → Coherent x m.1
      → Serves x Schema (after_merge x Schema env sealed m r).0
  unfolding after_merge absorb
  after_merge-Serves env sealed (true, f) r calm v keep c =
      dispatch-Serves x Schema env (absorb x Schema sealed (true, f) r) calm (
        c,
        subst (HasSchema x Schema r.producer_schema) (sym keep.0) v.0.1,
        λ m e j ch d. absurd (none_delivered j d),
      )
    where
      none_delivered : (j : TaskKey) → contains x j [] ≢ true
      none_delivered j d = cc
  after_merge-Serves env sealed (false, f) r calm v keep c =
      let same = keep.2 refl in
      (
        (
          c,
          subst (HasSchema x Schema r.producer_schema) (sym keep.0) v.0.1,
          λ m e. v.0.2 m (sym same ∙ e),
        ),
        λ m e k h p. v.1 m (sym same ∙ e) k h (sym (keep.1 k) ∙ p),
      )

  pub seal_stage-Serves :
      (env : Env) (stage : ℕ) (r : Registry x Schema)
      → IsCalm x Schema env
      → Serves x Schema r
      → Serves x Schema (seal_stage x Schema env stage r).0
  unfolding seal_stage
  seal_stage-Serves env stage r calm v =
      let sealed = stage ∷ r.state.sealed_stages in
      after_merge-Serves env sealed (merge x sealed r.state.filter) r calm v
        (merge-Keeps x sealed r.state.filter) (merge-Coherent x sealed r.state.filter v.0.0)

  pub record_update-Serves :
      (env : Env) (k : TaskKey) (d : Report x) (r : Registry x Schema)
      → IsCalm x Schema env
      → Serves x Schema r
      → Serves x Schema (record_update x Schema env k d r).0
  unfolding record_update kept_on_update
  record_update-Serves env k d r calm v =
      let sealed = r.state.sealed_stages in
      let f = r.state.filter in
      let made = record_dynamic_filter_update x sealed k d f in
      elim made
          as (λ o.
            made ≡ o
            → Serves x Schema
                (elim o as (λ _. Registry x Schema × Result RegistryError (Unit {0})) [
                  | err e ↦ (r, err (update_error e))
                  | ok m ↦ after_merge x Schema env sealed m r
                ]).0) [
                  | err e ↦ λ q. v
                  | ok m ↦ λ q.
                      after_merge-Serves env sealed m r calm v (record-Keeps x sealed k d f m q) (
                        subst (λ u. Coherent x (kept_on_update x f u)) q
                          (record-Coherent x sealed k d f v.0.0))
                ]
        refl

  contains-remove :
      (j k : TaskKey) (ks : List TaskKey)
      → contains x j (remove x k ks) ≡ true
      → (same_key x j k ≡ false) × (contains x j ks ≡ true)
  unfolding contains remove same_key
  contains-remove j k [] h = absurd (ground (arith, h))
  contains-remove j k (i ∷ ks) h = ground (arith, h, contains-remove j k ks)

  older_sender :
      (j k : TaskKey) (channel : ℕ) (senders : List (TaskKey × ℕ)) (c : ℕ)
      → same_key x j k ≡ false
      → sender_of x j ((k, channel) ∷ senders) ≡ some c
      → sender_of x j senders ≡ some c
  unfolding sender_of
  older_sender j k channel senders c n o = ground (arith, n, o)

  pub register_sender-Serves :
      (env : Env) (k : TaskKey) (channel : ℕ) (r : Registry x Schema)
      → IsCalm x Schema env
      → Serves x Schema r
      → Serves x Schema (register_sender x Schema env k channel r).0
  unfolding register_sender
  register_sender-Serves env k channel r calm v =
      dispatch-Serves x Schema env
        (record r {
          task_senders = (k, channel) ∷ r.task_senders;
          outbox = record r.outbox { delivered = remove x k r.outbox.delivered };
        })
        calm
        (
          v.0.0,
          v.0.1,
          λ m e j c d o.
              let other = contains-remove j k r.outbox.delivered d in
              v.0.2 m e j c other.1 (older_sender j k channel r.task_senders c other.0 o),
        )
