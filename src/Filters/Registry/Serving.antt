-- ===== src/Filters/Registry/Serving.antt =====
-- What a dispatch of a merged dynamic filter establishes
-- (src/coordinator/dynamic_filter_registry.rs).
use datafusion_distributed.Prelude.{
  ℕ, ◌≡◌, refl, sym, subst, ◌∙◌, true, false, Option, none, some, Result, arith,
}
use datafusion_distributed.Filters.Merge.{DynamicFilterMergePolicy, TaskKey, Expressions, Report}
use datafusion_distributed.Filters.Coherence.{Waits, Coherent}
use datafusion_distributed.Filters.Dispatch.{
  RegistryError, Env, Outbox, Registry, contains, contains_key, sender_of, with_outbox,
  dispatch_merged, dispatch,
}
use datafusion_distributed.Filters.Dispatch.Offers.{IsCalm, IsFresh, offer_all_calm}

module _ (x : Expressions) (Schema : Type 0) where
  -- A filter without a schema has no producer, hence no mode.
  abbrev pub HasSchema : Option Schema → Option DynamicFilterMergePolicy → Type 0
  HasSchema none mode = mode ≡ none
  HasSchema (some s) mode = Unit

  -- A consumer that has a sender and does not produce the filter counts as delivered.
  abbrev pub IsReached : Registry x Schema → Type 0
  IsReached r =
      (m : Report x)
      → r.state.filter.merged ≡ some m
      → (k : TaskKey) → contains x k r.consumer_tasks ≡ true
      → contains_key x k r.state.filter.producers ≡ false
      → (c : ℕ) → sender_of x k r.task_senders ≡ some c
      → contains x k r.outbox.delivered ≡ true

  -- What counts as delivered is the merged filter.
  abbrev pub IsCurrent : Registry x Schema → Type 0
  IsCurrent r =
      (m : Report x) → r.state.filter.merged ≡ some m → IsFresh x Schema r.task_senders m r.outbox

  abbrev pub IsSound : Registry x Schema → Type 0
  IsSound r =
      Coherent x r.state.filter
      × HasSchema r.producer_schema r.state.filter.merge_mode
      × IsCurrent r

  abbrev pub Serves : Registry x Schema → Type 0
  Serves r = IsSound r × IsReached r

  some_inj : (a b : Report x) → some a ≡ some b → a ≡ b
  some_inj a b e = ground (arith, e)

  pub without_mode :
      (mode : Option DynamicFilterMergePolicy) (o : Option (Report x))
      → Waits x mode o
      → mode ≡ none
      → o ≡ none
  unfolding Waits
  without_mode mode o w e = subst (λ m. Waits x m o) e w

  dispatch_merged-Serves :
      (env : Env) (r : Registry x Schema) (o : Option (Report x)) (s : Option Schema)
      → IsCalm x Schema env
      → IsSound r
      → r.state.filter.merged ≡ o
      → r.producer_schema ≡ s
      → Serves (dispatch_merged x Schema env r o s).0
  unfolding dispatch_merged with_outbox
  dispatch_merged-Serves env r none s calm v eo es = (v, λ m e. absurd (ground (arith, eo, e)))
  dispatch_merged-Serves env r (some m) none calm v eo es = absurd (
      ground (
        arith,
        eo,
        without_mode r.state.filter.merge_mode r.state.filter.merged v.0
            (subst (λ t. HasSchema t r.state.filter.merge_mode) es v.1),
      ))
  dispatch_merged-Serves env r (some m) (some s) calm v eo es =
      let (next, e, fresh, more, all) =
        offer_all_calm x Schema env calm r m s r.consumer_tasks r.outbox (v.2 m eo) in
      subst
        (λ (o : Outbox x Schema × Result RegistryError (Unit {0})).
          Serves (with_outbox x Schema r o).0)
        (sym e)
        (
          (
            v.0,
            v.1,
            λ n en.
                subst (λ u. IsFresh x Schema r.task_senders u next) (some_inj m n (sym eo ∙ en))
                  fresh,
          ),
          λ n en. all,
        )

  pub dispatch-Serves :
      (env : Env) (r : Registry x Schema)
      → IsCalm x Schema env
      → IsSound r
      → Serves (dispatch x Schema env r).0
  unfolding dispatch
  dispatch-Serves env r calm v =
      rw calm.0
        (dispatch_merged-Serves env r r.state.filter.merged r.producer_schema calm v refl refl)
