-- ===== src/Filters/Registry/Registrations.antt =====
-- Registrations keep every consumer of a dynamic filter served
-- (src/coordinator/dynamic_filter_registry.rs).
use datafusion_distributed.Prelude.{
  ℕ, ◌≡◌, refl, ap, sym, subst, ◌∙◌, Bool, true, false, List, ◌∷◌, Option, none, some, Result, ok,
  err, if◌then◌else◌, arith, if-elim, Bool-cases, inl, inr,
}
use datafusion_distributed.Filters.Merge.{
  DynamicFilterMergePolicy, TaskKey, Expressions, PlannedDynamicFilter,
}
use datafusion_distributed.Filters.Updates.{same_key, enter, register_producer, kept_on_error}
use datafusion_distributed.Filters.Coherence.{Coherent, register-Coherent}
use datafusion_distributed.Filters.Dispatch.{
  RegistryError, update_error, conflicting_schemas, Registry, contains, contains_key, sender_of,
}
use datafusion_distributed.Filters.Dispatch.Offers.{same_key→eq}
use datafusion_distributed.Filters.Dispatch.Kept.{contains_key-enter}
use datafusion_distributed.Filters.Registry.Serving.{HasSchema, Serves}
use datafusion_distributed.Filters.Registry.{
  conflicts, or_insert, register_produced, register_consumer, register_producing, register_task,
}

module _ (x : Expressions) {Schema : Type 0} (same_schema : Schema → Schema → Bool) where
  or_insert-HasSchema :
      (o : Option Schema) (s : Schema) (mode : Option DynamicFilterMergePolicy)
      → HasSchema x Schema (or_insert x same_schema o s) mode
  unfolding or_insert
  or_insert-HasSchema none s mode = tt
  or_insert-HasSchema (some e) s mode = tt

  register_producer-ok :
      (k : TaskKey) (mode : DynamicFilterMergePolicy) (f g : PlannedDynamicFilter x)
      → register_producer x k mode f ≡ ok g
      → (g.merged ≡ f.merged) × (g.producers ≡ enter x k f.producers)
  unfolding register_producer
  register_producer-ok k mode f g q = (ground (arith, q), ground (arith, q))

  register_produced-Serves :
      (k : TaskKey) (mode : DynamicFilterMergePolicy) (s : Schema) (r : Registry x Schema)
      → Serves x Schema r
      → Serves x Schema (register_produced x same_schema k mode s r).0
  unfolding register_produced kept_on_error
  register_produced-Serves k mode s r v =
      let r' = record r { producer_schema = or_insert x same_schema r.producer_schema s } in
      let f = r.state.filter in
      let made = register_producer x k mode f in
      let schema = or_insert-HasSchema r.producer_schema s in
      if-elim (λ (q : Registry x Schema × Result RegistryError (Unit {0})). Serves x Schema q.0)
        (conflicts x same_schema r.producer_schema s) {x = (r, err conflicting_schemas)}
        {y = elim made [
          | err e ↦ (r', err (update_error e))
          | ok f ↦ (record r' { state = record r.state { filter = f } }, ok tt)
        ]}
        v
        (elim made
            as (λ o.
              made ≡ o
              → Serves x Schema
                  (elim o as (λ _. Registry x Schema × Result RegistryError (Unit {0})) [
                    | err e ↦ (r', err (update_error e))
                    | ok f ↦ (record r' { state = record r.state { filter = f } }, ok tt)
                  ]).0) [
                    | err e ↦ λ q. ((v.0.0, schema r.state.filter.merge_mode, v.0.2), v.1)
                    | ok g ↦ λ q.
                        let kept = register_producer-ok k mode f g q in
                        (
                          (
                            subst (λ u. Coherent x (kept_on_error x f u)) q
                                (register-Coherent x k mode f v.0.0),
                            schema g.merge_mode,
                            λ m e. v.0.2 m (sym kept.0 ∙ e),
                          ),
                          λ m e j h p. v.1 m (sym kept.0 ∙ e) j h (
                              contains_key-enter x j k f.producers
                                (sym (ap (contains_key x j) kept.1) ∙ p)),
                        )
                  ]
          refl)

  consumer_rest :
      (j k : TaskKey) (ks : List TaskKey)
      → contains x j (k ∷ ks) ≡ true
      → same_key x j k ≡ false
      → contains x j ks ≡ true
  unfolding contains
  consumer_rest j k ks h n = ground (arith, h, n)

  register_consumer-Serves :
      (k : TaskKey) (r : Registry x Schema)
      → sender_of x k r.task_senders ≡ none
      → Serves x Schema r
      → Serves x Schema (register_consumer x same_schema k r)
  unfolding register_consumer
  register_consumer-Serves k r n v =
      if-elim (Serves x Schema) (contains x k r.consumer_tasks) {x = r}
        {y = record r { consumer_tasks = k ∷ r.consumer_tasks }} v
        (v.0, λ m e j h p c o. v.1 m e j (other j c h o) p c o)
    where
      other :
          (j : TaskKey) (c : ℕ)
          → contains x j (k ∷ r.consumer_tasks) ≡ true
          → sender_of x j r.task_senders ≡ some c
          → contains x j r.consumer_tasks ≡ true
      other j c h o = elim (Bool-cases (same_key x j k)) [
        | inl same ↦
            absurd (
              ground (arith, o, n, ap (λ u. sender_of x u r.task_senders) (same_key→eq x j k same)))
        | inr apart ↦ consumer_rest j k r.consumer_tasks h apart
      ]

  register_producing-Serves :
      (k : TaskKey) (produces : Option (DynamicFilterMergePolicy × Schema)) (r : Registry x Schema)
      → Serves x Schema r
      → Serves x Schema (register_producing x same_schema k produces r).0
  unfolding register_producing
  register_producing-Serves k none r v = v
  register_producing-Serves k (some (mode, s)) r v = register_produced-Serves k mode s r v

  register_producing-senders :
      (k : TaskKey) (produces : Option (DynamicFilterMergePolicy × Schema)) (r : Registry x Schema)
      → (register_producing x same_schema k produces r).0.task_senders ≡ r.task_senders
  unfolding register_producing register_produced
  register_producing-senders k none r = refl
  register_producing-senders k (some (mode, s)) r = ground arith

  pub register_task-Serves :
      (k : TaskKey) (produces : Option (DynamicFilterMergePolicy × Schema)) (consumes : Bool)
      (r : Registry x Schema)
      → sender_of x k r.task_senders ≡ none
      → Serves x Schema r
      → Serves x Schema (register_task x same_schema k produces consumes r).0
  unfolding register_task
  register_task-Serves k produces consumes r n v =
      let made = register_producing x same_schema k produces r in
      let served = register_producing-Serves k produces r v in
      elim made.1
        as (λ o.
          Serves x Schema
            (elim o as (λ _. Registry x Schema × Result RegistryError (Unit {0})) [
              | err e ↦ (made.0, err e)
              | ok u ↦
                  (if consumes then register_consumer x same_schema k made.0 else made.0, ok tt)
            ]).0) [
              | err e ↦ served
              | ok u ↦
                  if-elim (Serves x Schema) consumes {x = register_consumer x same_schema k made.0}
                    {y = made.0}
                    (register_consumer-Serves k made.0
                      (ap (sender_of x k) (register_producing-senders k produces r) ∙ n) served)
                    served
            ]
