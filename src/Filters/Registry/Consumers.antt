-- ===== src/Filters/Registry/Consumers.antt =====
-- Every consumer of a dynamic filter has the merged filter that is current
-- (src/coordinator/dynamic_filter_registry.rs).
use datafusion_distributed.Prelude.{
  ℕ, ◌≡◌, refl, Bool, true, false, List, [], ◌∷◌, none, some, arith,
}
use datafusion_distributed.Filters.Merge.{TaskKey, Expressions, Report}
use datafusion_distributed.Filters.Coherence.{Waits}
use datafusion_distributed.Filters.Dispatch.{Env, Registry, contains, contains_key, sender_of}
use datafusion_distributed.Filters.Dispatch.Offers.{latest, IsCalm}
use datafusion_distributed.Filters.Registry.Merges.{
  seal_stage-Serves, record_update-Serves, register_sender-Serves,
}
use datafusion_distributed.Filters.Registry.Registrations.{register_task-Serves}
use datafusion_distributed.Filters.Registry.Serving.{Serves}
use datafusion_distributed.Filters.Registry.{
  RegistryCall, registers, connects, seals, updates, call, run, empty,
}

module _ (x : Expressions) {Schema : Type 0} (same_schema : Schema → Schema → Bool) where
  -- A task registers before its sender does.
  abbrev pub IsOrdered : RegistryCall x same_schema → Registry x Schema → Type 0
  IsOrdered (registers k produces consumes) r = sender_of x k r.task_senders ≡ none
  IsOrdered (connects k c) r = Unit
  IsOrdered (seals stage) r = Unit
  IsOrdered (updates k d) r = Unit

  -- Each call of a run is in order, the query has not finished, and the channels are open.
  abbrev pub IsOrderly : Registry x Schema → List (Env × RegistryCall x same_schema) → Type 0
  IsOrderly r [] = Unit
  IsOrderly r (c ∷ cs) =
      IsCalm x Schema c.0 × IsOrdered c.1 r × IsOrderly (call x same_schema c.0 c.1 r).0 cs

  call-Serves :
      (env : Env) (c : RegistryCall x same_schema) (r : Registry x Schema)
      → IsCalm x Schema env
      → IsOrdered c r
      → Serves x Schema r
      → Serves x Schema (call x same_schema env c r).0
  unfolding call
  call-Serves env (registers k produces consumes) r calm n v =
      register_task-Serves x same_schema k produces consumes r n v
  call-Serves env (connects k c) r calm n v = register_sender-Serves x Schema env k c r calm v
  call-Serves env (seals stage) r calm n v = seal_stage-Serves x Schema env stage r calm v
  call-Serves env (updates k d) r calm n v = record_update-Serves x Schema env k d r calm v

  run-Serves :
      (r : Registry x Schema) (cs : List (Env × RegistryCall x same_schema))
      → IsOrderly r cs
      → Serves x Schema r
      → Serves x Schema (run x same_schema r cs)
  unfolding run
  run-Serves r [] o v = v
  run-Serves r (c ∷ cs) o v =
      run-Serves (call x same_schema c.0 c.1 r).0 cs o.2 (call-Serves c.0 c.1 r o.0 o.1 v)

  -- While the query runs and channels are open, and where each task registers before its sender, after
  -- any calls: a consumer of the filter that has a sender, and does not produce the filter itself, got
  -- the current merged filter last over its channel, if there is a merged filter.
  pub consumers_current :
      (cs : List (Env × RegistryCall x same_schema)) (k : TaskKey) (c : ℕ) (m : Report x)
      → IsOrderly (empty x same_schema) cs
      → contains x k (run x same_schema (empty x same_schema) cs).consumer_tasks ≡ true
      → contains_key x k (run x same_schema (empty x same_schema) cs).state.filter.producers ≡ false
      → sender_of x k (run x same_schema (empty x same_schema) cs).task_senders ≡ some c
      → (run x same_schema (empty x same_schema) cs).state.filter.merged ≡ some m
      → latest x Schema k c (run x same_schema (empty x same_schema) cs).outbox.sent ≡ some m
  unfolding Waits
  consumers_current cs k c m o h p e em =
      let v =
        run-Serves (empty x same_schema) cs o
          ((refl, refl, λ m e. absurd (ground (arith, e))), λ m e. absurd (ground (arith, e))) in
      v.0.2 m em k c (v.1 m em k h p c e) e
