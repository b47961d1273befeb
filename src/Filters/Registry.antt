-- ===== src/Filters/Registry.antt =====
-- The calls of the registry of dynamic filters, for one filter:
-- src/coordinator/dynamic_filter_registry.rs. The mutex makes each call atomic. What a task's plan
-- produces and consumes of the filter is an input of its registration.
mod Serving
mod Merges
mod Registrations
pub mod Consumers
mod Examples
use datafusion_distributed.Prelude.{
  ℕ, Bool, true, false, not, ◌&&◌, List, [], ◌∷◌, Option, none, some, Result, ok, err,
  if◌then◌else◌,
}
use datafusion_distributed.Filters.Merge.{
  DynamicFilterMergePolicy, TaskKey, Expressions, Report, PlannedDynamicFilter,
}
use datafusion_distributed.Filters.Updates.{register_producer, unregistered}
use datafusion_distributed.Filters.Dispatch.{
  RegistryError, conflicting_schemas, update_error, Env, Registry, contains, seal_stage,
  record_update, register_sender,
}

module _ (x : Expressions) {Schema : Type 0} (same_schema : Schema → Schema → Bool) where
  unfoldable pub conflicts : Option Schema → Schema → Bool
  conflicts none s = false
  conflicts (some existing) s = not (same_schema existing s)

  -- `get_or_insert`
  unfoldable pub or_insert : Option Schema → Schema → Option Schema
  or_insert none s = some s
  or_insert (some existing) s = some existing

  unfoldable pub register_produced :
      TaskKey
      → DynamicFilterMergePolicy
      → Schema
      → Registry x Schema
      → Registry x Schema × Result RegistryError (Unit {0})
  unfolding conflicts or_insert
  register_produced k mode s r =
      if conflicts r.producer_schema s
      then (r, err conflicting_schemas)
      else let r' = record r { producer_schema = or_insert r.producer_schema s } in
        elim (register_producer x k mode r.state.filter) [
          | err e ↦ (r', err (update_error e))
          | ok f ↦ (record r' { state = record r.state { filter = f } }, ok tt)
        ]

  unfoldable pub register_consumer : TaskKey → Registry x Schema → Registry x Schema
  unfolding contains
  register_consumer k r =
      if contains x k r.consumer_tasks
      then r
      else record r { consumer_tasks = k ∷ r.consumer_tasks }

  unfoldable pub register_producing :
      TaskKey
      → Option (DynamicFilterMergePolicy × Schema)
      → Registry x Schema
      → Registry x Schema × Result RegistryError (Unit {0})
  unfolding register_produced
  register_producing k none r = (r, ok tt)
  register_producing k (some (mode, s)) r = register_produced k mode s r

  -- `register_task`, by how the task produces the filter, if it does, and whether it consumes it
  unfoldable pub register_task :
      TaskKey
      → Option (DynamicFilterMergePolicy × Schema)
      → Bool
      → Registry x Schema
      → Registry x Schema × Result RegistryError (Unit {0})
  unfolding register_producing register_consumer
  register_task k produces consumes r =
      let made = register_producing k produces r in
      elim made.1 [
        | err e ↦ (made.0, err e)
        | ok u ↦ (if consumes then register_consumer k made.0 else made.0, ok tt)
      ]

  pub data RegistryCall : Type 0 where
    registers : TaskKey → Option (DynamicFilterMergePolicy × Schema) → Bool → RegistryCall
    connects : TaskKey → (channel : ℕ) → RegistryCall
    seals : ℕ → RegistryCall
    updates : TaskKey → Report x → RegistryCall

  unfoldable pub call :
      Env → RegistryCall → Registry x Schema → Registry x Schema × Result RegistryError (Unit {0})
  unfolding register_task register_sender seal_stage record_update
  call env (registers k produces consumes) r = register_task k produces consumes r
  call env (connects k channel) r = register_sender x Schema env k channel r
  call env (seals stage) r = seal_stage x Schema env stage r
  call env (updates k d) r = record_update x Schema env k d r

  unfoldable pub run : Registry x Schema → List (Env × RegistryCall) → Registry x Schema
  unfolding call
  run r [] = r
  run r (c ∷ cs) = run (call c.0 c.1 r).0 cs

  abbrev pub empty : Registry x Schema
  empty = record {
    state = unregistered x;
    producer_schema = none;
    consumer_tasks = [];
    task_senders = [];
    outbox = record { delivered = []; sent = [] };
  }
