-- ===== src/Filters/Registry/Examples.antt =====
-- A dynamic filter with one producer and one consumer (src/coordinator/dynamic_filter_registry.rs).
use datafusion_distributed.Prelude.{
  ℕ, ◌≡◌, refl, Bool, true, false, List, [], ◌∷◌, none, some, ◌==◌, ltb,
}
use datafusion_distributed.Filters.Merge.{
  union_when_all_complete, TaskKey, Report, merge, merge_predicates, predicates, reported,
  sort_reports, insert_report,
}
use datafusion_distributed.Filters.Updates.{
  record_dynamic_filter_update, register_producer, enter, replace,
}
use datafusion_distributed.Filters.Examples.{tests, below, first_task}
use datafusion_distributed.Filters.Dispatch.{
  Env, sender_of, dispatch, seal_stage, record_update, register_sender,
}
use datafusion_distributed.Filters.Dispatch.Offers.{latest, IsCalm}
use datafusion_distributed.Filters.Registry.{
  RegistryCall, registers, connects, seals, updates, call, run, empty, register_task,
}
use datafusion_distributed.Filters.Registry.Consumers.{IsOrderly, consumers_current}

abbrev same_number : ℕ → ℕ → Bool
same_number a b = a == b

abbrev consumer : TaskKey
consumer = record { stage_id = 2; task_number = 0 }

abbrev running : Env
running = record { cancelled = false; cancelled_since = false; open_channel = λ c. true }

abbrev calls : List (Env × RegistryCall tests same_number)
calls =
    (running, registers first_task (some (union_when_all_complete, 7)) false)
    ∷ (running, connects first_task 10)
    ∷ (running, registers consumer none true)
    ∷ (running, seals 1)
    ∷ (running, updates first_task (below 5))
    ∷ (running, connects consumer 20)
    ∷ []

abbrev bound : Report tests
bound = record { inner_expr = some (λ row. ltb row 5); is_complete = true; generation = 0 }

calm : IsCalm tests ℕ running
calm = (refl, λ c. refl)

calls-IsOrderly : IsOrderly tests same_number (empty tests same_number) calls
unfolding call register_task register_sender seal_stage record_update sender_of dispatch
    record_dynamic_filter_update merge register_producer
calls-IsOrderly = (calm, refl, (calm, tt, (calm, refl, (calm, tt, (calm, tt, (calm, tt, tt))))))

consumers_current_example :
    latest tests ℕ consumer 20 (run tests same_number (empty tests same_number) calls).outbox.sent
    ≡ some bound
unfolding run record_dynamic_filter_update merge register_producer enter replace sort_reports
    reported insert_report merge_predicates predicates
consumers_current_example =
    consumers_current tests same_number calls consumer 20 bound calls-IsOrderly refl refl refl refl
