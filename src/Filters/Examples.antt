-- ===== src/Filters/Examples.antt =====
-- Examples of merged dynamic filters: src/coordinator/dynamic_filter_registry.rs.
use datafusion_distributed.Prelude.{
  ℕ, ◌≡◌, ◌↔◌, refl, Bool, true, false, List, [], ◌∷◌, none, some, ltb,
}
use datafusion_distributed.Filters.Merge.{
  union_when_all_complete, TaskKey, Expressions, any, all, Report, PlannedDynamicFilter, merge,
  merge_predicates, predicates, reported, sort_reports, insert_report, compare_keys,
}
use datafusion_distributed.Filters.Updates.{
  Call, registers, seals, updates, run, unregistered, step, record_dynamic_filter_update, lookup,
  seal_stage, register_producer, enter, replace,
}
use datafusion_distributed.Filters.Merged.{Evaluates, means, merged_means}
use datafusion_distributed.Filters.Lifetime.{complete_stays}
use datafusion_distributed.Filters.Waiting.{MergesAll, union_never_partial}
use datafusion_distributed.Filters.Completion.{Completed}

-- Predicates on one number.
abbrev pub tests : Expressions
tests = record {
  Node = ℕ → Bool;
  Row = ℕ;
  and_node = λ es row. all (λ e. e row) es;
  or_node = λ es row. any (λ e. e row) es;
  same = λ a b. false;
  holds = λ row e. e row;
}

tests-Evaluates : Evaluates tests
tests-Evaluates = (λ row es. refl, λ row es. refl)

abbrev pub first_task : TaskKey
first_task = record { stage_id = 1; task_number = 0 }

abbrev second_task : TaskKey
second_task = record { stage_id = 1; task_number = 1 }

abbrev pub below : ℕ → Report tests
below n = record { inner_expr = some (λ row. ltb row n); is_complete = true; generation = 3 }

abbrev calls : List (Call tests)
calls =
    registers second_task union_when_all_complete
    ∷ registers first_task union_when_all_complete
    ∷ seals 1
    ∷ updates second_task (below 5)
    ∷ updates first_task (below 9)
    ∷ []

abbrev either : Report tests
either = record {
  inner_expr = some (λ row. any {A = ℕ → Bool} (λ e. e row) ((λ r. ltb r 9) ∷ (λ r. ltb r 5) ∷ []));
  is_complete = true;
  generation = 0;
}

-- The filter is merged when the second report arrives.
last_report_merges : (run tests (unregistered tests) calls).filter.merged ≡ some either
unfolding run step record_dynamic_filter_update lookup seal_stage merge register_producer enter
    replace sort_reports reported insert_report compare_keys merge_predicates predicates means any
    all
last_report_merges = refl

union_never_partial_example :
    (either.is_complete ≡ true) × MergesAll tests (unregistered tests) calls either
unfolding run step record_dynamic_filter_update lookup seal_stage merge register_producer enter
    replace sort_reports reported insert_report compare_keys merge_predicates predicates means any
    all
union_never_partial_example = union_never_partial tests calls either refl refl

complete_stays_example :
    (run tests
      (run tests (unregistered tests) calls)
      (updates second_task (below 2) ∷ seals 2 ∷ [])).filter.merged
    ≡ some either
unfolding run step record_dynamic_filter_update lookup seal_stage merge register_producer enter
    replace sort_reports reported insert_report compare_keys merge_predicates predicates means any
    all
complete_stays_example =
    complete_stays tests (run tests (unregistered tests) calls)
      (updates second_task (below 2) ∷ seals 2 ∷ []) either refl refl

abbrev reported_to : PlannedDynamicFilter tests
reported_to = record {
  producers = (second_task, some (below 5)) ∷ (first_task, some (below 9)) ∷ [];
  merge_mode = some union_when_all_complete;
  merged = none;
}

merged_means_example :
    ((true ≡ true) ↔ Completed tests (1 ∷ []) reported_to.producers)
    × (any {A = ℕ → Bool} (λ e. e 7) ((λ r. ltb r 9) ∷ (λ r. ltb r 5) ∷ [])
        ≡ means tests union_when_all_complete 7
            (predicates tests (reported tests reported_to.producers)))
unfolding run step record_dynamic_filter_update lookup seal_stage merge register_producer enter
    replace sort_reports reported insert_report compare_keys merge_predicates predicates means any
    all
merged_means_example =
    merged_means tests (1 ∷ []) reported_to (record reported_to { merged = some either })
      union_when_all_complete either
      (λ row. any {A = ℕ → Bool} (λ e. e row) ((λ r. ltb r 9) ∷ (λ r. ltb r 5) ∷ [])) 7
      tests-Evaluates refl refl refl refl refl
