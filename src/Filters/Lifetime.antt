-- ===== src/Filters/Lifetime.antt =====
-- How a dynamic filter changes over a query: src/coordinator/dynamic_filter_registry.rs.
use datafusion_distributed.Prelude.{ℕ, ◌≡◌, true, List, [], ◌∷◌, Option, none, some, arith}
use datafusion_distributed.Filters.Merge.{
  DynamicFilterMergePolicy, TaskKey, Expressions, Report, PlannedDynamicFilter, previous_complete,
  merge,
}
use datafusion_distributed.Filters.Updates.{
  accept, record_dynamic_filter_update, lookup, replace, register_producer, FilterState, seal_stage,
  Call, registers, seals, updates, kept_on_error, kept_on_update, step, run,
}

module _ (x : Expressions) where
  open x use {Node}

  -- `m` is the complete merged filter.
  abbrev IsFinal : PlannedDynamicFilter x → Report x → Type 0
  IsFinal f m = (f.merged ≡ some m) × (m.is_complete ≡ true)

  merge-IsFinal :
      (sealed : List ℕ) (f : PlannedDynamicFilter x) (m : Report x)
      → IsFinal f m
      → IsFinal (merge x sealed f).1 m
  unfolding merge previous_complete
  merge-IsFinal sealed f m h = (ground (arith, h), h.1)

  accept-IsFinal :
      (sealed : List ℕ) (k : TaskKey) (d : Report x) (o : Option (Option (Report x)))
      (f : PlannedDynamicFilter x) (m : Report x)
      → IsFinal f m
      → IsFinal (kept_on_update x f (accept x sealed f k d o)) m
  unfolding accept kept_on_update
  accept-IsFinal sealed k d none f m h = h
  accept-IsFinal sealed k d (some previous) f m h =
      let g = record f { producers = replace x k d f.producers } in
      (ground (arith, h, (merge-IsFinal sealed g m h).0), h.1)

  record-IsFinal :
      (sealed : List ℕ) (k : TaskKey) (d : Report x) (f : PlannedDynamicFilter x) (m : Report x)
      → IsFinal f m
      → IsFinal (kept_on_update x f (record_dynamic_filter_update x sealed k d f)) m
  unfolding record_dynamic_filter_update kept_on_update
  record-IsFinal sealed k d f m h =
      (ground (arith, h, (accept-IsFinal sealed k d (lookup x k f.producers) f m h).0), h.1)

  register-IsFinal :
      (k : TaskKey) (mode : DynamicFilterMergePolicy) (f : PlannedDynamicFilter x) (m : Report x)
      → IsFinal f m
      → IsFinal (kept_on_error x f (register_producer x k mode f)) m
  unfolding register_producer kept_on_error
  register-IsFinal k mode f m h = (ground (arith, h), h.1)

  step-IsFinal :
      (c : Call x) (s : FilterState x) (m : Report x)
      → IsFinal s.filter m
      → IsFinal (step x c s).filter m
  unfolding step seal_stage
  step-IsFinal (registers k mode) s m h = register-IsFinal k mode s.filter m h
  step-IsFinal (seals stage) s m h = merge-IsFinal (stage ∷ s.sealed_stages) s.filter m h
  step-IsFinal (updates k d) s m h = record-IsFinal s.sealed_stages k d s.filter m h

  run-IsFinal :
      (s : FilterState x) (cs : List (Call x)) (m : Report x)
      → IsFinal s.filter m
      → IsFinal (run x s cs).filter m
  unfolding run
  run-IsFinal s [] m h = h
  run-IsFinal s (c ∷ cs) m h = run-IsFinal (step x c s) cs m (step-IsFinal c s m h)

  -- Once the merged filter is complete, no registration, seal or update changes it.
  pub complete_stays :
      (s : FilterState x) (cs : List (Call x)) (m : Report x)
      → s.filter.merged ≡ some m
      → m.is_complete ≡ true
      → (run x s cs).filter.merged ≡ some m
  complete_stays s cs m e c = (run-IsFinal s cs m (e, c)).0
