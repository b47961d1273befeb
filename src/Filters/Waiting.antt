-- ===== src/Filters/Waiting.antt =====
-- What a dynamic filter waits for: src/coordinator/dynamic_filter_registry.rs.
use datafusion_distributed.Prelude.{
  ◌≡◌, refl, ap, sym, subst, ◌∙◌, true, false, List, [], ◌∷◌, ◌++◌, Option, none, some, arith, ℕ,
  inl, inr, Option-cases,
}
use datafusion_distributed.Filters.Merge.{
  DynamicFilterMergePolicy, union_when_all_complete, TaskKey, Expressions, Report,
  PlannedDynamicFilter,
}
use datafusion_distributed.Filters.Updates.{
  accept, record_dynamic_filter_update, lookup, replace, register_producer, FilterState, seal_stage,
  Call, registers, seals, updates, kept_on_error, kept_on_update, step, run, unregistered,
}
use datafusion_distributed.Filters.Completion.{Completed}
use datafusion_distributed.Filters.Coherence.{
  partial, Waits, Coherent, step-Coherent, run-Coherent, merge_mode_kept,
}
use datafusion_distributed.Filters.Lifetime.{complete_stays}
use datafusion_distributed.Filters.FirstMerge.{step-MergedCompleted}

module _ (x : Expressions) where
  open x use {Node}

  not_partial :
      (mode : Option DynamicFilterMergePolicy) (o : Option (Report x)) (m : Report x)
      → Waits x mode o
      → mode ≡ some union_when_all_complete
      → o ≡ some m
      → m.is_complete ≡ true
  unfolding Waits partial
  not_partial mode o m w e h =
      let p = subst (λ o. partial x o ≡ false) h (subst (λ q. Waits x q o) e w) in ground (arith, p)

  -- A mode, once it is set, stays.
  Has : DynamicFilterMergePolicy → PlannedDynamicFilter x → Type 0
  Has u f = f.merge_mode ≡ some u

  accept-Has :
      (u : DynamicFilterMergePolicy) (sealed : List ℕ) (k : TaskKey) (d : Report x)
      (o : Option (Option (Report x))) (f : PlannedDynamicFilter x)
      → Has u f
      → Has u (kept_on_update x f (accept x sealed f k d o))
  unfolding accept kept_on_update Has
  accept-Has u sealed k d none f h = h
  accept-Has u sealed k d (some previous) f h =
      let g = record f { producers = replace x k d f.producers } in
      ground (arith, h, merge_mode_kept x sealed g)

  record-Has :
      (u : DynamicFilterMergePolicy) (sealed : List ℕ) (k : TaskKey) (d : Report x)
      (f : PlannedDynamicFilter x)
      → Has u f
      → Has u (kept_on_update x f (record_dynamic_filter_update x sealed k d f))
  unfolding record_dynamic_filter_update kept_on_update Has
  record-Has u sealed k d f h =
      ground
        (arith, h, Option-cases d.inner_expr, accept-Has u sealed k d (lookup x k f.producers) f h)

  register-Has :
      (u : DynamicFilterMergePolicy) (k : TaskKey) (mode : DynamicFilterMergePolicy)
      (f : PlannedDynamicFilter x)
      → Has u f
      → Has u (kept_on_error x f (register_producer x k mode f))
  unfolding register_producer kept_on_error Has
  register-Has u k mode f h = ground (arith, h)

  step-Has :
      (u : DynamicFilterMergePolicy) (c : Call x) (s : FilterState x)
      → Has u s.filter
      → Has u (step x c s).filter
  unfolding step seal_stage Has
  step-Has u (registers k mode) s h = register-Has u k mode s.filter h
  step-Has u (seals stage) s h = merge_mode_kept x (stage ∷ s.sealed_stages) s.filter ∙ h
  step-Has u (updates k d) s h = record-Has u s.sealed_stages k d s.filter h

  run-Has :
      (u : DynamicFilterMergePolicy) (s : FilterState x) (cs : List (Call x))
      → Has u s.filter
      → Has u (run x s cs).filter
  unfolding run
  run-Has u s [] h = h
  run-Has u s (c ∷ cs) h = run-Has u (step x c s) cs (step-Has u c s h)

  merged-Has :
      (f : PlannedDynamicFilter x) (m : Report x)
      → Coherent x f
      → f.merged ≡ some m
      → (u : DynamicFilterMergePolicy) × Has u f
  unfolding Waits Has
  merged-Has f m k h = elim (Option-cases f.merge_mode) [
    | inl e ↦ absurd (ground (arith, h, subst (λ o. Waits x o f.merged) e k))
    | inr (u, e) ↦ (u, e)
  ]

  -- Among the calls is one before which the filter is not merged and which merges it into `m`, when
  -- every producer that is registered is a task of a sealed stage and has sent a complete report.
  abbrev pub MergesAll : FilterState x → List (Call x) → Report x → Type 0
  MergesAll s cs m =
      (earlier : List (Call x)) × (c : Call x) × (later : List (Call x)) × (cs
        ≡ earlier ++ (c ∷ later))
      × ((run x s earlier).filter.merged ≡ none)
      × (let t = step x c (run x s earlier) in
          ((t.filter.merged ≡ some m) × Completed x t.sealed_stages t.filter.producers))

  MergesAll-cons :
      (s : FilterState x) (c : Call x) (cs : List (Call x)) (m : Report x)
      → MergesAll (step x c s) cs m
      → MergesAll s (c ∷ cs) m
  unfolding run
  MergesAll-cons s c cs m (earlier, d, later, e, n, rest) =
      (c ∷ earlier, d, later, ap (λ l. c ∷ l) e, n, rest)

  run-MergesAll :
      (s : FilterState x) (cs : List (Call x)) (m : Report x)
      → Coherent x s.filter
      → s.filter.merged ≡ none
      → (run x s cs).filter.merge_mode ≡ some union_when_all_complete
      → (run x s cs).filter.merged ≡ some m
      → MergesAll s cs m
  unfolding run Has
  run-MergesAll s [] m k n e h = absurd (ground (arith, n, h))
  run-MergesAll s (c ∷ cs) m k n e h =
      let t = step x c s in
      let kt = step-Coherent x c s k in
      elim (Option-cases t.filter.merged) [
        | inl unmerged ↦ MergesAll-cons s c cs m (run-MergesAll t cs m kt unmerged e h)
        | inr (first, merged) ↦
            let (u, has) = merged-Has t.filter first kt merged in
            let waits : t.filter.merge_mode ≡ some union_when_all_complete =
              has ∙ (sym (run-Has u t cs has) ∙ e) in
            let complete = not_partial t.filter.merge_mode t.filter.merged first kt waits merged in
            let same = sym (complete_stays x t cs first merged complete) ∙ h in
            ([], c, cs, refl, n, (merged ∙ same, step-MergedCompleted x c s n first waits merged))
      ]

  -- However registrations, seals and updates follow one another, a filter that waits for all its
  -- producers, as that of a partitioned join, is never merged in part: when it has a merged filter,
  -- that is complete, and it was made by a call before which there was none, when every producer
  -- registered by then was a task of a sealed stage and had sent a complete report.
  pub union_never_partial :
      (cs : List (Call x)) (m : Report x)
      → (run x (unregistered x) cs).filter.merge_mode ≡ some union_when_all_complete
      → (run x (unregistered x) cs).filter.merged ≡ some m
      → (m.is_complete ≡ true) × MergesAll (unregistered x) cs m
  unfolding Waits
  union_never_partial cs m e h =
      let f = (run x (unregistered x) cs).filter in
      (
        not_partial f.merge_mode f.merged m (run-Coherent x (unregistered x) cs refl) e h,
        run-MergesAll (unregistered x) cs m refl refl e h,
      )
