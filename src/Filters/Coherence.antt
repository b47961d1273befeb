-- ===== src/Filters/Coherence.antt =====
-- What a dynamic filter waits for: src/coordinator/dynamic_filter_registry.rs.
use datafusion_distributed.Prelude.{
  ℕ, ◌≡◌, refl, ap, sym, subst, Bool, true, false, not, ◌&&◌, ◌||◌, List, [], ◌∷◌, Option, none,
  some, if◌then◌else◌, arith, ok, err,
}
use datafusion_distributed.Filters.Merge.{
  DynamicFilterMergePolicy, union_when_all_complete, forward_first_complete, intersect_on_update,
  TaskKey, Expressions, is_forward, is_union, Report, PlannedDynamicFilter, all_complete, reported,
  sort_reports, first_only, previous_complete, merge_reports, merge_mode_in, merge, unchanged,
}
use datafusion_distributed.Filters.Updates.{
  missing_inner_expression, conflicting_merge_modes, accept, record_dynamic_filter_update, lookup,
  replace, superseded, is_intersect, enter, same_mode, register_producer, FilterState, seal_stage,
  Call, registers, seals, updates, kept_on_error, kept_on_update, step, run,
}

module _ (x : Expressions) where
  open x use {Node}

  unfoldable pub partial : Option (Report x) → Bool
  partial none = false
  partial (some r) = not r.is_complete

  -- What may be merged: nothing without a mode, and nothing partial when all are waited for.
  unfoldable pub Waits : Option DynamicFilterMergePolicy → Option (Report x) → Type 0
  Waits none o = o ≡ none
  Waits (some union_when_all_complete) o = partial o ≡ false
  Waits (some forward_first_complete) o = Unit
  Waits (some intersect_on_update) o = Unit

  merge_mode_in-Waits :
      (mode : Option DynamicFilterMergePolicy) (sealed : List ℕ) (f : PlannedDynamicFilter x)
      → Waits mode f.merged
      → Waits mode (merge_mode_in x mode sealed f).1.merged
  unfolding Waits partial merge_mode_in merge_reports unchanged is_union is_forward
  merge_mode_in-Waits none sealed f h = h
  merge_mode_in-Waits (some forward_first_complete) sealed f h = tt
  merge_mode_in-Waits (some intersect_on_update) sealed f h = tt
  merge_mode_in-Waits (some union_when_all_complete) sealed f h =
      elim (sort_reports x (reported x f.producers))
        as (λ rs.
          partial
            (if not (all_complete x sealed f)
              then (false, f)
              else merge_reports x union_when_all_complete (all_complete x sealed f) rs f).1.merged
          ≡ false) [ [] ↦ ground (arith, h) | r ∷ rs ↦ ground (arith, h) ]

  merge-Waits :
      (sealed : List ℕ) (f : PlannedDynamicFilter x)
      → Waits f.merge_mode f.merged
      → Waits f.merge_mode (merge x sealed f).1.merged
  unfolding merge
  merge-Waits sealed f h =
      elim (previous_complete x f.merged)
        as (λ b.
          Waits f.merge_mode
            (if b then (false, f) else merge_mode_in x f.merge_mode sealed f).1.merged) [
              | true ↦ h
              | false ↦ merge_mode_in-Waits f.merge_mode sealed f h
            ]

  merge_reports_kept :
      (mode : DynamicFilterMergePolicy) (complete : Bool) (rs : List (TaskKey × Report x))
      (f : PlannedDynamicFilter x)
      → (merge_reports x mode complete rs f).1.merge_mode ≡ f.merge_mode
  unfolding merge_reports
  merge_reports_kept mode complete [] f = refl
  merge_reports_kept mode complete (r ∷ rs) f = ground arith

  merge_mode_in_kept :
      (mode : Option DynamicFilterMergePolicy) (sealed : List ℕ) (f : PlannedDynamicFilter x)
      → (merge_mode_in x mode sealed f).1.merge_mode ≡ f.merge_mode
  unfolding merge_mode_in
  merge_mode_in_kept none sealed f = refl
  merge_mode_in_kept (some mode) sealed f =
      let c = is_forward mode || all_complete x sealed f in
      let rs = sort_reports x (reported x f.producers) in
      let k = merge_reports_kept mode c (if is_forward mode then first_only x rs else rs) f in
      elim (is_union mode && not (all_complete x sealed f))
        as (λ b.
          (if b
            then (false, f)
            else merge_reports x mode c (if is_forward mode then first_only x rs else rs)
                f).1.merge_mode
          ≡ f.merge_mode) [ true ↦ refl | false ↦ k ]

  pub merge_mode_kept :
      (sealed : List ℕ) (f : PlannedDynamicFilter x)
      → (merge x sealed f).1.merge_mode ≡ f.merge_mode
  unfolding merge
  merge_mode_kept sealed f =
      elim (previous_complete x f.merged)
        as (λ b.
          (if b then (false, f) else merge_mode_in x f.merge_mode sealed f).1.merge_mode
          ≡ f.merge_mode) [ true ↦ refl | false ↦ merge_mode_in_kept f.merge_mode sealed f ]

  abbrev pub Coherent : PlannedDynamicFilter x → Type 0
  Coherent f = Waits f.merge_mode f.merged

  pub merge-Coherent :
      (sealed : List ℕ) (f : PlannedDynamicFilter x) → Coherent f → Coherent (merge x sealed f).1
  merge-Coherent sealed f h =
      subst (λ m. Waits m (merge x sealed f).1.merged) (sym (merge_mode_kept sealed f))
        (merge-Waits sealed f h)

  accept-Coherent :
      (sealed : List ℕ) (k : TaskKey) (d : Report x) (o : Option (Option (Report x)))
      (f : PlannedDynamicFilter x)
      → Coherent f
      → Coherent (kept_on_update x f (accept x sealed f k d o))
  unfolding accept kept_on_update
  accept-Coherent sealed k d none f h = h
  accept-Coherent sealed k d (some previous) f h =
      let g = record f { producers = replace x k d f.producers } in
      elim ((not (is_intersect x f.merge_mode) && not d.is_complete) || superseded x previous d)
        as (λ b.
          Coherent (kept_on_update x f (if b then ok (false, f) else ok (merge x sealed g)))) [
            | true ↦ h
            | false ↦ merge-Coherent sealed g h
          ]

  pub record-Coherent :
      (sealed : List ℕ) (k : TaskKey) (d : Report x) (f : PlannedDynamicFilter x)
      → Coherent f
      → Coherent (kept_on_update x f (record_dynamic_filter_update x sealed k d f))
  unfolding record_dynamic_filter_update kept_on_update
  record-Coherent sealed k d f h =
      elim d.inner_expr
        as (λ o. Coherent (
          kept_on_update x f (elim o [
            | none ↦ err missing_inner_expression
            | some e ↦ accept x sealed f k d (lookup x k f.producers)
          ]))) [ none ↦ h | some e ↦ accept-Coherent sealed k d (lookup x k f.producers) f h ]

  new_mode-Waits :
      (mode : DynamicFilterMergePolicy) (o : Option (Report x)) → Waits none o → Waits (some mode) o
  unfolding Waits partial
  new_mode-Waits union_when_all_complete o h = ap partial h
  new_mode-Waits forward_first_complete o h = tt
  new_mode-Waits intersect_on_update o h = tt

  pub register-Coherent :
      (k : TaskKey) (mode : DynamicFilterMergePolicy) (f : PlannedDynamicFilter x)
      → Coherent f
      → Coherent (kept_on_error x f (register_producer x k mode f))
  unfolding register_producer kept_on_error
  register-Coherent k mode f h =
      let es = enter x k f.producers in
      (elim f.merge_mode
          as (λ o.
            Waits o f.merged
            → Coherent (
                kept_on_error x f (elim o [
                  | none ↦ ok (record f { producers = es; merge_mode = some mode })
                  | some existing ↦
                      if same_mode x existing mode
                      then ok (record f { producers = es })
                      else err conflicting_merge_modes
                ]))) [
                  | none ↦ λ w. new_mode-Waits mode f.merged w
                  | some existing ↦ λ w.
                      elim (same_mode x existing mode)
                        as (λ b. Coherent (
                          kept_on_error x f (
                            if b
                            then ok (record f { producers = es })
                            else err conflicting_merge_modes))) [ true ↦ h | false ↦ h ]
                ])
        h

  pub step-Coherent :
      (c : Call x) (s : FilterState x) → Coherent s.filter → Coherent (step x c s).filter
  unfolding step seal_stage
  step-Coherent (registers k mode) s h = register-Coherent k mode s.filter h
  step-Coherent (seals stage) s h = merge-Coherent (stage ∷ s.sealed_stages) s.filter h
  step-Coherent (updates k d) s h = record-Coherent s.sealed_stages k d s.filter h

  pub run-Coherent :
      (s : FilterState x) (cs : List (Call x)) → Coherent s.filter → Coherent (run x s cs).filter
  unfolding run
  run-Coherent s [] h = h
  run-Coherent s (c ∷ cs) h = run-Coherent (step x c s) cs (step-Coherent c s h)
