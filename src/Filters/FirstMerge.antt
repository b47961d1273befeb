-- ===== src/Filters/FirstMerge.antt =====
-- The first merge of a dynamic filter that waits for all its producers:
-- src/coordinator/dynamic_filter_registry.rs.
use datafusion_distributed.Prelude.{
  ◌≡◌, refl, ap, sym, subst, ◌∙◌, Bool, true, false, not, ◌&&◌, ◌||◌, List, [], ◌∷◌, Option, none,
  some, if◌then◌else◌, arith, ok, err, ℕ, inl, inr, Bool-cases, Option-cases, if-elim,
}
use datafusion_distributed.Filters.Merge.{
  DynamicFilterMergePolicy, union_when_all_complete, TaskKey, Expressions, is_forward, is_union,
  Report, PlannedDynamicFilter, all_complete, reported, sort_reports, previous_complete,
  merge_reports, merge_mode_in, merge,
}
use datafusion_distributed.Filters.Updates.{
  missing_inner_expression, accept, record_dynamic_filter_update, lookup, replace, superseded,
  is_intersect, register_producer, FilterState, seal_stage, Call, registers, seals, updates,
  kept_on_error, kept_on_update, step,
}
use datafusion_distributed.Filters.Completion.{Completed, all_complete-Completed}
use datafusion_distributed.Filters.Coherence.{merge_mode_kept}

module _ (x : Expressions) where
  open x use {Node}

  merge_reports-producers :
      (mode : DynamicFilterMergePolicy) (complete : Bool) (rs : List (TaskKey × Report x))
      (f : PlannedDynamicFilter x)
      → (merge_reports x mode complete rs f).1.producers ≡ f.producers
  unfolding merge_reports
  merge_reports-producers mode complete [] f = refl
  merge_reports-producers mode complete (r ∷ rs) f = ground arith

  union-producers :
      (sealed : List ℕ) (f : PlannedDynamicFilter x)
      → (merge_mode_in x (some union_when_all_complete) sealed f).1.producers ≡ f.producers
  unfolding merge_mode_in is_union is_forward
  union-producers sealed f =
      let c = all_complete x sealed f in
      let rs = sort_reports x (reported x f.producers) in
      if-elim (λ (r : Bool × PlannedDynamicFilter x). r.1.producers ≡ f.producers) (not c) refl
        (merge_reports-producers union_when_all_complete c rs f)

  -- A filter that waits for all is merged only when all are complete.
  union_complete :
      (sealed : List ℕ) (f : PlannedDynamicFilter x) (m : Report x)
      → f.merged ≡ none
      → (merge_mode_in x (some union_when_all_complete) sealed f).1.merged ≡ some m
      → all_complete x sealed f ≡ true
  unfolding merge_mode_in is_union is_forward
  union_complete sealed f m e h = elim (Bool-cases (all_complete x sealed f)) [
    | inl q ↦ q
    | inr q ↦ absurd (ground (arith, e, h, q))
  ]

  -- If a filter that waits for all has been merged, its producers are complete.
  abbrev pub MergedCompleted : List ℕ → PlannedDynamicFilter x → Type 0
  MergedCompleted sealed f =
      (m : Report x)
      → f.merge_mode ≡ some union_when_all_complete
      → f.merged ≡ some m
      → Completed x sealed f.producers

  unmerged-MergedCompleted :
      (sealed : List ℕ) (f : PlannedDynamicFilter x) → f.merged ≡ none → MergedCompleted sealed f
  unmerged-MergedCompleted sealed f e m u h = absurd (ground (arith, e, h))

  merge_mode_in-Completed :
      (mode : Option DynamicFilterMergePolicy) (sealed : List ℕ) (f : PlannedDynamicFilter x)
      (m : Report x)
      → f.merged ≡ none
      → mode ≡ some union_when_all_complete
      → (merge_mode_in x mode sealed f).1.merged ≡ some m
      → Completed x sealed (merge_mode_in x mode sealed f).1.producers
  merge_mode_in-Completed mode sealed f m e u h =
      let k = subst (λ o. (merge_mode_in x o sealed f).1.merged ≡ some m) u h in
      subst (λ o. Completed x sealed (merge_mode_in x o sealed f).1.producers) (sym u)
        (subst (Completed x sealed) (sym (union-producers sealed f))
          ((all_complete-Completed x sealed f).0 (union_complete sealed f m e k)))

  merge-MergedCompleted :
      (sealed : List ℕ) (f : PlannedDynamicFilter x)
      → f.merged ≡ none
      → MergedCompleted sealed (merge x sealed f).1
  merge-MergedCompleted sealed f e m u h =
      let same : merge x sealed f ≡ merge_mode_in x f.merge_mode sealed f =
        unfold merge in unfold previous_complete in rw e refl in
      subst (λ (r : Bool × PlannedDynamicFilter x). Completed x sealed r.1.producers) (sym same)
        (merge_mode_in-Completed f.merge_mode sealed f m e (sym (merge_mode_kept x sealed f) ∙ u)
          (sym (ap (λ r. r.1.merged) same) ∙ h))

  accept-MergedCompleted :
      (sealed : List ℕ) (k : TaskKey) (d : Report x) (o : Option (Option (Report x)))
      (f : PlannedDynamicFilter x)
      → f.merged ≡ none
      → MergedCompleted sealed (kept_on_update x f (accept x sealed f k d o))
  unfolding accept kept_on_update
  accept-MergedCompleted sealed k d none f e = unmerged-MergedCompleted sealed f e
  accept-MergedCompleted sealed k d (some previous) f e =
      let g = record f { producers = replace x k d f.producers } in
      elim ((not (is_intersect x f.merge_mode) && not d.is_complete) || superseded x previous d)
        as (λ b.
          MergedCompleted sealed
            (kept_on_update x f (if b then ok (false, f) else ok (merge x sealed g)))) [
              | true ↦ unmerged-MergedCompleted sealed f e
              | false ↦ merge-MergedCompleted sealed g e
            ]

  record-MergedCompleted :
      (sealed : List ℕ) (k : TaskKey) (d : Report x) (f : PlannedDynamicFilter x)
      → f.merged ≡ none
      → MergedCompleted sealed (kept_on_update x f (record_dynamic_filter_update x sealed k d f))
  unfolding record_dynamic_filter_update kept_on_update
  record-MergedCompleted sealed k d f e =
      elim d.inner_expr
        as (λ o. MergedCompleted sealed (
          kept_on_update x f (elim o [
            | none ↦ err missing_inner_expression
            | some i ↦ accept x sealed f k d (lookup x k f.producers)
          ]))) [
            | none ↦ unmerged-MergedCompleted sealed f e
            | some i ↦ accept-MergedCompleted sealed k d (lookup x k f.producers) f e
          ]

  register_kept :
      (k : TaskKey) (mode : DynamicFilterMergePolicy) (f : PlannedDynamicFilter x)
      → (kept_on_error x f (register_producer x k mode f)).merged ≡ f.merged
  unfolding register_producer kept_on_error
  register_kept k mode f = ground (arith, Option-cases f.merge_mode)

  -- The call that merges a filter for the first time.
  pub step-MergedCompleted :
      (c : Call x) (s : FilterState x)
      → s.filter.merged ≡ none
      → MergedCompleted (step x c s).sealed_stages (step x c s).filter
  unfolding step seal_stage
  step-MergedCompleted (registers k mode) s e =
      unmerged-MergedCompleted s.sealed_stages _ (register_kept k mode s.filter ∙ e)
  step-MergedCompleted (seals stage) s e =
      merge-MergedCompleted (stage ∷ s.sealed_stages) s.filter e
  step-MergedCompleted (updates k d) s e = record-MergedCompleted s.sealed_stages k d s.filter e
