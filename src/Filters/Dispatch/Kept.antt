-- ===== src/Filters/Dispatch/Kept.antt =====
-- What a merge and an update leave of a dynamic filter: its mode, the tasks that produce it, and the
-- merged filter where nothing changes (src/coordinator/dynamic_filter_registry.rs).
use datafusion_distributed.Prelude.{
  ok_inj, ℕ, ◌≡◌, refl, ap, subst, ◌∙◌, Bool, false, not, ◌&&◌, ◌||◌, List, [], ◌∷◌, Option, none,
  some, Result, ok, err, if◌then◌else◌, arith, if-elim,
}
use datafusion_distributed.Filters.Merge.{
  DynamicFilterMergePolicy, TaskKey, Expressions, Report, PlannedDynamicFilter, is_union,
  is_forward, all_complete, reported, sort_reports, first_only, previous_complete, merge_reports,
  merge_mode_in, merge,
}
use datafusion_distributed.Filters.Updates.{
  UpdateError, missing_inner_expression, lookup, replace, enter, superseded, is_intersect, accept,
  record_dynamic_filter_update,
}
use datafusion_distributed.Filters.Coherence.{merge_mode_kept}
use datafusion_distributed.Filters.Dispatch.{contains_key, is_some}

module _ (x : Expressions) where
  -- `m` is `f` after a step that says whether it has changed what is merged.
  abbrev pub Keeps : PlannedDynamicFilter x → Bool × PlannedDynamicFilter x → Type 0
  Keeps f m =
      (m.1.merge_mode ≡ f.merge_mode)
      × ((k : TaskKey) → contains_key x k m.1.producers ≡ contains_key x k f.producers)
      × (m.0 ≡ false → m.1.merged ≡ f.merged)

  -- the producers stay, and what is merged if nothing has changed
  abbrev Stays : PlannedDynamicFilter x → Bool × PlannedDynamicFilter x → Type 0
  Stays f m = (m.1.producers ≡ f.producers) × (m.0 ≡ false → m.1.merged ≡ f.merged)

  merge_reports-Stays :
      (mode : DynamicFilterMergePolicy) (complete : Bool) (rs : List (TaskKey × Report x))
      (f : PlannedDynamicFilter x)
      → Stays f (merge_reports x mode complete rs f)
  unfolding merge_reports
  merge_reports-Stays mode complete [] f = (refl, λ e. refl)
  merge_reports-Stays mode complete (r ∷ rs) f = (ground arith, λ e. ground (arith, e))

  merge_mode_in-Stays :
      (mode : Option DynamicFilterMergePolicy) (sealed : List ℕ) (f : PlannedDynamicFilter x)
      → Stays f (merge_mode_in x mode sealed f)
  unfolding merge_mode_in
  merge_mode_in-Stays none sealed f = (refl, λ e. refl)
  merge_mode_in-Stays (some mode) sealed f =
      let c = is_forward mode || all_complete x sealed f in
      let rs = sort_reports x (reported x f.producers) in
      let merged = merge_reports x mode c (if is_forward mode then first_only x rs else rs) f in
      if-elim (Stays f) (is_union mode && not (all_complete x sealed f)) {x = (false, f)}
        {y = merged} (refl, λ e. refl)
        (merge_reports-Stays mode c (if is_forward mode then first_only x rs else rs) f)

  merge-Stays : (sealed : List ℕ) (f : PlannedDynamicFilter x) → Stays f (merge x sealed f)
  unfolding merge
  merge-Stays sealed f =
      if-elim (Stays f) (previous_complete x f.merged) {x = (false, f)}
        {y = merge_mode_in x f.merge_mode sealed f} (refl, λ e. refl)
        (merge_mode_in-Stays f.merge_mode sealed f)

  pub merge-Keeps : (sealed : List ℕ) (f : PlannedDynamicFilter x) → Keeps f (merge x sealed f)
  merge-Keeps sealed f = (
    merge_mode_kept x sealed f,
    λ k. ap (contains_key x k) (merge-Stays sealed f).0,
    (merge-Stays sealed f).1,
  )

  contains_key-replace :
      (j k : TaskKey) (d : Report x) (ps : List (TaskKey × Option (Report x)))
      → contains_key x j (replace x k d ps) ≡ contains_key x j ps
  unfolding contains_key is_some lookup replace
  contains_key-replace j k d [] = refl
  contains_key-replace j k d ((i, o) ∷ ps) = ground (arith, contains_key-replace j k d ps)

  -- A task that is no producer after another has been entered was none before.
  pub contains_key-enter :
      (j k : TaskKey) (ps : List (TaskKey × Option (Report x)))
      → contains_key x j (enter x k ps) ≡ false
      → contains_key x j ps ≡ false
  unfolding contains_key is_some lookup enter
  contains_key-enter j k [] h = refl
  contains_key-enter j k ((i, o) ∷ ps) h = ground (arith, h, contains_key-enter j k ps)

  accept-Keeps :
      (sealed : List ℕ) (k : TaskKey) (d : Report x) (o : Option (Option (Report x)))
      (f : PlannedDynamicFilter x) (m : Bool × PlannedDynamicFilter x)
      → accept x sealed f k d o ≡ ok m
      → Keeps f m
  unfolding accept
  accept-Keeps sealed k d none f m = λ e. absurd (ground (arith, e))
  accept-Keeps sealed k d (some previous) f m =
      let g = record f { producers = replace x k d f.producers } in
      if-elim (λ (r : Result UpdateError (Bool × PlannedDynamicFilter x)). r ≡ ok m → Keeps f m)
        ((not (is_intersect x f.merge_mode) && not d.is_complete) || superseded x previous d)
        {x = ok (false, f)} {y = ok (merge x sealed g)}
        (λ e. subst (Keeps f) (ok_inj e) (refl, λ j. refl, λ u. refl))
        (λ e. subst (Keeps f) (ok_inj e) (
          (merge-Keeps sealed g).0,
          λ j. (merge-Keeps sealed g).1 j ∙ contains_key-replace j k d f.producers,
          (merge-Keeps sealed g).2,
        ))

  pub record-Keeps :
      (sealed : List ℕ) (k : TaskKey) (d : Report x) (f : PlannedDynamicFilter x)
      (m : Bool × PlannedDynamicFilter x)
      → record_dynamic_filter_update x sealed k d f ≡ ok m
      → Keeps f m
  unfolding record_dynamic_filter_update
  record-Keeps sealed k d f m =
      elim d.inner_expr
        as (λ o.
          (elim o as (λ _. Result UpdateError (Bool × PlannedDynamicFilter x)) [
            | none ↦ err missing_inner_expression
            | some e ↦ accept x sealed f k d (lookup x k f.producers)
          ])
            ≡ ok m
          → Keeps f m) [
            | none ↦ λ e. absurd (ground (arith, e))
            | some v ↦ accept-Keeps sealed k d (lookup x k f.producers) f m
          ]
