-- ===== src/Filters/Merged.antt =====
-- What the merged predicate of a dynamic filter means: src/coordinator/dynamic_filter_registry.rs.
use Prim.Native.Nat.{Ordering}
use datafusion_distributed.Prelude.{
  ℕ, ◌≡◌, ◌↔◌, refl, ap, sym, subst, ◌∙◌, Bool, true, false, List, [], ◌∷◌, some, arith,
}
use datafusion_distributed.Filters.Merge.{
  DynamicFilterMergePolicy, union_when_all_complete, forward_first_complete, intersect_on_update,
  TaskKey, Expressions, any, all, is_forward, compare_keys, Report, PlannedDynamicFilter,
  merge_predicates, all_complete, reported, insert_report, sort_reports, predicates,
  next_generation, merge_reports, merge_mode_in, merge,
}
use datafusion_distributed.Filters.Completion.{Completed, all_complete-Completed}

module _ (x : Expressions) where
  open x use {Node, Row, and_node, or_node, same, holds}

  -- A chain of operands means what its operator says.
  abbrev pub Evaluates : Type 0
  Evaluates =
      ((row : Row) (es : List Node) → holds row (and_node es) ≡ all (holds row) es)
      × ((row : Row) (es : List Node) → holds row (or_node es) ≡ any (holds row) es)

  -- The meaning of merged reports: some of the predicates hold, or all of them.
  unfoldable pub means : DynamicFilterMergePolicy → Row → List Node → Bool
  means union_when_all_complete row es = any (holds row) es
  means forward_first_complete row es = any (holds row) es
  means intersect_on_update row es = all (holds row) es

  some_inj : (a b : Node) → some a ≡ some b → a ≡ b
  some_inj a b e = ground (arith, e)

  means-merge_predicates :
      (mode : DynamicFilterMergePolicy) (row : Row) (es : List Node) (e : Node)
      → Evaluates
      → merge_predicates x es mode ≡ some e
      → holds row e ≡ means mode row es
  unfolding merge_predicates means any all
  means-merge_predicates mode row [] e v h = ground (arith, h)
  means-merge_predicates union_when_all_complete row (p ∷ []) e v h = ground (arith, h)
  means-merge_predicates forward_first_complete row (p ∷ []) e v h = ground (arith, h)
  means-merge_predicates intersect_on_update row (p ∷ []) e v h = ground (arith, h)
  means-merge_predicates union_when_all_complete row (p ∷ q ∷ ps) e v h =
      ap (holds row) (sym (some_inj _ e h)) ∙ v.1 row (p ∷ q ∷ ps)
  means-merge_predicates forward_first_complete row (p ∷ q ∷ ps) e v h =
      ap (holds row) (sym (some_inj _ e h)) ∙ v.1 row (p ∷ q ∷ ps)
  means-merge_predicates intersect_on_update row (p ∷ q ∷ ps) e v h =
      ap (holds row) (sym (some_inj _ e h)) ∙ v.0 row (p ∷ q ∷ ps)

  -- The order of the reports does not matter.
  means-cons :
      (mode : DynamicFilterMergePolicy) (row : Row) (a : TaskKey × Report x)
      (rs ss : List (TaskKey × Report x))
      → means mode row (predicates x rs) ≡ means mode row (predicates x ss)
      → means mode row (predicates x (a ∷ rs)) ≡ means mode row (predicates x (a ∷ ss))
  unfolding means predicates any all
  means-cons union_when_all_complete row (k, r) rs ss h = ground (arith, h)
  means-cons forward_first_complete row (k, r) rs ss h = ground (arith, h)
  means-cons intersect_on_update row (k, r) rs ss h = ground (arith, h)

  means-swap :
      (mode : DynamicFilterMergePolicy) (row : Row) (a b : TaskKey × Report x)
      (rs : List (TaskKey × Report x))
      → means mode row (predicates x (a ∷ b ∷ rs)) ≡ means mode row (predicates x (b ∷ a ∷ rs))
  unfolding means predicates any all
  means-swap union_when_all_complete row (k, r) (j, s) rs = ground arith
  means-swap forward_first_complete row (k, r) (j, s) rs = ground arith
  means-swap intersect_on_update row (k, r) (j, s) rs = ground arith

  means-insert_report :
      (mode : DynamicFilterMergePolicy) (row : Row) (a : TaskKey × Report x)
      (rs : List (TaskKey × Report x))
      → means mode row (predicates x (insert_report x a rs))
        ≡ means mode row (predicates x (a ∷ rs))
  unfolding insert_report
  means-insert_report mode row a [] = refl
  means-insert_report mode row a (b ∷ rs) =
      elim (compare_keys a.0 b.0)
        as (λ o.
          means mode row
            (predicates x (elim o [ Ordering.gt ↦ b ∷ insert_report x a rs | _ ↦ a ∷ b ∷ rs ]))
          ≡ means mode row (predicates x (a ∷ b ∷ rs))) [
            | Ordering.gt ↦
                means-cons mode row b (insert_report x a rs) (a ∷ rs)
                  (means-insert_report mode row a rs)
                ∙ means-swap mode row b a rs
            | _ ↦ refl
          ]

  means-sort_reports :
      (mode : DynamicFilterMergePolicy) (row : Row) (rs : List (TaskKey × Report x))
      → means mode row (predicates x (sort_reports x rs)) ≡ means mode row (predicates x rs)
  unfolding sort_reports
  means-sort_reports mode row [] = refl
  means-sort_reports mode row (a ∷ rs) =
      means-insert_report mode row a (sort_reports x rs)
      ∙ means-cons mode row a (sort_reports x rs) rs (means-sort_reports mode row rs)

  merged_of :
      (mode : DynamicFilterMergePolicy) (complete : Bool) (rs : List (TaskKey × Report x))
      (f g : PlannedDynamicFilter x)
      → merge_reports x mode complete rs f ≡ (true, g)
      → g.merged
        ≡ some (record {
          inner_expr = merge_predicates x (predicates x rs) mode;
          is_complete = complete;
          generation = next_generation x f.merged;
        })
  unfolding merge_reports
  merged_of mode complete [] f g h = ground (arith, h)
  merged_of mode complete (r ∷ rs) f g h = ground (arith, h)

  merge_parts :
      (sealed : List ℕ) (f g : PlannedDynamicFilter x) (mode : DynamicFilterMergePolicy)
      → f.merge_mode ≡ some mode
      → is_forward mode ≡ false
      → merge x sealed f ≡ (true, g)
      → merge_reports x mode (all_complete x sealed f) (sort_reports x (reported x f.producers)) f
        ≡ (true, g)
  unfolding merge merge_mode_in
  merge_parts sealed f g mode e n h = ground (arith, e, n, h)

  -- When a merge that does not just forward changes a filter, the merged predicate holds on a row
  -- where some of the reported predicates do, or for intersected updates where all of them do,
  -- whatever the order of the reports; and the filter is complete just if it has producers and each
  -- is a task of a sealed stage and has sent a complete report. The evaluation of a chain of operands
  -- is assumed.
  pub merged_means :
      (sealed : List ℕ) (f g : PlannedDynamicFilter x) (mode : DynamicFilterMergePolicy)
      (m : Report x) (e : Node) (row : Row)
      → Evaluates
      → f.merge_mode ≡ some mode
      → is_forward mode ≡ false
      → merge x sealed f ≡ (true, g)
      → g.merged ≡ some m
      → m.inner_expr ≡ some e
      → ((m.is_complete ≡ true) ↔ Completed x sealed f.producers)
        × (holds row e ≡ means mode row (predicates x (reported x f.producers)))
  merged_means sealed f g mode m e row v em n h gm me =
      let rs = sort_reports x (reported x f.producers) in
      let is =
        sym gm
        ∙ merged_of mode (all_complete x sealed f) rs f g (merge_parts sealed f g mode em n h) in
      let same_report = report_inj m _ is in
      (
        subst (λ b. (b ≡ true) ↔ Completed x sealed f.producers)
            (sym (ap (λ r. r.is_complete) same_report)) (all_complete-Completed x sealed f),
        means-merge_predicates mode row (predicates x rs) e v
              (sym (ap (λ r. r.inner_expr) same_report) ∙ me)
            ∙ means-sort_reports mode row (reported x f.producers),
      )
    where
      report_inj : (a b : Report x) → some a ≡ some b → a ≡ b
      report_inj a b e = ground (arith, e)
