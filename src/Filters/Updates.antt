-- ===== src/Filters/Updates.antt =====
-- Registrations, seals and updates of a dynamic filter:
-- src/coordinator/dynamic_filter_registry.rs.
use datafusion_distributed.Prelude.{
  ℕ, Bool, true, false, not, ◌&&◌, ◌||◌, List, [], ◌∷◌, Option, none, some, Result, ok, err,
  if◌then◌else◌, ◌==◌,
}
use datafusion_distributed.Filters.Merge.{
  DynamicFilterMergePolicy, union_when_all_complete, forward_first_complete, intersect_on_update,
  TaskKey, Expressions, is_forward, is_union, Report, PlannedDynamicFilter, merge,
}

pub data UpdateError : Type 0 where
  not_a_producer missing_inner_expression conflicting_merge_modes : UpdateError

module _ (x : Expressions) where
  open x use {Node, same}

  unfoldable pub same_key : TaskKey → TaskKey → Bool
  same_key a b = a.stage_id == b.stage_id && a.task_number == b.task_number

  unfoldable pub same_report : Report x → Report x → Bool
  same_report a b =
      same a.inner_expr b.inner_expr
      && (if a.is_complete then b.is_complete else not b.is_complete)
      && a.generation == b.generation

  -- `producers.get_mut(&key)`
  unfoldable pub lookup : TaskKey → List (TaskKey × Option (Report x)) → Option (Option (Report x))
  unfolding same_key
  lookup k [] = none
  lookup k ((j, r) ∷ ps) = let rest = lookup k ps in if same_key j k then some r else rest

  unfoldable pub replace :
      TaskKey → Report x → List (TaskKey × Option (Report x)) → List (TaskKey × Option (Report x))
  unfolding same_key
  replace k r [] = []
  replace k r ((j, o) ∷ ps) =
      let rest = replace k r ps in if same_key j k then (j, some r) ∷ ps else (j, o) ∷ rest

  unfoldable pub is_intersect : Option DynamicFilterMergePolicy → Bool
  is_intersect none = false
  is_intersect (some intersect_on_update) = true
  is_intersect (some union_when_all_complete) = false
  is_intersect (some forward_first_complete) = false

  -- Is an update ignored, given the previous report of its task?
  unfoldable pub superseded : Option (Report x) → Report x → Bool
  unfolding same_report
  superseded none d = false
  superseded (some r) d = r.is_complete || same_report r d

  unfoldable pub accept :
      List ℕ
      → PlannedDynamicFilter x
      → TaskKey
      → Report x
      → Option (Option (Report x))
      → Result UpdateError (Bool × PlannedDynamicFilter x)
  unfolding is_intersect superseded
  accept sealed f k d none = err not_a_producer
  accept sealed f k d (some previous) =
      if (not (is_intersect f.merge_mode) && not d.is_complete) || superseded previous d
      then ok (false, f)
      else ok (merge x sealed (record f { producers = replace k d f.producers }))

  -- `record_dynamic_filter_update` for a dynamic filter that is registered, with what `merge` says
  unfoldable pub record_dynamic_filter_update :
      List ℕ
      → TaskKey
      → Report x
      → PlannedDynamicFilter x
      → Result UpdateError (Bool × PlannedDynamicFilter x)
  unfolding accept
  record_dynamic_filter_update sealed k d f = elim d.inner_expr [
    | none ↦ err missing_inner_expression
    | some e ↦ accept sealed f k d (lookup k f.producers)
  ]

  -- `producers.entry(key).or_insert(None)`
  unfoldable pub enter :
      TaskKey → List (TaskKey × Option (Report x)) → List (TaskKey × Option (Report x))
  unfolding same_key
  enter k [] = (k, none) ∷ []
  enter k ((j, o) ∷ ps) =
      let rest = enter k ps in if same_key j k then (j, o) ∷ ps else (j, o) ∷ rest

  unfoldable pub same_mode : DynamicFilterMergePolicy → DynamicFilterMergePolicy → Bool
  same_mode union_when_all_complete m = is_union m
  same_mode forward_first_complete m = is_forward m
  same_mode intersect_on_update m = is_intersect (some m)

  -- `register_task` for one producer
  unfoldable pub register_producer :
      TaskKey
      → DynamicFilterMergePolicy
      → PlannedDynamicFilter x
      → Result UpdateError (PlannedDynamicFilter x)
  unfolding same_mode is_union is_forward is_intersect
  register_producer k mode f = elim f.merge_mode [
    | none ↦ ok (record f { producers = enter k f.producers; merge_mode = some mode })
    | some existing ↦
        if same_mode existing mode
        then ok (record f { producers = enter k f.producers })
        else err conflicting_merge_modes
  ]

  -- `DynamicFilterRegistryState`, for one filter
  pub record FilterState : Type 0 where
    pub filter : PlannedDynamicFilter x
    pub sealed_stages : List ℕ

  unfoldable pub seal_stage : ℕ → FilterState → FilterState
  seal_stage stage s = record {
    filter = (merge x (stage ∷ s.sealed_stages) s.filter).1;
    sealed_stages = stage ∷ s.sealed_stages;
  }

  pub data Call : Type 0 where
    registers : TaskKey → DynamicFilterMergePolicy → Call
    seals : ℕ → Call
    updates : TaskKey → Report x → Call

  -- an error leaves the filter as it is
  unfoldable pub kept_on_error :
      PlannedDynamicFilter x → Result UpdateError (PlannedDynamicFilter x) → PlannedDynamicFilter x
  kept_on_error f (ok g) = g
  kept_on_error f (err e) = f

  unfoldable pub kept_on_update :
      PlannedDynamicFilter x
      → Result UpdateError (Bool × PlannedDynamicFilter x)
      → PlannedDynamicFilter x
  kept_on_update f (ok g) = g.1
  kept_on_update f (err e) = f

  unfoldable pub step : Call → FilterState → FilterState
  unfolding kept_on_error kept_on_update
  step (registers k mode) s = record s {
    filter = kept_on_error s.filter (register_producer k mode s.filter);
  }
  step (seals stage) s = seal_stage stage s
  step (updates k d) s = record s {
    filter = kept_on_update s.filter (record_dynamic_filter_update s.sealed_stages k d s.filter);
  }

  unfoldable pub run : FilterState → List Call → FilterState
  run s [] = s
  run s (c ∷ cs) = run (step c s) cs

  abbrev pub unregistered : FilterState
  unregistered = record {
    filter = record { producers = []; merge_mode = none; merged = none };
    sealed_stages = [];
  }
