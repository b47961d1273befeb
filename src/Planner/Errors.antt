-- ===== src/Planner/Errors.antt =====
-- Which errors the planner can return, and the counts that keep it from the others.
pub mod Counts
mod Allocated
mod Rebuilt
pub mod Propagated
pub mod Injected
use datafusion_distributed.Prelude.{ℕ, suc, ◌≡◌, Option, length}
use datafusion_distributed.TaskCount.{IsValid}
use datafusion_distributed.Union.Node.{ChildrenIsolatorUnionExec}
use datafusion_distributed.Union.Node.Failures.{IsUnionChildError, IsBuilt}
use datafusion_distributed.Planner.{
  Base, Count, Operator, Plan, node, Plans, nil, cons, Staged, placed, boundary, Stageds, none,
  more, as_union, PlannerError, library, merge_error, union_error, above_max_tasks, zero_allocation,
  coalesce_not_exact,
}

-- The errors of what the planner calls, of counts that cannot be merged or exceed what there is, and
-- of the restriction or the estimate of a child of a union; the others report a fault of the planner.
unfoldable pub IsExpected : {E : Type 0} → PlannerError E → Type 0
IsExpected (library e) = Unit
IsExpected (merge_error e) = Unit
IsExpected (above_max_tasks required available) = Unit
IsExpected (union_error e) = IsUnionChildError e
IsExpected zero_allocation = ⊥
IsExpected coalesce_not_exact = ⊥

module _ (b : Base) where
  abbrev pub IsValidCount : Count b → Type 0
  IsValidCount t = IsValid t.restriction

  -- The counts of a stage and of the boundaries below it are valid.
  unfoldable mutual
    pub Valid : Staged b → Type 0
    Valid (placed op d t cs) = IsValidCount t × AllValid cs
    Valid (boundary nb t n input) = IsValidCount t

    pub AllValid : Stageds b → Type 0
    AllValid none = Unit
    AllValid (more c cs) = Valid c × AllValid cs

  abbrev pub size : Plans b → ℕ
  size nil = 0
  size (cons p ps) = suc (size ps)

  -- A union was built over so many children.
  unfoldable pub BuiltOver : Option (ChildrenIsolatorUnionExec b.f) → ℕ → Type 0
  BuiltOver Option.none k = Unit
  BuiltOver (Option.some n) k = IsBuilt b.f n × (length n.children ≡ k)

  -- Each union in the given plan was built by `from_children_and_annotations`, over its children.
  unfoldable mutual
    pub UnionsBuilt : Plan b → Type 0
    UnionsBuilt (node op d ps) = BuiltOver (as_union b op) (size ps) × AllUnionsBuilt ps

    pub AllUnionsBuilt : Plans b → Type 0
    AllUnionsBuilt nil = Unit
    AllUnionsBuilt (cons p ps) = UnionsBuilt p × AllUnionsBuilt ps
