-- ===== src/Planner/Stages.antt =====
-- What the planner's stages keep: `Uniform` says that the nodes of a stage carry the count of their
-- stage, and that the stages below it are settled.
mod Given
pub mod Propagated
pub mod Injected
use datafusion_distributed.Prelude.{ℕ, ◌≤◌, ◌<◌, ◌≡◌, Bool, true, false, Option, Result, ok}
use datafusion_distributed.TaskCount.{TaskCountRestriction, exact, get_min}
use datafusion_distributed.TaskCount.Annotation.{as_usize}
use datafusion_distributed.Planner.{
  Base, Session, Count, Operator, Plan, node, Plans, nil, cons, Staged, placed, boundary, Stageds,
  none, more, as_union,
}
use datafusion_distributed.Planner.Inject.{max_tasks}

abbrev pub Within : Option ℕ → ℕ → Type 0
Within Option.none m = Unit
Within (Option.some lo) m = lo ≤ m

module _ (b : Base) (s : Session b) where
  open b use {f}

  -- A count that keeps to the configured number of tasks.
  pub record Capped (t : Count b) : Type 0 where
    pub most : ℕ
    pub most_is : max_tasks b s ≡ ok most
    pub required : Within (get_min t.restriction) most
    pub estimate : f.F
    pub soft_is : t.soft ≡ f.min estimate (f.of_usize most)

  abbrev pub exactly : f.F → ℕ → Count b
  exactly soft n = record { soft = soft; restriction = exact n }

  unfoldable pub is_union : Operator b → Bool
  unfolding as_union
  is_union op = elim (as_union b op) [ Option.none ↦ false | Option.some n ↦ true ]

  unfoldable mutual
    unfolding is_union

    -- A stage: it runs as many tasks as its count says.
    pub Settled : ℕ → Staged b → Type 0
    Settled tasks (placed op d t cs) = (tasks ≡ as_usize f t) × Capped t × Below t (is_union op) cs
    Settled tasks (boundary nb t n input) = (tasks ≡ as_usize f t) × Capped t × Settled n input

    pub Uniform : Count b → Staged b → Type 0
    Uniform t (placed op d u cs) = (u ≡ t) × Below t (is_union op) cs
    Uniform t (boundary nb u tasks input) = (u ≡ t) × Settled tasks input

    -- The children of a union have counts of their own.
    pub Below : Count b → (isolates : Bool) → Stageds b → Type 0
    Below t isolates none = Unit
    Below t true (more c cs) = ((n : ℕ) × (0 < n) × Uniform (exactly t.soft n) c) × Below t true cs
    Below t false (more c cs) = Uniform t c × Below t false cs

  -- The stages below the boundaries of a plan are settled.
  unfoldable mutual
    unfolding Settled

    pub Sealed : Staged b → Type 0
    Sealed (placed op d t cs) = AllSealed cs
    Sealed (boundary nb t tasks input) = Settled tasks input

    pub AllSealed : Stageds b → Type 0
    AllSealed none = Unit
    AllSealed (more c cs) = Sealed c × AllSealed cs

  -- A plan without unions.
  unfoldable mutual
    unfolding is_union

    pub Plain : Plan b → Type 0
    Plain (node op d ps) = (is_union op ≡ false) × AllPlain ps

    pub AllPlain : Plans b → Type 0
    AllPlain nil = Unit
    AllPlain (cons p ps) = Plain p × AllPlain ps
