-- ===== src/Union/Split.antt =====
-- `split_children`: step 1 validates the children, and the later steps cannot fail.
pub mod Complete
pub mod Failures
use datafusion_distributed.Prelude.{
  ℕ, suc, not, List, [], ◌∷◌, Option, Result, ok, err, ◌>>=◌, ◌>>◌, if◌then◌else◌, ltb, ◌==◌,
  length,
}
use datafusion_distributed.Prelude.Float.{Float}
use datafusion_distributed.TaskCount.{TaskCountRestriction, exact, get_min}
use datafusion_distributed.TaskCount.Annotation.{TaskCountAnnotation}
use datafusion_distributed.Union.Slots.{Entry, assign}
use datafusion_distributed.Union.Counts.{child_task_counts}

pub data SplitError : Type 0 where
  no_budget no_children : SplitError
  exact_over_budget min_over_budget : (child required : ℕ) → SplitError
  negative_estimate infinite_estimate : (child : ℕ) → SplitError

-- Step 1 for one restriction: the counts that must fit the budget.
unfoldable pub check_minimum : ℕ → ℕ → Option ℕ → Result SplitError (Unit {0})
check_minimum i budget (Option.some lo) =
    if ltb budget lo then err (min_over_budget i lo) else ok tt
check_minimum i budget Option.none = ok tt

unfoldable pub check_restriction : ℕ → ℕ → TaskCountRestriction → Result SplitError (Unit {0})
unfolding check_minimum get_min
check_restriction i budget (exact e) =
    if ltb budget e then err (exact_over_budget i e) else check_minimum i budget (get_min (exact e))
check_restriction i budget TaskCountRestriction.none =
    check_minimum i budget (get_min TaskCountRestriction.none)
check_restriction i budget (TaskCountRestriction.min lo) =
    check_minimum i budget (get_min (TaskCountRestriction.min lo))
check_restriction i budget (TaskCountRestriction.max hi) =
    check_minimum i budget (get_min (TaskCountRestriction.max hi))
check_restriction i budget (TaskCountRestriction.range lo hi) =
    check_minimum i budget (get_min (TaskCountRestriction.range lo hi))

module _ (f : Float) where
  open f use {F}

  unfoldable pub check_estimate : ℕ → F → Result SplitError (Unit {0})
  check_estimate i soft =
      if f.lt soft f.zero
      then err (negative_estimate i)
      else if not (f.is_finite soft)
      then err (infinite_estimate i)
      else ok tt

  -- The loop of step 1, from index `i` on.
  unfoldable pub check_children :
      ℕ → ℕ → List (TaskCountAnnotation f) → Result SplitError (Unit {0})
  check_children i budget [] = ok tt
  check_children i budget (a ∷ as') = do
    check_restriction i budget a.restriction
    check_estimate i a.soft
    check_children (suc i) budget as'

  unfoldable pub split_children :
      List (TaskCountAnnotation f) → ℕ → Result SplitError (List (List Entry))
  split_children children budget =
      if budget == 0 then err no_budget else if length children == 0 then err no_children else do
        check_children 0 budget children
        ok (assign budget (child_task_counts f children budget))
