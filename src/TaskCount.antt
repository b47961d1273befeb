-- ===== src/TaskCount.antt =====
-- How many tasks a plan node runs on: `TaskCountRestriction` and `TaskCountAnnotation` of
-- src/events/desired_task_count.rs. A `NonZeroUsize` is a number; `IsValid` says that it is positive.
pub mod Merging
pub mod Annotation
mod Examples
use Prim.Native.Nat
use datafusion_distributed.Prelude.{
  ℕ, ◌≤◌, ◌<◌, ◌&&◌, if◌then◌else◌, ltb, leb, ◌==◌, not, Option, Result, ok, err, ◌>>=◌, ◌≡◌,
}

pub data TaskCountRestriction : Type 0 where
  none : TaskCountRestriction
  exact min max : ℕ → TaskCountRestriction
  range : ℕ → ℕ → TaskCountRestriction

-- The messages of the `plan_err!` calls, with the numbers that they print.
pub data MergeError : Type 0 where
  incompatible_exact : ℕ → ℕ → MergeError
  exact_below_min exact_above_max : ℕ → ℕ → MergeError
  exact_outside_range : ℕ → ℕ → ℕ → MergeError
  min_above_max max_below_min : ℕ → ℕ → MergeError
  incompatible_ranges : ℕ → ℕ → ℕ → ℕ → MergeError
  range_inverted : ℕ → ℕ → MergeError

merge_exact_min : ℕ → ℕ → Result MergeError TaskCountRestriction
merge_exact_min e lo = if ltb e lo then err (exact_below_min e lo) else ok (exact e)

merge_exact_max : ℕ → ℕ → Result MergeError TaskCountRestriction
merge_exact_max e hi = if ltb hi e then err (exact_above_max e hi) else ok (exact e)

merge_exact_range : ℕ → ℕ → ℕ → Result MergeError TaskCountRestriction
merge_exact_range e lo hi =
    if not (leb lo e && leb e hi) then err (exact_outside_range e lo hi) else ok (exact e)

-- A range whose ends meet is an exact count.
range_or_exact : ℕ → ℕ → TaskCountRestriction
range_or_exact lo hi = if lo == hi then exact lo else range lo hi

merge_range_min : ℕ → ℕ → ℕ → Result MergeError TaskCountRestriction
unfolding range_or_exact
merge_range_min rmin rmax lo =
    if ltb rmax lo then err (min_above_max lo rmax) else ok (range_or_exact (Nat.max lo rmin) rmax)

merge_range_max : ℕ → ℕ → ℕ → Result MergeError TaskCountRestriction
unfolding range_or_exact
merge_range_max rmin rmax hi =
    if ltb hi rmin then err (max_below_min hi rmin) else ok (range_or_exact rmin (Nat.min hi rmax))

merge_min_max : ℕ → ℕ → Result MergeError TaskCountRestriction
unfolding range_or_exact
merge_min_max lo hi = if ltb hi lo then err (min_above_max lo hi) else ok (range_or_exact lo hi)

merge_ranges : ℕ → ℕ → ℕ → ℕ → Result MergeError TaskCountRestriction
unfolding range_or_exact
merge_ranges amin amax bmin bmax =
    if not (leb amin bmax && leb bmin amax)
    then err (incompatible_ranges amin amax bmin bmax)
    else ok (range_or_exact (Nat.max amin bmin) (Nat.min amax bmax))

-- `TaskCountRestriction::merge`
unfoldable pub merge :
    TaskCountRestriction → TaskCountRestriction → Result MergeError TaskCountRestriction
unfolding merge_exact_min merge_exact_max merge_exact_range merge_range_min merge_range_max
    merge_min_max merge_ranges
merge none r = ok r
merge (exact a) none = ok (exact a)
merge (exact a) (exact b) = if not (a == b) then err (incompatible_exact a b) else ok (exact a)
merge (exact a) (min lo) = merge_exact_min a lo
merge (exact a) (max hi) = merge_exact_max a hi
merge (exact a) (range lo hi) = merge_exact_range a lo hi
merge (min a) none = ok (min a)
merge (min a) (exact e) = merge_exact_min e a
merge (min a) (min b) = ok (min (Nat.max a b))
merge (min a) (max hi) = merge_min_max a hi
merge (min a) (range lo hi) = merge_range_min lo hi a
merge (max a) none = ok (max a)
merge (max a) (exact e) = merge_exact_max e a
merge (max a) (min lo) = merge_min_max lo a
merge (max a) (max b) = ok (max (Nat.min a b))
merge (max a) (range lo hi) = merge_range_max lo hi a
merge (range lo hi) none = ok (range lo hi)
merge (range lo hi) (exact e) = merge_exact_range e lo hi
merge (range lo hi) (min a) = merge_range_min lo hi a
merge (range lo hi) (max a) = merge_range_max lo hi a
merge (range amin amax) (range bmin bmax) = merge_ranges amin amax bmin bmax

-- `TaskCountAnnotation::get_exact`, `get_min` and `get_max`, which read the restriction alone.
pub get_exact : TaskCountRestriction → Option ℕ
get_exact (exact v) = Option.some v
get_exact none = Option.none
get_exact (min lo) = Option.none
get_exact (max hi) = Option.none
get_exact (range lo hi) = Option.none

unfoldable pub get_min : TaskCountRestriction → Option ℕ
get_min (exact lo) = Option.some lo
get_min (min lo) = Option.some lo
get_min (range lo hi) = Option.some lo
get_min none = Option.none
get_min (max hi) = Option.none

unfoldable pub get_max : TaskCountRestriction → Option ℕ
get_max (exact hi) = Option.some hi
get_max (max hi) = Option.some hi
get_max (range lo hi) = Option.some hi
get_max none = Option.none
get_max (min lo) = Option.none

-- The restriction of `TaskCountAnnotation::try_range`.
pub try_range : ℕ → ℕ → Result MergeError TaskCountRestriction
unfolding range_or_exact
try_range lo hi = if ltb hi lo then err (range_inverted lo hi) else ok (range_or_exact lo hi)

-- The restriction's part of `TaskCountAnnotation::as_usize`, from the rounded soft estimate.
unfoldable pub resolve : TaskCountRestriction → ℕ → ℕ
resolve none tasks = tasks
resolve (exact e) tasks = e
resolve (min lo) tasks = Nat.max tasks lo
resolve (max hi) tasks = Nat.min tasks hi
resolve (range lo hi) tasks = Nat.min (Nat.max lo tasks) hi

-- What a restriction demands of a task count.
abbrev pub Admits : TaskCountRestriction → ℕ → Type 0
Admits none n = Unit
Admits (exact e) n = n ≡ e
Admits (min lo) n = lo ≤ n
Admits (max hi) n = n ≤ hi
Admits (range lo hi) n = (lo ≤ n) × (n ≤ hi)

-- The bounds are positive, and a range holds more than one number.
abbrev pub IsValid : TaskCountRestriction → Type 0
IsValid none = Unit
IsValid (exact e) = 0 < e
IsValid (min lo) = 0 < lo
IsValid (max hi) = 0 < hi
IsValid (range lo hi) = (0 < lo) × (lo < hi)
