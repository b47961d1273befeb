-- ===== src/Union/Counts.antt =====
-- Steps 2 to 5 of `split_children`: how many tasks each child of the union gets. The floating-point
-- numbers are a parameter; sums of counts do not wrap.
pub mod Fits
mod Filling
pub mod Restrictions
use mathlib.Core.List.{foldl}
use Prim.Native.Nat
use Prim.Native.Nat.{Ordering}
use datafusion_distributed.Prelude.{
  ℕ, zero, suc, ◌+◌, ◌-◌, Bool, true, false, List, [], ◌∷◌, map, Option, if◌then◌else◌, ltb, length,
  sum, nth_or,
}
use datafusion_distributed.Prelude.Float.{Float}
use datafusion_distributed.TaskCount.{TaskCountRestriction, exact, get_min, get_max}
use datafusion_distributed.TaskCount.Annotation.{TaskCountAnnotation}

-- the numbers below `n`, from `i`
unfoldable pub range_from : ℕ → ℕ → List ℕ
range_from i zero = []
range_from i (suc n) = i ∷ range_from (suc i) n

-- `xs[i] += 1`
unfoldable pub bump : List ℕ → ℕ → List ℕ
bump [] i = []
bump (x ∷ xs) zero = suc x ∷ xs
bump (x ∷ xs) (suc i) = x ∷ bump xs i

unfoldable pub is_exact : TaskCountRestriction → Bool
is_exact (exact e) = true
is_exact TaskCountRestriction.none = false
is_exact (TaskCountRestriction.min lo) = false
is_exact (TaskCountRestriction.max hi) = false
is_exact (TaskCountRestriction.range lo hi) = false

unfoldable pub exact_count : TaskCountRestriction → ℕ
exact_count (exact e) = e
exact_count TaskCountRestriction.none = 0
exact_count (TaskCountRestriction.min lo) = 0
exact_count (TaskCountRestriction.max hi) = 0
exact_count (TaskCountRestriction.range lo hi) = 0

-- Step 4 for one child.
unfoldable pub at_least : Option ℕ → ℕ → ℕ
at_least (Option.some lo) n = Nat.max n lo
at_least Option.none n = n

unfoldable pub at_most : Option ℕ → ℕ → ℕ
at_most (Option.some hi) n = Nat.min n hi
at_most Option.none n = n

unfoldable pub impose : TaskCountRestriction → ℕ → ℕ
unfolding at_least at_most
impose r n = at_most (get_max r) (at_least (get_min r) n)

unfoldable pub impose_all : List TaskCountRestriction → List ℕ → List ℕ
impose_all [] counts = []
impose_all (r ∷ rs) [] = []
impose_all (r ∷ rs) (n ∷ counts) = impose r n ∷ impose_all rs counts

-- May the child grow in step 5?
unfoldable pub below_max : Option ℕ → ℕ → Bool
below_max (Option.some hi) n = ltb n hi
below_max Option.none n = true

unfoldable pub then_cmp : Ordering → ℕ → ℕ → Ordering
then_cmp Ordering.eq a b = Nat.compare a b
then_cmp Ordering.lt a b = Ordering.lt
then_cmp Ordering.gt a b = Ordering.gt

-- `sort_by`, which is stable
unfoldable pub insert_sorted : (ℕ → ℕ → Ordering) → ℕ → List ℕ → List ℕ
insert_sorted c a [] = a ∷ []
insert_sorted c a (b ∷ bs) =
    let rest = insert_sorted c a bs in elim (c a b) [ Ordering.gt ↦ b ∷ rest | _ ↦ a ∷ b ∷ bs ]

unfoldable pub sort_by : (ℕ → ℕ → Ordering) → List ℕ → List ℕ
sort_by c [] = []
sort_by c (a ∷ as') = insert_sorted c a (sort_by c as')

-- one more task for each child of the order while some are left
unfoldable pub hand_out : ℕ → List ℕ → List ℕ → List ℕ
hand_out left [] counts = counts
hand_out zero (i ∷ order) counts = counts
hand_out (suc left) (i ∷ order) counts = hand_out left order (bump counts i)

-- the later of two maxima
unfoldable pub later : Ordering → ℕ → ℕ → ℕ
later Ordering.gt b i = b
later Ordering.eq b i = i
later Ordering.lt b i = i

-- the last maximum of a list, after `best`
unfoldable pub max_by : (ℕ → ℕ → Ordering) → Option ℕ → List ℕ → Option ℕ
max_by c best [] = best
max_by c Option.none (i ∷ is) = max_by c (Option.some i) is
max_by c (Option.some b) (i ∷ is) = max_by c (Option.some (later (c b i) b i)) is

-- the children from index `i` on that are under their maximum
unfoldable pub eligible : ℕ → List TaskCountRestriction → List ℕ → List ℕ
eligible i [] counts = []
eligible i (r ∷ rs) [] = []
eligible i (r ∷ rs) (n ∷ counts) =
    let rest = eligible (suc i) rs counts in if below_max (get_max r) n then i ∷ rest else rest

module _ (f : Float) where
  open f use {F, of_usize}

  unfoldable pub total_weight : List (TaskCountAnnotation f) → F
  total_weight = foldl (λ acc a. f.add acc a.soft) f.zero

  unfoldable pub flexible_count : List (TaskCountAnnotation f) → ℕ
  flexible_count [] = 0
  flexible_count (a ∷ as') = (if is_exact a.restriction then 0 else 1) + flexible_count as'

  unfoldable pub exact_total : List (TaskCountAnnotation f) → ℕ
  exact_total [] = 0
  exact_total (a ∷ as') = exact_count a.restriction + exact_total as'

  -- Step 2: the fractional shares.
  unfoldable pub shares : List (TaskCountAnnotation f) → ℕ → List F
  shares children budget =
      let total = total_weight children in
      let flexible = flexible_count children in
      if f.lt f.zero total
      then map (λ a. f.div (f.mul (of_usize budget) a.soft) total) children
      else if ltb 0 flexible
      then map
          (λ a.
            if is_exact a.restriction
            then f.zero
            else f.div (of_usize (budget - exact_total children)) (of_usize flexible))
          children
      else map (λ a. f.zero) children

  -- Step 3: `partial_cmp(..).unwrap_or(Equal)`
  unfoldable pub cmp : F → F → Ordering
  cmp x y = elim (f.partial_cmp x y) [ Option.some o ↦ o | Option.none ↦ Ordering.eq ]

  unfoldable pub remainder : List F → ℕ → F
  remainder xs i = let x = nth_or f.zero xs i in f.sub x (f.floor x)

  -- larger remainders first, lower indices first among equals
  unfoldable pub by_remainder : List F → ℕ → ℕ → Ordering
  by_remainder xs a b = then_cmp (cmp (remainder xs b) (remainder xs a)) a b

  unfoldable pub rounded : List (TaskCountAnnotation f) → ℕ → List ℕ
  rounded children budget =
      let xs = shares children budget in
      let floors = map (λ x. f.as_usize (f.floor x)) xs in
      if f.lt f.zero (total_weight children)
      then hand_out (budget - sum floors)
          (sort_by (by_remainder xs) (range_from 0 (length children))) floors
      else floors

  -- Step 5: the deficit of a child.
  unfoldable pub deficit : List F → List ℕ → ℕ → F
  deficit xs counts i = f.sub (nth_or f.zero xs i) (of_usize (nth_or 0 counts i))

  unfoldable pub by_deficit : List F → List ℕ → ℕ → ℕ → Ordering
  by_deficit xs counts a b = then_cmp (cmp (deficit xs counts a) (deficit xs counts b)) b a

  unfoldable pub fill : ℕ → List F → List TaskCountRestriction → List ℕ → List ℕ
  fill zero xs rs counts = counts
  fill (suc left) xs rs counts =
      elim (max_by (by_deficit xs counts) Option.none (eligible 0 rs counts)) [
        | Option.none ↦ counts
        | Option.some i ↦ fill left xs rs (bump counts i)
      ]

  unfoldable pub restrictions : List (TaskCountAnnotation f) → List TaskCountRestriction
  restrictions = map (λ a. a.restriction)

  -- Steps 2 to 5: the number of tasks of each child.
  unfoldable pub child_task_counts : List (TaskCountAnnotation f) → ℕ → List ℕ
  child_task_counts children budget =
      let imposed = impose_all (restrictions children) (rounded children budget) in
      fill (budget - sum imposed) (shares children budget) (restrictions children) imposed
