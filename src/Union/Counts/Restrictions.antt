-- ===== src/Union/Counts/Restrictions.antt =====
-- The task counts of the children satisfy their restrictions, and are not all zero.
use Prim.Native.Nat
use Prim.Native.Nat.{Ordering}
use datafusion_distributed.Prelude.{
  ℕ, zero, suc, ◌-◌, ◌<◌, ◌≡◌, refl, sym, ◌∙◌, subst, inl, inr, List, [], ◌∷◌, map, Option, ltb,
  length, length-map, sum, get_elem?, All, Bool-cases, arith,
}
use datafusion_distributed.Prelude.Float.{Float}
use datafusion_distributed.TaskCount.{
  TaskCountRestriction, none, exact, get_min, get_max, Admits, IsValid,
}
use datafusion_distributed.TaskCount.Annotation.{TaskCountAnnotation}
use datafusion_distributed.Union.Counts.{
  bump, impose_all, hand_out, shares, rounded, restrictions, child_task_counts, total_weight,
  flexible_count, sort_by, by_remainder, range_from,
}
use datafusion_distributed.Union.Counts.Fits.{Fits, AllFit, impose_all-AllFit}
use datafusion_distributed.Union.Counts.Filling.{fill_lem, fill_positive}

length-bump : (ns : List ℕ) (i : ℕ) → length (bump ns i) ≡ length ns
unfolding bump
length-bump [] i = refl
length-bump (n ∷ ns) zero = refl
length-bump (n ∷ ns) (suc i) = omega (arith, length-bump ns i)

length-hand_out :
    (left : ℕ) (order counts : List ℕ) → length (hand_out left order counts) ≡ length counts
unfolding hand_out
length-hand_out left [] counts = refl
length-hand_out zero (i ∷ order) counts = refl
length-hand_out (suc left) (i ∷ order) counts =
    omega (arith, length-hand_out left order (bump counts i), length-bump counts i)

-- A count that fits, raised to one, is admitted.
pub Fits-Admits : (r : TaskCountRestriction) (n : ℕ) → IsValid r → Fits r n → Admits r (Nat.max n 1)
Fits-Admits none n v h = tt
Fits-Admits (exact e) n v h = unfold get_min get_max in omega arith
Fits-Admits r n v h = unfold get_min get_max in omega arith

pub AllFit-get :
    (rs : List TaskCountRestriction) (ns : List ℕ) (i : ℕ) (r : TaskCountRestriction)
    → AllFit rs ns
    → get_elem? rs i ≡ Option.some r
    → (n : ℕ) × (get_elem? ns i ≡ Option.some n) × Fits r n
AllFit-get [] ns i r h e = absurd (cc)
AllFit-get (x ∷ rs) [] i r h e = absurd h
AllFit-get (x ∷ rs) (n ∷ ns) zero r h e =
    let same : x ≡ r = cc in (n, refl, subst (λ y. Fits y n) same h.0)
AllFit-get (x ∷ rs) (n ∷ ns) (suc i) r h e = AllFit-get rs ns i r h.1 e

module _ (f : Float) where
  open f use {F}

  length-shares :
      (children : List (TaskCountAnnotation f)) (budget : ℕ)
      → length (shares f children budget) ≡ length children
  unfolding shares
  length-shares children budget = elim (Bool-cases (f.lt f.zero (total_weight f children))) [
    | inl weighted ↦ rw weighted (length-map _ children)
    | inr zeros ↦ rw zeros (elim (Bool-cases (ltb 0 (flexible_count f children))) [
      | inl flexible ↦ rw flexible (length-map _ children)
      | inr fixed ↦ rw fixed (length-map _ children)
    ])
  ]

  length-rounded :
      (children : List (TaskCountAnnotation f)) (budget : ℕ)
      → length (rounded f children budget) ≡ length children
  unfolding rounded
  length-rounded children budget =
      let xs = shares f children budget in
      let floors = map (λ x. f.as_usize (f.floor x)) xs in
      let order = sort_by (by_remainder f xs) (range_from 0 (length children)) in
      let floors_lem : length floors ≡ length children =
        length-map _ xs ∙ length-shares children budget in
      elim (Bool-cases (f.lt f.zero (total_weight f children))) [
        | inl weighted ↦
            rw weighted (length-hand_out (budget - sum floors) order floors ∙ floors_lem)
        | inr zeros ↦ rw zeros floors_lem
      ]

  -- The counts of valid children fit their restrictions, and are not all zero.
  pub child_task_counts_lem :
      (children : List (TaskCountAnnotation f)) (budget : ℕ)
      → All IsValid (restrictions f children)
      → 0 < budget
      → 0 < length children
      → AllFit (restrictions f children) (child_task_counts f children budget)
        × (0 < sum (child_task_counts f children budget))
  unfolding child_task_counts restrictions
  child_task_counts_lem children budget v b l =
      let rs = restrictions f children in
      let ns = impose_all rs (rounded f children budget) in
      let xs = shares f children budget in
      let count : length rs ≡ length children = length-map _ children in
      let fits =
        impose_all-AllFit rs (rounded f children budget) v
          (length-rounded children budget ∙ sym count) in
      (
        (fill_lem f (budget - sum ns) xs rs ns fits).0,
        fill_positive f (budget - sum ns) xs rs ns v fits (omega arith) (omega arith),
      )
