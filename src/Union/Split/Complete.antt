-- ===== src/Union/Split/Complete.antt =====
-- Every child of the union produces its rows: what `split_children` promises.
use Prim.Native.Nat
use datafusion_distributed.Prelude.{
  ℕ, zero, suc, ◌<◌, ◌≡◌, subst, ap, ◌∙◌, ◌&&◌, List, [], ◌∷◌, Option, ok, if◌then◌else◌, ltb, ◌==◌,
  length, get_elem?, All, length-map, get_elem?-below, Option-cases, inl, inr, arith,
}
use datafusion_distributed.Prelude.Float.{Float}
use datafusion_distributed.TaskCount.{Admits, IsValid}
use datafusion_distributed.TaskCount.Annotation.{TaskCountAnnotation}
use datafusion_distributed.Union.Slots.{Entry, assign}
use datafusion_distributed.Union.Slots.Occurrences.{occurrences}
use datafusion_distributed.Union.Slots.Assigned.{wanted, occurrences-assign, length-assign}
use datafusion_distributed.Union.Counts.{restrictions, child_task_counts}
use datafusion_distributed.Union.Counts.Fits.{length-AllFit}
use datafusion_distributed.Union.Counts.Restrictions.{
  AllFit-get, Fits-Admits, child_task_counts_lem,
}
use datafusion_distributed.Union.Split.{split_children}

All-get {ℓ κ} :
    {A : Type ℓ} (P : A → Type κ) (xs : List A) (i : ℕ) (a : A)
    → All P xs
    → get_elem? xs i ≡ Option.some a
    → P a
All-get P [] i a h e = absurd (cc)
All-get P (x ∷ xs) zero a h e = let same : x ≡ a = cc in subst P same h.0
All-get P (x ∷ xs) (suc i) a h e = All-get P xs i a h.1 e

module _ (f : Float) where
  -- A successful split is the assignment of the computed counts, within a positive budget.
  pub split_parts :
      (children : List (TaskCountAnnotation f)) (budget : ℕ) (slots : List (List Entry))
      → split_children f children budget ≡ ok slots
      → (0 < budget)
        × (0 < length children)
        × (slots ≡ assign budget (child_task_counts f children budget))
  unfolding split_children
  split_parts children budget slots h = ground arith

  -- A split that succeeds has one outer task for each task of the budget.
  pub length-split_children :
      (children : List (TaskCountAnnotation f)) (budget : ℕ) (slots : List (List Entry))
      → split_children f children budget ≡ ok slots
      → length slots ≡ budget
  length-split_children children budget slots h =
      let (b, l, e) = split_parts children budget slots h in
      rw e (length-assign budget (child_task_counts f children budget))

  get_elem?-restrictions :
      (children : List (TaskCountAnnotation f)) (i : ℕ) (a : TaskCountAnnotation f)
      → get_elem? children i ≡ Option.some a
      → get_elem? (restrictions f children) i ≡ Option.some a.restriction
  unfolding restrictions
  get_elem?-restrictions [] i a h = cc
  get_elem?-restrictions (x ∷ xs) zero a h = ground arith
  get_elem?-restrictions (x ∷ xs) (suc i) a h = get_elem?-restrictions xs i a h

  pub only_children_run :
      (children : List (TaskCountAnnotation f)) (budget : ℕ) (slots : List (List Entry)) (c j m : ℕ)
      → All IsValid (restrictions f children)
      → split_children f children budget ≡ ok slots
      → 0 < occurrences c j m slots
      → c < length children
  unfolding restrictions
  only_children_run children budget slots c j m v h o =
      let (b, l, e) = split_parts children budget slots h in
      let counts = child_task_counts f children budget in
      let (fits, positive) = child_task_counts_lem f children budget v b l in
      let seen : 0 < wanted j m (get_elem? counts c) =
        omega
          (arith, ap (occurrences c j m) e, occurrences-assign c j m budget counts b positive) in
      elim (Option-cases (get_elem? counts c)) [
        | inl none ↦ absurd (omega (arith, ap (wanted j m) none))
        | inr (n, at) ↦ omega (
          arith,
          get_elem?-below counts c n at,
          length-AllFit (restrictions f children) counts fits,
          length-map (λ (a : TaskCountAnnotation f). a.restriction) children,
        )
      ]

  -- When a split of children with valid restrictions succeeds, each child is given a task count
  -- that its restriction admits, and for each index below the count exactly one entry of the outer
  -- tasks runs the child as that task of that many. No other entry names the child.
  pub every_child_runs :
      (children : List (TaskCountAnnotation f)) (budget : ℕ) (slots : List (List Entry)) (c : ℕ)
      (a : TaskCountAnnotation f)
      → All IsValid (restrictions f children)
      → split_children f children budget ≡ ok slots
      → get_elem? children c ≡ Option.some a
      → (n : ℕ) × (0 < n)
        × Admits a.restriction n
        × ((j m : ℕ) → occurrences c j m slots ≡ (if m == n && ltb j m then 1 else 0))
  every_child_runs children budget slots c a v h g =
      let (b, l, e) = split_parts children budget slots h in
      let counts = child_task_counts f children budget in
      let (fits, positive) = child_task_counts_lem f children budget v b l in
      let known = get_elem?-restrictions children c a g in
      let (n, at, fit) = AllFit-get (restrictions f children) counts c a.restriction fits known in
      let valid = All-get IsValid (restrictions f children) c a.restriction v known in
      (
        Nat.max n 1,
        omega arith,
        Fits-Admits a.restriction n valid fit,
        λ j m.
            ap (occurrences c j m) e
            ∙ (occurrences-assign c j m budget counts b positive ∙ ap (wanted j m) at),
      )
