-- ===== src/Union/Node/Raised.antt =====
-- The loops of `child_task_counts` of src/execution_plans/children_isolator_union.rs.
use datafusion_distributed.Prelude.{
  ℕ, zero, suc, ◌≤◌, ◌<◌, ◌≡◌, refl, ap, Bool, true, false, Bool-cases, ◌⊎◌, inl, inr, List, [],
  ◌∷◌, length, replicate, nth_or, if◌then◌else◌, arith,
}
use datafusion_distributed.Union.Node.Allocated.{length-raise, length-raise_entries}
use datafusion_distributed.Union.Slots.{Entry}
use datafusion_distributed.Union.Slots.Occurrences.{same, in_slot, occurrences}
use datafusion_distributed.Union.Node.{raise, raise_entries, raise_tasks}

raise-grows : (xs : List ℕ) (i n c : ℕ) → nth_or 0 xs c ≤ nth_or 0 (raise xs i n) c
unfolding raise
raise-grows [] i n c = omega arith
raise-grows (x ∷ xs) zero n zero = omega arith
raise-grows (x ∷ xs) zero n (suc c) = omega arith
raise-grows (x ∷ xs) (suc i) n zero = omega arith
raise-grows (x ∷ xs) (suc i) n (suc c) = raise-grows xs i n c

raise-reaches : (xs : List ℕ) (c n : ℕ) → c < length xs → n ≤ nth_or 0 (raise xs c n) c
unfolding raise
raise-reaches [] c n l = absurd (omega arith)
raise-reaches (x ∷ xs) zero n l = omega arith
raise-reaches (x ∷ xs) (suc c) n l = raise-reaches xs c n (omega arith)

raise_entries-grows :
    (es : List Entry) (xs : List ℕ) (c : ℕ) → nth_or 0 xs c ≤ nth_or 0 (raise_entries xs es) c
unfolding raise_entries
raise_entries-grows [] xs c = omega arith
raise_entries-grows ((i, ctx) ∷ es) xs c =
    omega (
      arith,
      raise-grows xs i ctx.task_count c,
      raise_entries-grows es (raise xs i ctx.task_count) c,
    )

Nat-cases : (n : ℕ) → (n ≡ 0) ⊎ (0 < n)
Nat-cases zero = inl refl
Nat-cases (suc n) = inr (omega arith)

same_child :
    (i c j m : ℕ) (e : Entry) → e.0 ≡ i → same e c j m ≡ true → (i ≡ c) × (e.1.task_count ≡ m)
same_child i c j m e p q = (ground (arith, p, q), ground (arith, q))

count_of_same : (b : Bool) → b ≡ false → ◌≡◌ {A = ℕ} (if b then 1 else 0) 0
count_of_same b e = ap (λ x. if x then 1 else 0) e

same_self :
    (i c : ℕ) (e : Entry)
    → e.0 ≡ c
    → ◌≡◌ {A = ℕ} (if same e c e.1.task_index e.1.task_count then 1 else 0) 1
same_self i c e p = ground (arith, p)

raise_entries-reaches :
    (es : List Entry) (xs : List ℕ) (c j m : ℕ)
    → 0 < in_slot c j m es
    → c < length xs
    → m ≤ nth_or 0 (raise_entries xs es) c
unfolding raise_entries in_slot
raise_entries-reaches [] xs c j m o l = absurd (omega arith)
raise_entries-reaches ((i, ctx) ∷ es) xs c j m o l = elim (Bool-cases (same (i, ctx) c j m)) [
  | inl q ↦
      let (at, count) = same_child i c j m (i, ctx) refl q in
      omega (
        arith,
        count,
        raise-reaches xs i ctx.task_count (omega (arith, at)),
        raise_entries-grows es (raise xs i ctx.task_count) c,
        ap (λ k. nth_or 0 (raise xs i ctx.task_count) k) at,
      )
  | inr q ↦
      raise_entries-reaches es (raise xs i ctx.task_count) c j m
        (omega (arith, count_of_same (same (i, ctx) c j m) q))
        (omega (arith, length-raise xs i ctx.task_count))
]

raise_tasks-grows :
    (tasks : List (List Entry)) (xs : List ℕ) (c : ℕ)
    → nth_or 0 xs c ≤ nth_or 0 (raise_tasks xs tasks) c
unfolding raise_tasks
raise_tasks-grows [] xs c = omega arith
raise_tasks-grows (es ∷ tasks) xs c =
    omega (arith, raise_entries-grows es xs c, raise_tasks-grows tasks (raise_entries xs es) c)

pub raise_tasks-reaches :
    (tasks : List (List Entry)) (xs : List ℕ) (c j m : ℕ)
    → 0 < occurrences c j m tasks
    → c < length xs
    → m ≤ nth_or 0 (raise_tasks xs tasks) c
unfolding raise_tasks occurrences
raise_tasks-reaches [] xs c j m o l = absurd (omega arith)
raise_tasks-reaches (es ∷ tasks) xs c j m o l = elim (Nat-cases (in_slot c j m es)) [
  | inl none ↦
      raise_tasks-reaches tasks (raise_entries xs es) c j m (omega (arith, none))
        (omega (arith, length-raise_entries xs es))
  | inr some ↦ omega (
    arith,
    raise_entries-reaches es xs c j m some l,
    raise_tasks-grows tasks (raise_entries xs es) c,
  )
]

raise-below :
    (xs : List ℕ) (i k c n : ℕ)
    → nth_or 0 xs c ≤ n
    → (i ≡ c → k ≤ n)
    → nth_or 0 (raise xs i k) c ≤ n
unfolding raise
raise-below [] i k c n h g = h
raise-below (x ∷ xs) zero k zero n h g = omega (arith, g refl)
raise-below (x ∷ xs) zero k (suc c) n h g = h
raise-below (x ∷ xs) (suc i) k zero n h g = h
raise-below (x ∷ xs) (suc i) k (suc c) n h g = raise-below xs i k c n h (λ e. g (ap suc e))

raise_entries-below :
    (es : List Entry) (xs : List ℕ) (c n : ℕ)
    → nth_or 0 xs c ≤ n
    → ((j m : ℕ) → 0 < in_slot c j m es → m ≤ n)
    → nth_or 0 (raise_entries xs es) c ≤ n
unfolding raise_entries in_slot
raise_entries-below [] xs c n h g = h
raise_entries-below ((i, ctx) ∷ es) xs c n h g =
    raise_entries-below es (raise xs i ctx.task_count) c n
      (raise-below xs i ctx.task_count c n h
        (λ e. g ctx.task_index ctx.task_count (omega (arith, same_self i c (i, ctx) e))))
      (λ j m o. g j m (omega (arith, o)))

pub raise_tasks-below :
    (tasks : List (List Entry)) (xs : List ℕ) (c n : ℕ)
    → nth_or 0 xs c ≤ n
    → ((j m : ℕ) → 0 < occurrences c j m tasks → m ≤ n)
    → nth_or 0 (raise_tasks xs tasks) c ≤ n
unfolding raise_tasks occurrences
raise_tasks-below [] xs c n h g = h
raise_tasks-below (es ∷ tasks) xs c n h g =
    raise_tasks-below tasks (raise_entries xs es) c n
      (raise_entries-below es xs c n h (λ j m o. g j m (omega (arith, o))))
      (λ j m o. g j m (omega (arith, o)))

pub nth_or-replicate : (k c : ℕ) → nth_or zero (replicate k zero) c ≡ zero
nth_or-replicate zero c = refl
nth_or-replicate (suc k) zero = refl
nth_or-replicate (suc k) (suc c) = nth_or-replicate k c
