-- ===== src/Union/Counts/Filling.antt =====
-- Step 5 of `split_children`: the children that may grow, the choice among them, and the loop.
use Prim.Native.Nat.{Ordering}
use datafusion_distributed.Prelude.{
  ℕ, zero, suc, ◌+◌, ◌≤◌, ◌<◌, ◌≡◌, ◌≢◌, refl, subst, ◌⊎◌, inl, inr, List, [], ◌∷◌, Option, ltb,
  ltb→lt, ltb→le, length, sum, All, Bool-cases, arith,
}
use datafusion_distributed.Prelude.Float.{Float}
use datafusion_distributed.TaskCount.{TaskCountRestriction, none, get_max, IsValid}
use datafusion_distributed.Union.Counts.{bump, below_max, later, max_by, eligible, fill, by_deficit}
use datafusion_distributed.Union.Counts.Fits.{AllFit, Grows, bump-AllFit, sum-bump, All-map}

abbrev GrowsFrom : ℕ → List TaskCountRestriction → List ℕ → ℕ → Type 0
GrowsFrom d rs ns i = (o : ℕ) × (i ≡ d + o) × Grows rs ns o

eligible-Grows :
    (d : ℕ) (rs : List TaskCountRestriction) (ns : List ℕ)
    → All (GrowsFrom d rs ns) (eligible d rs ns)
unfolding eligible
eligible-Grows d [] ns = tt
eligible-Grows d (r ∷ rs) [] = tt
eligible-Grows d (r ∷ rs) (n ∷ ns) =
    let rest =
      All-map {Q = GrowsFrom d (r ∷ rs) (n ∷ ns)} (λ i g. (suc g.0, omega arith, g.2))
        (eligible (suc d) rs ns) (eligible-Grows (suc d) rs ns) in
    elim (Bool-cases (below_max (get_max r) n)) [
      | inl room ↦ rw room ((0, omega arith, room), rest)
      | inr full ↦ rw full rest
    ]

later-holds {κ} : (P : ℕ → Type κ) (o : Ordering) (b i : ℕ) → P b → P i → P (later o b i)
unfolding later
later-holds P Ordering.gt b i h k = h
later-holds P Ordering.eq b i h k = k
later-holds P Ordering.lt b i h k = k

-- Of a non-empty list `max_by` picks an element.
max_by-All {κ} :
    (P : ℕ → Type κ) (c : ℕ → ℕ → Ordering) (b : ℕ) (is : List ℕ)
    → P b
    → All P is
    → (i : ℕ) × (max_by c (Option.some b) is ≡ Option.some i) × P i
unfolding max_by
max_by-All P c b [] h hs = (b, refl, h)
max_by-All P c b (i ∷ is) h hs =
    max_by-All P c (later (c b i) b i) is (later-holds P (c b i) b i h hs.0) hs.1

max_by-cases {κ} :
    (P : ℕ → Type κ) (c : ℕ → ℕ → Ordering) (is : List ℕ)
    → All P is
    → ((is ≡ []) × (max_by c Option.none is ≡ Option.none))
      ⊎ ((i : ℕ) × (max_by c Option.none is ≡ Option.some i) × P i)
unfolding max_by
max_by-cases P c [] hs = inl (refl, refl)
max_by-cases P c (i ∷ is) hs = inr (max_by-All P c i is hs.0 hs.1)

-- While the counts are zero, a first child with a valid restriction can grow.
zero_eligible :
    (rs : List TaskCountRestriction) (ns : List ℕ)
    → All IsValid rs
    → AllFit rs ns
    → 0 < length rs
    → sum ns ≡ 0
    → eligible 0 rs ns ≢ []
unfolding eligible below_max get_max
zero_eligible [] ns v a h e = absurd (omega arith)
zero_eligible (r ∷ rs) [] v a h e = absurd a
zero_eligible (none ∷ rs) (n ∷ ns) v a h e = ground arith
zero_eligible (r ∷ rs) (n ∷ ns) v a h e = ground arith

module _ (f : Float) where
  open f use {F}

  -- One round of step 5 finds no child, or one that is under its maximum.
  pick :
      (xs : List F) (rs : List TaskCountRestriction) (ns : List ℕ)
      → let found = max_by (by_deficit f xs ns) Option.none (eligible 0 rs ns) in
        ((eligible 0 rs ns ≡ []) × (found ≡ Option.none))
        ⊎ ((i : ℕ) × (found ≡ Option.some i) × Grows rs ns i)
  pick xs rs ns = max_by-cases (Grows rs ns) (by_deficit f xs ns) (eligible 0 rs ns) (
      All-map (λ i g. subst (Grows rs ns) (omega arith) g.2) (eligible 0 rs ns)
        (eligible-Grows 0 rs ns))

  -- What step 5 does: the counts fit on, and they only grow; all zero they cannot stay.
  pub fill_lem :
      (left : ℕ) (xs : List F) (rs : List TaskCountRestriction) (ns : List ℕ)
      → AllFit rs ns
      → AllFit rs (fill f left xs rs ns) × (sum ns ≤ sum (fill f left xs rs ns))
  unfolding fill
  fill_lem zero xs rs ns h = (h, omega arith)
  fill_lem (suc left) xs rs ns h = elim (pick xs rs ns) [
    | inl (_, e) ↦ rw (e, fill) (h, omega arith)
    | inr (i, e, g) ↦
        let rest = fill_lem left xs rs (bump ns i) (bump-AllFit rs ns i g h) in
        rw (e, fill) (rest.0, omega (arith, rest.1, sum-bump rs ns i g))
  ]

  pub fill_positive :
      (left : ℕ) (xs : List F) (rs : List TaskCountRestriction) (ns : List ℕ)
      → All IsValid rs
      → AllFit rs ns
      → 0 < length rs
      → 0 < left + sum ns
      → 0 < sum (fill f left xs rs ns)
  unfolding fill
  fill_positive zero xs rs ns v h l p = omega (arith, (fill_lem zero xs rs ns h).1)
  fill_positive (suc left) xs rs ns v h l p = elim (pick xs rs ns) [
    | inl (empty, e) ↦
        rw (e, fill)
          (elim (Bool-cases (ltb 0 (sum ns))) [
            | inl some ↦ ltb→lt 0 (sum ns) some
            | inr zeros ↦
                absurd (zero_eligible rs ns v h l (omega (arith, ltb→le 0 (sum ns) zeros)) empty)
          ])
    | inr (i, e, g) ↦
        rw (e, fill)
          (omega (
            arith,
            (fill_lem left xs rs (bump ns i) (bump-AllFit rs ns i g h)).1,
            sum-bump rs ns i g,
          ))
  ]
