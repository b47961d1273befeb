-- ===== src/Union/Counts/Fits.antt =====
-- Counts within the bounds of their restrictions, and how steps 4 and 5 of `split_children` keep
-- them there.
use datafusion_distributed.Prelude.{
  ℕ, zero, suc, ◌≤◌, ◌≡◌, refl, true, List, [], ◌∷◌, Option, length, sum, All, arith,
}
use datafusion_distributed.TaskCount.{TaskCountRestriction, none, exact, get_min, get_max, IsValid}
use datafusion_distributed.Union.Counts.{bump, impose, impose_all, below_max}

abbrev pub AtLeast : Option ℕ → ℕ → Type 0
AtLeast Option.none n = Unit
AtLeast (Option.some lo) n = lo ≤ n

abbrev pub AtMost : Option ℕ → ℕ → Type 0
AtMost Option.none n = Unit
AtMost (Option.some hi) n = n ≤ hi

-- The count is within the bounds of the restriction, but may be zero where it has no minimum.
abbrev pub Fits : TaskCountRestriction → ℕ → Type 0
Fits r n = AtLeast (get_min r) n × AtMost (get_max r) n

abbrev pub AllFit : List TaskCountRestriction → List ℕ → Type 0
AllFit [] [] = Unit
AllFit [] (n ∷ ns) = ⊥
AllFit (r ∷ rs) [] = ⊥
AllFit (r ∷ rs) (n ∷ ns) = Fits r n × AllFit rs ns

impose-Fits : (r : TaskCountRestriction) (n : ℕ) → IsValid r → Fits r (impose r n)
unfolding impose get_min get_max
impose-Fits none n v = omega arith
impose-Fits (exact e) n v = omega arith
impose-Fits r n v = omega arith

pub impose_all-AllFit :
    (rs : List TaskCountRestriction) (ns : List ℕ)
    → All IsValid rs
    → length ns ≡ length rs
    → AllFit rs (impose_all rs ns)
unfolding impose_all
impose_all-AllFit [] [] v e = tt
impose_all-AllFit [] (n ∷ ns) v e = tt
impose_all-AllFit (r ∷ rs) [] v e = absurd (omega arith)
impose_all-AllFit (r ∷ rs) (n ∷ ns) v e =
    (impose-Fits r n v.0, impose_all-AllFit rs ns v.1 (omega arith))

-- The child at a position is under its maximum.
abbrev pub Grows : List TaskCountRestriction → List ℕ → ℕ → Type 0
Grows [] ns i = ⊥
Grows (r ∷ rs) [] i = ⊥
Grows (r ∷ rs) (n ∷ ns) zero = below_max (get_max r) n ≡ true
Grows (r ∷ rs) (n ∷ ns) (suc i) = Grows rs ns i

suc-Fits :
    (lo hi : Option ℕ) (n : ℕ)
    → below_max hi n ≡ true
    → AtLeast lo n × AtMost hi n
    → AtLeast lo (suc n) × AtMost hi (suc n)
unfolding below_max
suc-Fits Option.none Option.none n g h = (tt, tt)
suc-Fits (Option.some lo) (Option.some hi) n g h = ground arith
suc-Fits lo hi n g h = ground arith

pub bump-AllFit :
    (rs : List TaskCountRestriction) (ns : List ℕ) (i : ℕ)
    → Grows rs ns i
    → AllFit rs ns
    → AllFit rs (bump ns i)
unfolding bump
bump-AllFit [] ns i g h = absurd g
bump-AllFit (r ∷ rs) [] i g h = absurd g
bump-AllFit (r ∷ rs) (n ∷ ns) zero g h = (suc-Fits (get_min r) (get_max r) n g h.0, h.1)
bump-AllFit (r ∷ rs) (n ∷ ns) (suc i) g h = (h.0, bump-AllFit rs ns i g h.1)

pub sum-bump :
    (rs : List TaskCountRestriction) (ns : List ℕ) (i : ℕ)
    → Grows rs ns i
    → sum (bump ns i) ≡ suc (sum ns)
unfolding bump
sum-bump [] ns i g = absurd g
sum-bump (r ∷ rs) [] i g = absurd g
sum-bump (r ∷ rs) (n ∷ ns) zero g = omega arith
sum-bump (r ∷ rs) (n ∷ ns) (suc i) g = omega (arith, sum-bump rs ns i g)

pub All-map {ℓ κ μ} :
    {A : Type ℓ} {P : A → Type κ} {Q : A → Type μ} (f : (a : A) → P a → Q a) (xs : List A)
    → All P xs
    → All Q xs
All-map f [] h = tt
All-map f (x ∷ xs) h = (f x h.0, All-map f xs h.1)

pub length-AllFit :
    (rs : List TaskCountRestriction) (ns : List ℕ) → AllFit rs ns → length ns ≡ length rs
length-AllFit [] [] h = refl
length-AllFit [] (n ∷ ns) h = absurd h
length-AllFit (r ∷ rs) [] h = absurd h
length-AllFit (r ∷ rs) (n ∷ ns) h = omega (arith, length-AllFit rs ns h.1)
