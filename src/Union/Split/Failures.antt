-- ===== src/Union/Split/Failures.antt =====
-- Which errors a split gives: `split_children` of src/execution_plans/children_isolator_union.rs.
use datafusion_distributed.Prelude.{
  ℕ, suc, ◌<◌, ◌≡◌, refl, sym, subst, ◌∙◌, not, inl, inr, List, [], ◌∷◌, Option, Bool, true, false,
  err, bind-err, err_inj, length, ◌==◌, ltb, if◌then◌else◌, if-elim, arith,
}
use datafusion_distributed.Prelude.Float.{Float}
use datafusion_distributed.TaskCount.{TaskCountRestriction, exact, get_min}
use datafusion_distributed.TaskCount
use datafusion_distributed.TaskCount.Annotation.{TaskCountAnnotation}
use datafusion_distributed.Union.Split.{
  SplitError, no_budget, no_children, exact_over_budget, min_over_budget, negative_estimate,
  infinite_estimate, check_minimum, check_restriction, check_estimate, check_children,
  split_children,
}

-- The errors about the restriction or the estimate of one child; the others report a fault of the
-- planner.
abbrev pub IsChildError : SplitError → Type 0
IsChildError no_budget = ⊥
IsChildError no_children = ⊥
IsChildError (exact_over_budget child required) = Unit
IsChildError (min_over_budget child required) = Unit
IsChildError (negative_estimate child) = Unit
IsChildError (infinite_estimate child) = Unit

check_minimum-IsChildError :
    (i budget : ℕ) (o : Option ℕ) (e : SplitError)
    → check_minimum i budget o ≡ err e
    → IsChildError e
unfolding check_minimum
check_minimum-IsChildError i budget Option.none e h = absurd (ground (arith, h))
check_minimum-IsChildError i budget (Option.some lo) e h =
    (if-elim (λ r. r ≡ err e → IsChildError e) (ltb budget lo)
        (λ h. subst IsChildError (err_inj h) tt) (λ h. absurd (ground (arith, h))))
      h

check_restriction-IsChildError :
    (i budget : ℕ) (r : TaskCountRestriction) (e : SplitError)
    → check_restriction i budget r ≡ err e
    → IsChildError e
unfolding check_restriction
check_restriction-IsChildError i budget (exact n) e h =
    (if-elim (λ r. r ≡ err e → IsChildError e) (ltb budget n)
        (λ h. subst IsChildError (err_inj h) tt)
        (check_minimum-IsChildError i budget (get_min (exact n)) e))
      h
check_restriction-IsChildError i budget TaskCount.none e h =
    check_minimum-IsChildError i budget (get_min TaskCount.none) e h
check_restriction-IsChildError i budget (TaskCount.min lo) e h =
    check_minimum-IsChildError i budget (get_min (TaskCount.min lo)) e h
check_restriction-IsChildError i budget (TaskCount.max hi) e h =
    check_minimum-IsChildError i budget (get_min (TaskCount.max hi)) e h
check_restriction-IsChildError i budget (TaskCount.range lo hi) e h =
    check_minimum-IsChildError i budget (get_min (TaskCount.range lo hi)) e h

pub if_false {ℓ} : {A : Type ℓ} (b : Bool) (x y : A) → b ≡ false → (if b then x else y) ≡ y
if_false true x y e = absurd (ground (arith, e))
if_false false x y e = refl

module _ (f : Float) where
  check_estimate-IsChildError :
      (i : ℕ) (soft : f.F) (e : SplitError) → check_estimate f i soft ≡ err e → IsChildError e
  unfolding check_estimate
  check_estimate-IsChildError i soft e =
      if-elim (λ r. r ≡ err e → IsChildError e) (f.lt soft f.zero)
        (λ h. subst IsChildError (err_inj h) tt)
        (if-elim (λ r. r ≡ err e → IsChildError e) (not (f.is_finite soft))
          (λ h. subst IsChildError (err_inj h) tt) (λ h. absurd (ground (arith, h))))

  check_children-IsChildError :
      (i budget : ℕ) (as' : List (TaskCountAnnotation f)) (e : SplitError)
      → check_children f i budget as' ≡ err e
      → IsChildError e
  unfolding check_children
  check_children-IsChildError i budget [] e h = absurd (ground (arith, h))
  check_children-IsChildError i budget (a ∷ as') e h =
      elim (bind-err (check_restriction i budget a.restriction) _ e h) [
        | inl q ↦ check_restriction-IsChildError i budget a.restriction e q
        | inr (u, e1, k1) ↦ elim (bind-err (check_estimate f i a.soft) _ e k1) [
          | inl q ↦ check_estimate-IsChildError i a.soft e q
          | inr (v, e2, k2) ↦ check_children-IsChildError (suc i) budget as' e k2
        ]
      ]

  pub split_children-IsChildError :
      (as' : List (TaskCountAnnotation f)) (budget : ℕ) (e : SplitError)
      → 0 < budget
      → 0 < length as'
      → split_children f as' budget ≡ err e
      → IsChildError e
  unfolding split_children
  split_children-IsChildError as' budget e p q h =
      let k =
        sym (
          if_false (budget == 0) _ _ (ground arith) ∙ if_false (length as' == 0) _ _ (ground arith))
        ∙ h in
      elim (bind-err (check_children f 0 budget as') _ e k) [
        | inl q ↦ check_children-IsChildError 0 budget as' e q
        | inr (u, e1, k1) ↦ absurd (ground (arith, k1))
      ]
