-- ===== src/Filters/Completion.antt =====
-- When the producers of a dynamic filter are complete, apart from the code of
-- src/coordinator/dynamic_filter_registry.rs that tests it.
use datafusion_distributed.Prelude.{
  ℕ, ◌≡◌, ◌≢◌, ◌↔◌, ◌⊎◌, inl, inr, true, not, refl, List, [], ◌∷◌, Option, none, some, All, ◌==◌,
  ◌&&◌, Bool-cases, ==→eq, arith,
}
use datafusion_distributed.Filters.Merge.{
  TaskKey, Expressions, any, all, Report, PlannedDynamicFilter, report_complete, producers_complete,
  is_empty, all_complete,
}

-- The stage is among the sealed ones.
abbrev pub IsSealed : ℕ → List ℕ → Type 0
IsSealed stage [] = ⊥
IsSealed stage (s ∷ sealed) = (s ≡ stage) ⊎ IsSealed stage sealed

any-IsSealed :
    (stage : ℕ) (sealed : List ℕ) → any (λ s. s == stage) sealed ≡ true → IsSealed stage sealed
unfolding any
any-IsSealed stage [] h = absurd (ground (arith, h))
any-IsSealed stage (s ∷ sealed) h = elim (Bool-cases (s == stage)) [
  | inl q ↦ inl (==→eq s stage q)
  | inr q ↦ inr (any-IsSealed stage sealed (ground (arith, q, h)))
]

IsSealed-any :
    (stage : ℕ) (sealed : List ℕ) → IsSealed stage sealed → any (λ s. s == stage) sealed ≡ true
unfolding any
IsSealed-any stage [] h = absurd h
IsSealed-any stage (s ∷ sealed) (inl e) = ground (arith, e)
IsSealed-any stage (s ∷ sealed) (inr k) = ground (arith, IsSealed-any stage sealed k)

module _ (x : Expressions) where
  -- The producer has sent a report, and that is complete.
  abbrev pub HasFinished : Option (Report x) → Type 0
  HasFinished none = ⊥
  HasFinished (some r) = r.is_complete ≡ true

  -- There are producers, and each of them is a task of a sealed stage and has sent a complete report.
  abbrev pub Completed : List ℕ → List (TaskKey × Option (Report x)) → Type 0
  Completed sealed ps = (ps ≢ []) × All (λ p. IsSealed p.0.stage_id sealed × HasFinished p.1) ps

  producers-Completed :
      (sealed : List ℕ) (ps : List (TaskKey × Option (Report x)))
      → producers_complete x sealed ps ≡ true
      → All (λ p. IsSealed p.0.stage_id sealed × HasFinished p.1) ps
  unfolding producers_complete all report_complete
  producers-Completed sealed [] h = tt
  producers-Completed sealed ((k, none) ∷ ps) h = absurd (ground (arith, h))
  producers-Completed sealed ((k, some r) ∷ ps) h = (
    (any-IsSealed k.stage_id sealed (ground (arith, h)), ground (arith, h)),
    producers-Completed sealed ps (ground (arith, h)),
  )

  Completed-producers :
      (sealed : List ℕ) (ps : List (TaskKey × Option (Report x)))
      → All (λ p. IsSealed p.0.stage_id sealed × HasFinished p.1) ps
      → producers_complete x sealed ps ≡ true
  unfolding producers_complete all report_complete
  Completed-producers sealed [] h = ground arith
  Completed-producers sealed ((k, none) ∷ ps) h = absurd h.0.1
  Completed-producers sealed ((k, some r) ∷ ps) ((s, c), h) =
      ground (arith, c, IsSealed-any k.stage_id sealed s, Completed-producers sealed ps h)

  pub all_complete-Completed :
      (sealed : List ℕ) (f : PlannedDynamicFilter x)
      → (all_complete x sealed f ≡ true) ↔ Completed sealed f.producers
  unfolding all_complete
  all_complete-Completed sealed f = both f.producers
    where
      both :
          (ps : List (TaskKey × Option (Report x)))
          → (not (is_empty x ps) && producers_complete x sealed ps ≡ true) ↔ Completed sealed ps
      both [] = (λ h. absurd (ground (arith, h)), λ h. absurd (h.0 refl))
      both (p ∷ ps) = (
        λ h. (cc, producers-Completed sealed (p ∷ ps) h),
        λ h. Completed-producers sealed (p ∷ ps) h.1,
      )
