-- ===== src/Planner/Stages/Propagated.antt =====
-- `propagate` gives a stage its count.
use datafusion_distributed.Prelude.{
  ℕ, ◌≡◌, refl, sym, subst, ◌∙◌, Bool, List, [], ◌∷◌, Option, Result, ok, err, map_err, bind-ok,
  ok_inj, All, arith, if-elim,
}
use datafusion_distributed.TaskCount.Annotation.{as_usize}
use datafusion_distributed.Boundary.Partitioning.{
  hash, round_robin_batch, unknown_partitioning, range, Partitioning,
}
use datafusion_distributed.Boundary.Shuffle.{direct, two_phase, producer_salt_default}
use datafusion_distributed.Planner.{
  Base, Session, Count, Operator, NetworkBoundary, network_shuffle, network_broadcast,
  network_coalesce, Plan, Staged, placed, boundary, Stageds, none, more, as_union, PlannerError,
  library,
}
use datafusion_distributed.Planner.Propagate.{
  rebuild, allocate, scaled, fans_out, to_two_phase, at_boundary, propagate, propagate_all,
}
use datafusion_distributed.Planner.Stages.{
  is_union, Settled, Uniform, Below, Sealed, AllSealed, Plain,
}
use datafusion_distributed.Planner.Stages.Given.{
  Gives, more-Below, none-Below, record_counts-Uniform, allocate-Gives, rebuild-is_union,
}

module _ (b : Base) (s : Session b) where
  open b use {f, api, D, E}

  boundary-Uniform :
      (nb : NetworkBoundary b) (t : Count b) (tasks : ℕ) (input r : Staged b)
      → Settled b s tasks input
      → ◌≡◌ {A = Result (PlannerError E) (Staged b)} (ok (boundary nb t tasks input)) (ok r)
      → Uniform b s t r
  unfolding Uniform
  boundary-Uniform nb t tasks input r h e = subst (Uniform b s t) (ok_inj e) (refl, h)

  to_two_phase-Uniform :
      (t : Count b) (p : Partitioning api.E api.R) (tasks : ℕ) (input r : Staged b)
      → Settled b s tasks input
      → to_two_phase b s t p tasks input ≡ ok r
      → Uniform b s t r
  unfolding to_two_phase Uniform Below is_union as_union
  to_two_phase-Uniform t p tasks input r h e =
      let shuffle = boundary (network_shuffle (two_phase producer_salt_default) p) t tasks input in
      let (d, e1, e2) = bind-ok (map_err library (s.try_repartition p shuffle)) _ r e in
      subst (Uniform b s t) (ok_inj e2) (refl, ((refl, h), tt))

  at_boundary-Uniform :
      (nb : NetworkBoundary b) (t : Count b) (tasks : ℕ) (input r : Staged b)
      → Settled b s tasks input
      → at_boundary b s nb t tasks input ≡ ok r
      → Uniform b s t r
  unfolding at_boundary
  at_boundary-Uniform (network_shuffle direct (hash es n)) t tasks input r h =
      if-elim (λ x. x ≡ ok r → Uniform b s t r) (fans_out b s t (hash es n))
        (to_two_phase-Uniform t (hash es n) tasks input r h) (boundary-Uniform _ t tasks input r h)
  at_boundary-Uniform network_broadcast t tasks input r h = boundary-Uniform _ t tasks input r h
  at_boundary-Uniform network_coalesce t tasks input r h = boundary-Uniform _ t tasks input r h
  at_boundary-Uniform (network_shuffle (two_phase salt) p) t tasks input r h =
      boundary-Uniform _ t tasks input r h
  at_boundary-Uniform (network_shuffle direct (round_robin_batch n)) t tasks input r h =
      boundary-Uniform _ t tasks input r h
  at_boundary-Uniform (network_shuffle direct (unknown_partitioning n)) t tasks input r h =
      boundary-Uniform _ t tasks input r h
  at_boundary-Uniform (network_shuffle direct (range q)) t tasks input r h =
      boundary-Uniform _ t tasks input r h

-- Handlers that put a plan without unions in the place of a leaf.
abbrev pub IsPlain : (b : Base) → Session b → Type 0
IsPlain b s =
    (op : Operator b) (d : b.D) (n : ℕ) (p : Plan b)
    → s.scale_up op d n ≡ Option.some (ok p)
    → Plain b s p

module _ (b : Base) (s : Session b) (plain : IsPlain b s) where
  open b use {f, api, D, E}

  scaled-Uniform :
      (op : Operator b) (d : D) (t : Count b) (o : Option (Result E (Plan b))) (r : Staged b)
      → s.scale_up op d (as_usize f t) ≡ o
      → scaled b s op d t o ≡ ok r
      → Uniform b s t r
  unfolding scaled Uniform
  scaled-Uniform op d t Option.none r p e =
      subst (Uniform b s t) (ok_inj e) (refl, none-Below b s t (is_union b s op))
  scaled-Uniform op d t (Option.some (err x)) r p e = absurd (ground (arith, e))
  scaled-Uniform op d t (Option.some (ok q)) r p e =
      subst (Uniform b s t) (ok_inj e)
        (record_counts-Uniform b s t q (plain op d (as_usize f t) q p))

  mutual
    unfolding propagate Sealed Uniform

    -- A plan whose lower stages are settled becomes a stage with the count that is propagated.
    pub propagate-Uniform :
        (t : Count b) (p r : Staged b) → Sealed b s p → propagate b s t p ≡ ok r → Uniform b s t r
    propagate-Uniform t (boundary nb u tasks input) r h e =
        at_boundary-Uniform b s nb t tasks input r h e
    propagate-Uniform t (placed op d u none) r h e =
        scaled-Uniform op d t (s.scale_up op d (as_usize f t)) r refl e
    propagate-Uniform t (placed op d u (more c cs)) r h e =
        let (a, e1, k1) = bind-ok (allocate b s op t (more c cs)) _ r e in
        let (cs', e2, k2) = bind-ok (propagate_all b s a.1 (more c cs)) _ r k1 in
        let (q, e3, k3) = bind-ok (rebuild b s a.0 d cs') _ r k2 in
        let g = allocate-Gives b s op t (more c cs) a e1 in
        subst (Uniform b s t) (ok_inj k3) (
          refl,
          subst (λ u. Below b s t u cs') (sym (rebuild-is_union b s a.0 d cs' q e3 ∙ g.1))
              (propagate_all-Below t (is_union b s op) a.1 (more c cs) cs' g.0 h e2),
        )

    propagate_all-Below :
        (t : Count b) (isolates : Bool) (ts : List (Count b)) (cs cs' : Stageds b)
        → All (Gives b s t isolates) ts
        → AllSealed b s cs
        → propagate_all b s ts cs ≡ ok cs'
        → Below b s t isolates cs'
    propagate_all-Below t i ts none cs' g h e =
        subst (Below b s t i) (ok_inj e) (none-Below b s t i)
    propagate_all-Below t i [] (more c cs) cs' g h e =
        subst (Below b s t i) (ok_inj e) (none-Below b s t i)
    propagate_all-Below t i (u ∷ ts) (more c cs) cs' (g, gs) (h, hs) e =
        let (c', e1, k1) = bind-ok (propagate b s u c) _ cs' e in
        let (rest, e2, k2) = bind-ok (propagate_all b s ts cs) _ cs' k1 in
        subst (Below b s t i) (ok_inj k2) (
          more-Below b s t u i c' rest g (propagate-Uniform u c c' h e1)
            (propagate_all-Below t i ts cs rest gs hs e2))
