-- ===== src/Planner/Errors/Propagated.antt =====
-- `propagate` fails only as expected where counts are valid.
use datafusion_distributed.Prelude.{
  ℕ, ◌≡◌, subst, inl, inr, List, [], ◌∷◌, All, Option, Result, ok, err, bind-err, map_err,
  map_err-err, err_inj, if-elim, arith,
}
use datafusion_distributed.TaskCount.Annotation.{as_usize}
use datafusion_distributed.Boundary.Partitioning.{
  Partitioning, hash, round_robin_batch, unknown_partitioning, range,
}
use datafusion_distributed.Boundary.Shuffle.{direct, two_phase, producer_salt_default}
use datafusion_distributed.Planner.{
  Base, Session, Count, Operator, NetworkBoundary, network_shuffle, network_broadcast,
  network_coalesce, Plan, Staged, placed, boundary, Stageds, none, more, counts, PlannerError,
  library,
}
use datafusion_distributed.Planner.Propagate.{
  rebuild, allocate, scaled, fans_out, to_two_phase, at_boundary, propagate, propagate_all,
}
use datafusion_distributed.Planner.Errors.{IsExpected, IsValidCount, Valid, AllValid}
use datafusion_distributed.Planner.Errors.Allocated.{allocate-IsExpected, allocate-IsValid}
use datafusion_distributed.Planner.Errors.Rebuilt.{rebuild-IsExpected, allocated-BuiltOver}

module _ (b : Base) (s : Session b) where
  open b use {f, api, D, E}

  to_two_phase-IsExpected :
      (t : Count b) (p : Partitioning api.E api.R) (n : ℕ) (input : Staged b) (x : PlannerError E)
      → to_two_phase b s t p n input ≡ err x
      → IsExpected x
  unfolding to_two_phase IsExpected
  to_two_phase-IsExpected t p n input x e =
      let shuffle = boundary (network_shuffle (two_phase producer_salt_default) p) t n input in
      elim (bind-err (map_err library (s.try_repartition p shuffle)) _ x e) [
        | inl q ↦ subst IsExpected (map_err-err library (s.try_repartition p shuffle) x q).1 tt
        | inr (d, e1, e2) ↦ absurd (ground (arith, e2))
      ]

  at_boundary-IsExpected :
      (nb : NetworkBoundary b) (t : Count b) (n : ℕ) (input : Staged b) (x : PlannerError E)
      → at_boundary b s nb t n input ≡ err x
      → IsExpected x
  unfolding at_boundary
  at_boundary-IsExpected (network_shuffle direct (hash es k)) t n input x e =
      (if-elim (λ y. y ≡ err x → IsExpected x) (fans_out b s t (hash es k))
          (to_two_phase-IsExpected t (hash es k) n input x) (λ e. absurd (ground (arith, e))))
        e
  at_boundary-IsExpected network_broadcast t n input x e = absurd (ground (arith, e))
  at_boundary-IsExpected network_coalesce t n input x e = absurd (ground (arith, e))
  at_boundary-IsExpected (network_shuffle (two_phase salt) p) t n input x e =
      absurd (ground (arith, e))
  at_boundary-IsExpected (network_shuffle direct (round_robin_batch k)) t n input x e =
      absurd (ground (arith, e))
  at_boundary-IsExpected (network_shuffle direct (unknown_partitioning k)) t n input x e =
      absurd (ground (arith, e))
  at_boundary-IsExpected (network_shuffle direct (range q)) t n input x e =
      absurd (ground (arith, e))

  scaled-IsExpected :
      (op : Operator b) (d : D) (t : Count b) (o : Option (Result E (Plan b))) (x : PlannerError E)
      → scaled b s op d t o ≡ err x
      → IsExpected x
  unfolding scaled IsExpected
  scaled-IsExpected op d t Option.none x e = absurd (ground (arith, e))
  scaled-IsExpected op d t (Option.some (err y)) x e = subst IsExpected (err_inj e) tt
  scaled-IsExpected op d t (Option.some (ok p)) x e = absurd (ground (arith, e))

  mutual
    unfolding propagate Valid counts

    pub propagate-IsExpected :
        (t : Count b) (p : Staged b) (x : PlannerError E)
        → IsValidCount b t
        → Valid b p
        → propagate b s t p ≡ err x
        → IsExpected x
    propagate-IsExpected t (boundary nb u n input) x v w e = at_boundary-IsExpected nb t n input x e
    propagate-IsExpected t (placed op d u none) x v w e =
        scaled-IsExpected op d t (s.scale_up op d (as_usize f t)) x e
    propagate-IsExpected t (placed op d u (more c cs)) x v (w, ws) e =
        elim (bind-err (allocate b s op t (more c cs)) _ x e) [
          | inl q ↦ allocate-IsExpected b s op t (more c cs) x v ws (omega arith) q
          | inr (a, e1, k1) ↦ elim (bind-err (propagate_all b s a.1 (more c cs)) _ x k1) [
            | inl q ↦
                propagate_all-IsExpected a.1 (more c cs) x
                  (allocate-IsValid b s op t (more c cs) a v e1) ws q
            | inr (cs', e2, k2) ↦ elim (bind-err (rebuild b s a.0 d cs') _ x k2) [
              | inl q ↦
                  rebuild-IsExpected b s a.0 d cs' x
                    (allocated-BuiltOver b s op t (more c cs) cs' a e1 e2) q
              | inr (r, e3, k3) ↦ absurd (ground (arith, k3))
            ]
          ]
        ]

    propagate_all-IsExpected :
        (ts : List (Count b)) (cs : Stageds b) (x : PlannerError E)
        → All (IsValidCount b) ts
        → AllValid b cs
        → propagate_all b s ts cs ≡ err x
        → IsExpected x
    propagate_all-IsExpected ts none x vs ws e = absurd (ground (arith, e))
    propagate_all-IsExpected [] (more c cs) x vs ws e = absurd (ground (arith, e))
    propagate_all-IsExpected (t ∷ ts) (more c cs) x (v, vs) (w, ws) e =
        elim (bind-err (propagate b s t c) _ x e) [
          | inl q ↦ propagate-IsExpected t c x v w q
          | inr (c', e1, k1) ↦ elim (bind-err (propagate_all b s ts cs) _ x k1) [
            | inl q ↦ propagate_all-IsExpected ts cs x vs ws q
            | inr (cs', e2, k2) ↦ absurd (ground (arith, k2))
          ]
        ]
