-- ===== src/Planner/Placement/Closed.antt =====
-- `propagate` closes a stage and leaves its boundaries where they are.
use datafusion_distributed.Prelude.{
  ℕ, suc, ◌≡◌, refl, sym, ap, subst, ◌∙◌, Bool, true, false, List, [], ◌∷◌, Option, Result, ok,
  bind-ok, ok_inj, map_err, length, if-elim, arith,
}
use datafusion_distributed.Boundary.Partitioning.{
  Partitioning, hash, round_robin_batch, unknown_partitioning, range,
}
use datafusion_distributed.Boundary.Shuffle.{direct, two_phase, producer_salt_default}
use datafusion_distributed.Planner.{
  Base, Session, Count, Operator, NetworkBoundary, network_shuffle, network_broadcast,
  network_coalesce, Plan, node, Plans, nil, cons, Staged, placed, boundary, Stageds, none, more,
  counts, PlannerError, library,
}
use datafusion_distributed.Planner.Propagate.{
  fans_out, to_two_phase, at_boundary, allocate, rebuild, propagate, propagate_all,
}
use datafusion_distributed.Planner.Placement.{Over, Leaf, wanted, At, Cut, Kept, CutAll}
use datafusion_distributed.Planner.Placement.Operators.{rebuild-Alike, allocate_lem}

module _ (b : Base) (s : Session b) where
  open b use {f, api, D, E}

  boundary-Over :
      (nb : NetworkBoundary b) (t : Count b) (n : ℕ) (input r : Staged b) (P : Staged b → Type 0)
      → P input
      → ◌≡◌ {A = Result (PlannerError E) (Staged b)} (ok (boundary nb t n input)) (ok r)
      → Over b s true nb P r
  unfolding Over
  boundary-Over nb t n input r P h e = subst (Over b s true nb P) (ok_inj e) (refl, h)

  to_two_phase-Over :
      (t : Count b) (es : List api.E) (k n : ℕ) (input r : Staged b) (P : Staged b → Type 0)
      → P input
      → to_two_phase b s t (hash es k) n input ≡ ok r
      → Over b s true (network_shuffle direct (hash es k)) P r
  unfolding to_two_phase Over
  to_two_phase-Over t es k n input r P h e =
      let p : Partitioning api.E api.R = hash es k in
      let shuffle = boundary (network_shuffle (two_phase producer_salt_default) p) t n input in
      let (d, e1, e2) = bind-ok (map_err library (s.try_repartition p shuffle)) _ r e in
      subst (Over b s true (network_shuffle direct p) P) (ok_inj e2) (es, k, refl, refl, refl, h)

  at_boundary-Over :
      (nb : NetworkBoundary b) (t : Count b) (n : ℕ) (input r : Staged b) (P : Staged b → Type 0)
      → P input
      → at_boundary b s nb t n input ≡ ok r
      → Over b s true nb P r
  unfolding at_boundary
  at_boundary-Over (network_shuffle direct (hash es k)) t n input r P h =
      if-elim (λ x. x ≡ ok r → Over b s true (network_shuffle direct (hash es k)) P r)
        (fans_out b s t (hash es k)) (to_two_phase-Over t es k n input r P h)
        (boundary-Over _ t n input r P h)
  at_boundary-Over network_broadcast t n input r P h = boundary-Over _ t n input r P h
  at_boundary-Over network_coalesce t n input r P h = boundary-Over _ t n input r P h
  at_boundary-Over (network_shuffle (two_phase salt) p) t n input r P h =
      boundary-Over _ t n input r P h
  at_boundary-Over (network_shuffle direct (round_robin_batch k)) t n input r P h =
      boundary-Over _ t n input r P h
  at_boundary-Over (network_shuffle direct (unknown_partitioning k)) t n input r P h =
      boundary-Over _ t n input r P h
  at_boundary-Over (network_shuffle direct (range q)) t n input r P h =
      boundary-Over _ t n input r P h

  propagate-Over :
      (nb : NetworkBoundary b) (t : Count b) (r r' : Staged b) (P : Staged b → Type 0)
      → Over b s false nb P r
      → propagate b s t r ≡ ok r'
      → Over b s true nb P r'
  unfolding Over propagate
  propagate-Over nb t (placed op d u cs) r' P h e = absurd h
  propagate-Over nb t (boundary nb' u n input) r' P (q, h) e =
      subst (λ nb. Over b s true nb P r') q (at_boundary-Over nb' t n input r' P h e)

  propagate-At :
      (g : Option (NetworkBoundary b)) (t : Count b) (r r' : Staged b)
      (K : Bool → Staged b → Type 0)
      → ((x y : Staged b) → K false x → propagate b s t x ≡ ok y → K true y)
      → At b s g false K r
      → propagate b s t r ≡ ok r'
      → At b s g true K r'
  unfolding At
  propagate-At (Option.some nb) t r r' K step h e = propagate-Over nb t r r' (K true) h e
  propagate-At Option.none t r r' K step h e = step r r' h e

  -- The parts of a list of children that have counts.
  record Parts (ts : List (Count b)) (c : Staged b) (cs cs' : Stageds b) : Type 0 where
    head : Count b
    tail : List (Count b)
    child : Staged b
    rest : Stageds b
    count_lengths : length tail ≡ length (counts b cs)
    propagated : propagate b s head c ≡ ok child
    propagated_all : propagate_all b s tail cs ≡ ok rest
    result : cs' ≡ more child rest

  parts :
      (ts : List (Count b)) (c : Staged b) (cs cs' : Stageds b)
      → length ts ≡ suc (length (counts b cs))
      → propagate_all b s ts (more c cs) ≡ ok cs'
      → Parts ts c cs cs'
  unfolding propagate_all
  parts [] c cs cs' l e = absurd (omega (arith, l))
  parts (t ∷ ts) c cs cs' l e =
      let (c', e1, k1) = bind-ok (propagate b s t c) _ cs' e in
      let (rest, e2, k2) = bind-ok (propagate_all b s ts cs) _ cs' k1 in
      record {
        head = t;
        tail = ts;
        child = c';
        rest = rest;
        count_lengths = omega (arith, l);
        propagated = e1;
        propagated_all = e2;
        result = sym (ok_inj k2);
      }

  mutual
    unfolding Cut propagate Leaf counts

    pub propagate-Cut :
        (t : Count b) (parent : Option (Operator b)) (p : Plan b) (r r' : Staged b)
        → Cut b s false parent p r
        → propagate b s t r ≡ ok r'
        → Cut b s true parent p r'
    propagate-Cut t parent (node op d ps) r r' h e =
        propagate-At (wanted b s parent op) t r r' (λ c x. Kept b s c op ps x)
          (λ x y k q. propagate-Kept t op ps x y k q) h e

    pub propagate-Kept :
        (t : Count b) (op : Operator b) (ps : Plans b) (r r' : Staged b)
        → Kept b s false op ps r
        → propagate b s t r ≡ ok r'
        → Kept b s true op ps r'
    propagate-Kept t op nil r r' (op', d, u, k, q) e =
        (op', d, t, k, sym (ap (λ r. propagate b s t r) q) ∙ e)
    propagate-Kept t op (cons p ps) (boundary nb u n input) r' h e = absurd h
    propagate-Kept t op (cons p ps) (placed op' d u none) r' h e = absurd h
    propagate-Kept t op (cons p ps) (placed op' d u (more c cs)) r' (k, h, hs) e =
        let (a, e1, k1) = bind-ok (allocate b s op' t (more c cs)) _ r' e in
        let (cs', e2, k2) = bind-ok (propagate_all b s a.1 (more c cs)) _ r' k1 in
        let (q, e3, k3) = bind-ok (rebuild b s a.0 d cs') _ r' k2 in
        let (alike, l) = allocate_lem b s op' t (more c cs) a e1 in
        let ms = parts a.1 c cs cs' l e2 in
        subst (Kept b s true op (cons p ps)) (ok_inj k3) (
          subst (λ x. Kept b s true op (cons p ps) (placed q.0 q.1 t x)) (sym ms.result)
            (
              (rebuild-Alike b s a.0 d cs' q e3).0 ∙ alike.0 ∙ k,
              propagate-Cut ms.head (Option.some op) p c ms.child h ms.propagated,
              propagate_all-CutAll ms.tail op ps cs ms.rest ms.count_lengths hs ms.propagated_all,
            ))

    propagate_all-CutAll :
        (ts : List (Count b)) (op : Operator b) (ps : Plans b) (cs cs' : Stageds b)
        → length ts ≡ length (counts b cs)
        → CutAll b s false op ps cs
        → propagate_all b s ts cs ≡ ok cs'
        → CutAll b s true op ps cs'
    propagate_all-CutAll ts op nil none cs' l h e = subst (CutAll b s true op nil) (ok_inj e) tt
    propagate_all-CutAll ts op nil (more c cs) cs' l h e = absurd h
    propagate_all-CutAll ts op (cons p ps) none cs' l h e = absurd h
    propagate_all-CutAll ts op (cons p ps) (more c cs) cs' l (h, hs) e =
        let ms = parts ts c cs cs' l e in
        subst (CutAll b s true op (cons p ps)) (sym ms.result) (
          propagate-Cut ms.head (Option.some op) p c ms.child h ms.propagated,
          propagate_all-CutAll ms.tail op ps cs ms.rest ms.count_lengths hs ms.propagated_all,
        )
