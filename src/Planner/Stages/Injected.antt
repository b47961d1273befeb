-- ===== src/Planner/Stages/Injected.antt =====
-- `inject` makes settled stages.
use datafusion_distributed.Prelude.{
  ℕ, ◌≡◌, refl, sym, ap, subst, ◌∙◌, ◌⊎◌, inl, inr, Bool, true, false, Option, ok, bind-ok, ok_inj,
  arith,
}
use datafusion_distributed.TaskCount.{get_min}
use datafusion_distributed.TaskCount.Annotation.{as_usize}
use datafusion_distributed.Boundary.Partitioning.{
  hash, round_robin_batch, unknown_partitioning, range,
}
use datafusion_distributed.Planner.{
  Base, Session, Count, Operator, isolator_union, hash_join, nested_loop_join, repartition,
  cross_join, broadcast, coalesce_partitions, sort_preserving_merge, other, NetworkBoundary, Plan,
  node, Plans, nil, cons, Staged, placed, boundary, Stageds, none, more, count_of, counts,
}
use datafusion_distributed.Planner.Propagate.{propagate, rebuild}
use datafusion_distributed.Planner.Inject.{
  Edge, crosses, root, inside, edge, max_tasks, required_above, capped, reconciled, consumer_count,
  check_coalesce, cross, close, inject, inject_all,
}
use datafusion_distributed.Planner.Stages.{
  Within, Capped, exactly, is_union, Settled, Uniform, Below, Sealed, AllSealed,
}
use datafusion_distributed.Planner.Stages.Propagated.{IsPlain, propagate-Uniform}

module _ (b : Base) (s : Session b) where
  open b use {f, api, D, E}

  required_above-Within :
      (m : ℕ) (lo : Option ℕ) (u : Unit {0}) → required_above b s m lo ≡ ok u → Within lo m
  unfolding required_above
  required_above-Within m Option.none u e = tt
  required_above-Within m (Option.some lo) u e = ground (arith, e)

  capped-Capped : (t u : Count b) → capped b s t ≡ ok u → Capped b s u
  unfolding capped
  capped-Capped t u e =
      let (m, e1, k1) = bind-ok (max_tasks b s) _ u e in
      let (v, e2, k2) = bind-ok (required_above b s m (get_min t.restriction)) _ u k1 in
      subst (Capped b s) (ok_inj k2) (record {
        most = m;
        most_is = e1;
        required = required_above-Within m (get_min t.restriction) v e2;
        estimate = t.soft;
        soft_is = refl;
      })

  Uniform-Settled :
      (t : Count b) (r : Staged b) → Capped b s t → Uniform b s t r → Settled b s (as_usize f t) r
  unfolding Uniform
  Uniform-Settled t (placed op d u cs) c (e, h) = (
    ap (as_usize f) (sym e),
    subst (Capped b s) (sym e) c,
    subst (λ t. Below b s t (is_union b s op) cs) (sym e) h,
  )
  Uniform-Settled t (boundary nb u tasks input) c (e, h) =
      (ap (as_usize f) (sym e), subst (Capped b s) (sym e) c, h)

  mutual
    unfolding Uniform Sealed

    Uniform-Sealed : (t : Count b) (r : Staged b) → Uniform b s t r → Sealed b s r
    Uniform-Sealed t (placed op d u cs) (e, h) = Below-AllSealed t (is_union b s op) cs h
    Uniform-Sealed t (boundary nb u tasks input) (e, h) = h

    Below-AllSealed :
        (t : Count b) (i : Bool) (cs : Stageds b) → Below b s t i cs → AllSealed b s cs
    Below-AllSealed t i none h = tt
    Below-AllSealed t true (more c cs) ((n, p, h), k) =
        (Uniform-Sealed (exactly b s t.soft n) c h, Below-AllSealed t true cs k)
    Below-AllSealed t false (more c cs) (h, k) =
        (Uniform-Sealed t c h, Below-AllSealed t false cs k)

module _ (b : Base) (s : Session b) (plain : IsPlain b s) where
  open b use {f, api, D, E}

  -- The boundary over a stage, with any count of its own.
  cross-Sealed :
      (nb : NetworkBoundary b) (p r : Staged b)
      → Capped b s (count_of b p)
      → Sealed b s p
      → cross b s nb p ≡ ok r
      → Uniform b s (count_of b r) r
  unfolding cross Uniform count_of
  cross-Sealed nb p r c h e =
      let (input, e1, k1) = bind-ok (propagate b s (count_of b p) p) _ r e in
      let (u, e2, k2) =
        bind-ok (check_coalesce b s nb (consumer_count b s nb (count_of b p) input)) _ r k1 in
      subst (λ r. Uniform b s (count_of b r) r) (ok_inj k2)
        (
          refl,
          Uniform-Settled b s (count_of b p) input c
              (propagate-Uniform b s plain (count_of b p) p input h e1),
        )

  Uniform-count_of : (t : Count b) (r : Staged b) → Uniform b s t r → Uniform b s (count_of b r) r
  unfolding Uniform count_of
  Uniform-count_of t (placed op d u cs) (e, h) =
      (refl, subst (λ t. Below b s t (is_union b s op) cs) (sym e) h)
  Uniform-count_of t (boundary nb u tasks input) (e, h) = (refl, h)

  close-Sealed :
      (g : Edge b) (p r : Staged b)
      → Capped b s (count_of b p)
      → Sealed b s p
      → close b s g p ≡ ok r
      → Sealed b s r
  unfolding close
  close-Sealed (crosses nb) p r c h e =
      Uniform-Sealed b s (count_of b r) r (cross-Sealed nb p r c h e)
  close-Sealed root p r c h e =
      Uniform-Sealed b s (count_of b p) r (propagate-Uniform b s plain (count_of b p) p r h e)
  close-Sealed inside p r c h e = subst (Sealed b s) (ok_inj e) h

  mutual
    unfolding inject Sealed count_of

    inject-Sealed :
        (parent : Option (Operator b)) (p : Plan b) (r : Staged b)
        → inject b s parent p ≡ ok r
        → Sealed b s r
    inject-Sealed parent (node op d ps) r e =
        let (cs, e1, k1) = bind-ok (inject_all b s op ps) _ r e in
        let (t, e2, k2) = bind-ok (reconciled b s op d ps (counts b cs)) _ r k1 in
        let (q, e3, k3) = bind-ok (rebuild b s op d cs) _ r k2 in
        let (u, e4, k4) = bind-ok (capped b s t) _ r k3 in
        close-Sealed (edge b parent q.0) (placed q.0 q.1 u cs) r (capped-Capped b s t u e4)
          (inject_all-AllSealed op ps cs e1) k4

    inject_all-AllSealed :
        (parent : Operator b) (ps : Plans b) (cs : Stageds b)
        → inject_all b s parent ps ≡ ok cs
        → AllSealed b s cs
    inject_all-AllSealed parent nil cs e = subst (AllSealed b s) (ok_inj e) tt
    inject_all-AllSealed parent (cons p ps) cs e =
        let (c, e1, k1) = bind-ok (inject b s (Option.some parent) p) _ cs e in
        let (rest, e2, k2) = bind-ok (inject_all b s parent ps) _ cs k1 in
        subst (AllSealed b s) (ok_inj k2)
          (inject-Sealed (Option.some parent) p c e1, inject_all-AllSealed parent ps rest e2)

  -- Over the root of a plan there is a boundary or nothing.
  edge_of_root :
      (op : Operator b)
      → (edge b Option.none op ≡ root)
        ⊎ ((nb : NetworkBoundary b) × (edge b Option.none op ≡ crosses nb))
  unfolding edge
  edge_of_root broadcast = inr (_, refl)
  edge_of_root (repartition (hash es n)) = inr (_, refl)
  edge_of_root (repartition (range r)) = inr (_, refl)
  edge_of_root (isolator_union n) = inl refl
  edge_of_root (hash_join l a t) = inl refl
  edge_of_root (nested_loop_join t) = inl refl
  edge_of_root cross_join = inl refl
  edge_of_root coalesce_partitions = inl refl
  edge_of_root sort_preserving_merge = inl refl
  edge_of_root other = inl refl
  edge_of_root (repartition (round_robin_batch n)) = inl refl
  edge_of_root (repartition (unknown_partitioning n)) = inl refl

  close_root :
      (op : Operator b) (p r : Staged b)
      → Capped b s (count_of b p)
      → Sealed b s p
      → close b s (edge b Option.none op) p ≡ ok r
      → Uniform b s (count_of b r) r
  unfolding close
  close_root op p r c h e = elim (edge_of_root op) [
    | inl q ↦
        Uniform-count_of (count_of b p) r
          (propagate-Uniform b s plain (count_of b p) p r h (sym (ap (λ g. close b s g p) q) ∙ e))
    | inr (nb, q) ↦ cross-Sealed nb p r c h (sym (ap (λ g. close b s g p) q) ∙ e)
  ]

  -- When the handlers put plans without unions in the place of leaves, in a plan that is returned each
  -- node has the count of its stage, but that each child of a union has an exact positive count of its
  -- own; each stage below a boundary runs as many tasks as the count of its root says, which requires
  -- at most the configured number of tasks and has its estimate cut to that number.
  pub stages_settled :
      (p : Plan b) (r : Staged b) → inject b s Option.none p ≡ ok r → Uniform b s (count_of b r) r
  unfolding inject count_of Sealed
  stages_settled (node op d ps) r e =
      let (cs, e1, k1) = bind-ok (inject_all b s op ps) _ r e in
      let (t, e2, k2) = bind-ok (reconciled b s op d ps (counts b cs)) _ r k1 in
      let (q, e3, k3) = bind-ok (rebuild b s op d cs) _ r k2 in
      let (u, e4, k4) = bind-ok (capped b s t) _ r k3 in
      close_root q.0 (placed q.0 q.1 u cs) r (capped-Capped b s t u e4)
        (inject_all-AllSealed op ps cs e1) k4
