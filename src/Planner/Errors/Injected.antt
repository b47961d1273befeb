-- ===== src/Planner/Errors/Injected.antt =====
-- `inject` fails only as expected.
use datafusion_distributed.Prelude.{
  suc, ◌≡◌, sym, ap, ◌∙◌, length, subst, inl, inr, false, Option, ok, err, bind-ok, bind-err,
  ok_inj, arith,
}
use datafusion_distributed.Planner.{
  Base, Session, Count, Operator, NetworkBoundary, network_shuffle, network_broadcast,
  network_coalesce, Plan, node, Plans, nil, cons, Staged, placed, Stageds, count_of, counts,
  PlannerError, as_union,
}
use datafusion_distributed.Planner.Propagate.{propagate, rebuild}
use datafusion_distributed.Planner.Inject.{
  Edge, crosses, root, inside, edge, reconciled, capped, consumer_count, is_exact_one,
  check_coalesce, cross, close, inject, inject_all,
}
use datafusion_distributed.Planner.Placement.Edges.{is_root, is_root-edge}
use datafusion_distributed.Planner.Errors.{
  IsExpected, IsValidCount, Valid, AllValid, size, BuiltOver, UnionsBuilt, AllUnionsBuilt,
}
use datafusion_distributed.Planner.Errors.Counts.{
  DesiresValid, reconciled-IsValid, reconciled-IsExpected, capped-IsValid, capped-IsExpected,
}
use datafusion_distributed.Planner.Errors.Allocated.{counts-IsValid}
use datafusion_distributed.Planner.Errors.Rebuilt.{rebuild-IsExpected}
use datafusion_distributed.Planner.Errors.Propagated.{propagate-IsExpected}

module _ (b : Base) (s : Session b) where
  open b use {f, D, E}

  consumer_count-IsValid :
      (nb : NetworkBoundary b) (t : Count b) (input : Staged b)
      → IsValidCount b (consumer_count b s nb t input)
  unfolding consumer_count
  consumer_count-IsValid network_coalesce t input = omega arith
  consumer_count-IsValid network_broadcast t input = tt
  consumer_count-IsValid (network_shuffle mode p) t input = tt

  check_coalesce-IsExpected :
      (nb : NetworkBoundary b) (t : Count b) (input : Staged b) (x : PlannerError E)
      → check_coalesce b s nb (consumer_count b s nb t input) ≡ err x
      → IsExpected x
  unfolding consumer_count check_coalesce is_exact_one
  check_coalesce-IsExpected network_coalesce t input x e = absurd (ground (arith, e))
  check_coalesce-IsExpected network_broadcast t input x e = absurd (ground (arith, e))
  check_coalesce-IsExpected (network_shuffle mode p) t input x e = absurd (ground (arith, e))

  cross-IsExpected :
      (nb : NetworkBoundary b) (p : Staged b) (x : PlannerError E)
      → IsValidCount b (count_of b p)
      → Valid b p
      → cross b s nb p ≡ err x
      → IsExpected x
  unfolding cross
  cross-IsExpected nb p x v w e = elim (bind-err (propagate b s (count_of b p) p) _ x e) [
    | inl q ↦ propagate-IsExpected b s (count_of b p) p x v w q
    | inr (input, e1, k1) ↦
        elim (bind-err (check_coalesce b s nb (consumer_count b s nb (count_of b p) input)) _ x
          k1) [
            | inl q ↦ check_coalesce-IsExpected nb (count_of b p) input x q
            | inr (u, e2, k2) ↦ absurd (ground (arith, k2))
          ]
  ]

  close-IsExpected :
      (g : Edge b) (p : Staged b) (x : PlannerError E)
      → IsValidCount b (count_of b p)
      → Valid b p
      → close b s g p ≡ err x
      → IsExpected x
  unfolding close
  close-IsExpected (crosses nb) p x v w e = cross-IsExpected nb p x v w e
  close-IsExpected root p x v w e = propagate-IsExpected b s (count_of b p) p x v w e
  close-IsExpected inside p x v w e = absurd (ground (arith, e))

  cross-Valid : (nb : NetworkBoundary b) (p r : Staged b) → cross b s nb p ≡ ok r → Valid b r
  unfolding cross Valid
  cross-Valid nb p r e =
      let (input, e1, k1) = bind-ok (propagate b s (count_of b p) p) _ r e in
      let (u, e2, k2) =
        bind-ok (check_coalesce b s nb (consumer_count b s nb (count_of b p) input)) _ r k1 in
      subst (Valid b) (ok_inj k2) (consumer_count-IsValid nb (count_of b p) input)

  close-Valid :
      (g : Edge b) (p r : Staged b)
      → is_root b s g ≡ false
      → Valid b p
      → close b s g p ≡ ok r
      → Valid b r
  unfolding close is_root
  close-Valid (crosses nb) p r i w e = cross-Valid nb p r e
  close-Valid root p r i w e = absurd (ground (arith, i))
  close-Valid inside p r i w e = subst (Valid b) (ok_inj e) w

module _ (b : Base) (s : Session b) (valid : DesiresValid b s) where
  open b use {f, D, E}

  mutual
    unfolding inject Valid

    inject-Valid :
        (parent : Operator b) (p : Plan b) (r : Staged b)
        → inject b s (Option.some parent) p ≡ ok r
        → Valid b r
    inject-Valid parent (node op d ps) r e =
        let (cs, e1, k1) = bind-ok (inject_all b s op ps) _ r e in
        let (t, e2, k2) = bind-ok (reconciled b s op d ps (counts b cs)) _ r k1 in
        let (q, e3, k3) = bind-ok (rebuild b s op d cs) _ r k2 in
        let (u, e4, k4) = bind-ok (capped b s t) _ r k3 in
        let vs = inject_all-AllValid op ps cs e1 in
        let v =
          reconciled-IsValid b s valid op d ps (counts b cs) t (counts-IsValid b s cs vs) e2 in
        close-Valid b s (edge b (Option.some parent) q.0) (placed q.0 q.1 u cs) r
          (is_root-edge b s parent q.0) (capped-IsValid b s t u v e4, vs) k4

    inject_all-AllValid :
        (parent : Operator b) (ps : Plans b) (cs : Stageds b)
        → inject_all b s parent ps ≡ ok cs
        → AllValid b cs
    inject_all-AllValid parent nil cs e = subst (AllValid b) (ok_inj e) tt
    inject_all-AllValid parent (cons p ps) cs e =
        let (c, e1, k1) = bind-ok (inject b s (Option.some parent) p) _ cs e in
        let (rest, e2, k2) = bind-ok (inject_all b s parent ps) _ cs k1 in
        subst (AllValid b) (ok_inj k2)
          (inject-Valid parent p c e1, inject_all-AllValid parent ps rest e2)

  -- A node has as many children as in the given plan.
  length-inject_all :
      (parent : Operator b) (ps : Plans b) (cs : Stageds b)
      → inject_all b s parent ps ≡ ok cs
      → length (counts b cs) ≡ size b ps
  unfolding inject_all counts
  length-inject_all parent nil cs e = sym (ap (λ c. length (counts b c)) (ok_inj e))
  length-inject_all parent (cons p ps) cs e =
      let (c, e1, k1) = bind-ok (inject b s (Option.some parent) p) _ cs e in
      let (rest, e2, k2) = bind-ok (inject_all b s parent ps) _ cs k1 in
      sym (ap (λ c. length (counts b c)) (ok_inj k2)) ∙ ap suc (length-inject_all parent ps rest e2)

  mutual
    unfolding inject Valid count_of UnionsBuilt

    inject-IsExpected :
        (parent : Option (Operator b)) (p : Plan b) (x : PlannerError E)
        → UnionsBuilt b p
        → inject b s parent p ≡ err x
        → IsExpected x
    inject-IsExpected parent (node op d ps) x (w, ws) e =
        elim (bind-err (inject_all b s op ps) _ x e) [
          | inl q ↦ inject_all-IsExpected op ps x ws q
          | inr (cs, e1, k1) ↦ elim (bind-err (reconciled b s op d ps (counts b cs)) _ x k1) [
            | inl q ↦ reconciled-IsExpected b s op d ps (counts b cs) x q
            | inr (t, e2, k2) ↦ elim (bind-err (rebuild b s op d cs) _ x k2) [
              | inl q ↦
                  rebuild-IsExpected b s op d cs x
                    (subst (BuiltOver b (as_union b op)) (sym (length-inject_all op ps cs e1)) w) q
              | inr (r, e3, k3) ↦ elim (bind-err (capped b s t) _ x k3) [
                | inl q ↦ capped-IsExpected b s t x q
                | inr (u, e4, k4) ↦
                    let vs = inject_all-AllValid op ps cs e1 in
                    let v =
                      capped-IsValid b s t u
                        (reconciled-IsValid b s valid op d ps (counts b cs) t
                          (counts-IsValid b s cs vs) e2)
                        e4 in
                    close-IsExpected b s (edge b parent r.0) (placed r.0 r.1 u cs) x v (v, vs) k4
              ]
            ]
          ]
        ]

    inject_all-IsExpected :
        (parent : Operator b) (ps : Plans b) (x : PlannerError E)
        → AllUnionsBuilt b ps
        → inject_all b s parent ps ≡ err x
        → IsExpected x
    inject_all-IsExpected parent nil x ws e = absurd (ground (arith, e))
    inject_all-IsExpected parent (cons p ps) x (w, ws) e =
        elim (bind-err (inject b s (Option.some parent) p) _ x e) [
          | inl q ↦ inject-IsExpected (Option.some parent) p x w q
          | inr (c, e1, k1) ↦ elim (bind-err (inject_all b s parent ps) _ x k1) [
            | inl q ↦ inject_all-IsExpected parent ps x ws q
            | inr (cs, e2, k2) ↦ absurd (ground (arith, k2))
          ]
        ]

  -- When the handlers desire counts of positive numbers and each union of the given plan was built
  -- over its children, the planner fails only by what it calls, by counts that cannot be merged or
  -- are above the greatest, or by the restriction or the estimate of a child of a union. It never
  -- reports a fault of its own: no union is built for zero tasks, without children, with other than
  -- one count for each child or with an empty map of tasks, and none is rebuilt over another number
  -- of children; no child of a union is allocated zero tasks; and each coalesce boundary has an exact
  -- task count of one.
  pub errors-IsExpected :
      (p : Plan b) (x : PlannerError E)
      → UnionsBuilt b p
      → inject b s Option.none p ≡ err x
      → IsExpected x
  errors-IsExpected p x w e = inject-IsExpected Option.none p x w e
