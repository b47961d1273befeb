-- ===== src/Planner/Placement/Injected.antt =====
-- `inject` places the boundaries.
use datafusion_distributed.Prelude.{
  ◌≡◌, refl, subst, Bool, true, false, Option, ok, bind-ok, ok_inj,
}
use datafusion_distributed.Boundary.Partitioning.{
  hash, round_robin_batch, unknown_partitioning, range,
}
use datafusion_distributed.Planner.{
  Base, Session, Count, Operator, isolator_union, hash_join, nested_loop_join, repartition,
  cross_join, broadcast, coalesce_partitions, sort_preserving_merge, other, NetworkBoundary, Plan,
  node, Plans, nil, cons, Staged, placed, boundary, Stageds, none, more, count_of, counts,
}
use datafusion_distributed.Planner.Propagate.{propagate, rebuild}
use datafusion_distributed.Planner.Inject.{
  Edge, crosses, root, inside, edge, capped, reconciled, consumer_count, check_coalesce, cross,
  close, inject, inject_all,
}
use datafusion_distributed.Planner.Placement.{kind, Over, Leaf, wanted, At, Cut, Kept, CutAll}
use datafusion_distributed.Planner.Placement.Operators.{rebuild-Alike}
use datafusion_distributed.Planner.Placement.Closed.{propagate-Kept}
use datafusion_distributed.Planner.Placement.Edges.{is_root, boundary_of, is_root-edge, edge_lem}

module _ (b : Base) (s : Session b) where
  open b use {f, api, D, E}

  cross-Over :
      (nb : NetworkBoundary b) (p r : Staged b) (K : Bool → Staged b → Type 0)
      → ((x y : Staged b) → K false x → propagate b s (count_of b p) x ≡ ok y → K true y)
      → K false p
      → cross b s nb p ≡ ok r
      → Over b s false nb (K true) r
  unfolding cross Over
  cross-Over nb p r K step h e =
      let (input, e1, k1) = bind-ok (propagate b s (count_of b p) p) _ r e in
      let (u, e2, k2) =
        bind-ok (check_coalesce b s nb (consumer_count b s nb (count_of b p) input)) _ r k1 in
      subst (Over b s false nb (K true)) (ok_inj k2) (refl, step p input h e1)

  close-At :
      (g : Edge b) (p r : Staged b) (K : Bool → Staged b → Type 0)
      → ((x y : Staged b) → K false x → propagate b s (count_of b p) x ≡ ok y → K true y)
      → K false p
      → close b s g p ≡ ok r
      → At b s (boundary_of b s g) (is_root b s g) K r
  unfolding close At is_root boundary_of
  close-At (crosses nb) p r K step h e = cross-Over nb p r K step h e
  close-At root p r K step h e = step p r h e
  close-At inside p r K step h e = subst (K false) (ok_inj e) h

  placed-Kept :
      (op op' : Operator b) (d : D) (t : Count b) (ps : Plans b) (cs : Stageds b)
      → kind b s op' ≡ kind b s op
      → CutAll b s false op ps cs
      → Kept b s false op ps (placed op' d t cs)
  unfolding Kept Leaf
  placed-Kept op op' d t nil none k h = (op', d, t, k, refl)
  placed-Kept op op' d t nil (more c cs) k h = absurd h
  placed-Kept op op' d t (cons p ps) none k h = absurd h
  placed-Kept op op' d t (cons p ps) (more c cs) k (h, hs) = (k, h, hs)

  -- A plan whose root may stand in a stage that is not closed.
  abbrev Placed : Option (Operator b) → Plan b → Staged b → Type 0
  Placed parent (node op d ps) r =
      At b s (wanted b s parent op) (is_root b s (edge b parent op)) (λ c x. Kept b s c op ps x) r

  Placed-Cut :
      (q : Operator b) (p : Plan b) (r : Staged b)
      → Placed (Option.some q) p r
      → Cut b s false (Option.some q) p r
  unfolding Cut
  Placed-Cut q (node op d ps) r h =
      subst (λ i. At b s (wanted b s (Option.some q) op) i (λ c x. Kept b s c op ps x) r)
        (is_root-edge b s q op) h

  mutual
    unfolding inject Kept is_root

    inject-At :
        (parent : Option (Operator b)) (p : Plan b) (r : Staged b)
        → inject b s parent p ≡ ok r
        → Placed parent p r
    inject-At parent (node op d ps) r e =
        let (cs, e1, k1) = bind-ok (inject_all b s op ps) _ r e in
        let (t, e2, k2) = bind-ok (reconciled b s op d ps (counts b cs)) _ r k1 in
        let (q, e3, k3) = bind-ok (rebuild b s op d cs) _ r k2 in
        let (u, e4, k4) = bind-ok (capped b s t) _ r k3 in
        let alike = rebuild-Alike b s op d cs q e3 in
        subst (λ nb. At b s nb (is_root b s (edge b parent op)) (λ c x. Kept b s c op ps x) r)
          (edge_lem b s parent op)
          (subst (λ g. At b s (boundary_of b s g) (is_root b s g) (λ c x. Kept b s c op ps x) r)
            (alike.1 parent)
            (close-At (edge b parent q.0) (placed q.0 q.1 u cs) r (λ c x. Kept b s c op ps x)
              (λ x y k e. propagate-Kept b s (count_of b (placed q.0 q.1 u cs)) op ps x y k e)
              (placed-Kept op q.0 q.1 u ps cs alike.0 (inject_all-CutAll op ps cs e1)) k4))

    inject_all-CutAll :
        (parent : Operator b) (ps : Plans b) (cs : Stageds b)
        → inject_all b s parent ps ≡ ok cs
        → CutAll b s false parent ps cs
    inject_all-CutAll parent nil cs e = subst (CutAll b s false parent nil) (ok_inj e) tt
    inject_all-CutAll parent (cons p ps) cs e =
        let (c, e1, k1) = bind-ok (inject b s (Option.some parent) p) _ cs e in
        let (rest, e2, k2) = bind-ok (inject_all b s parent ps) _ cs k1 in
        subst (CutAll b s false parent (cons p ps)) (ok_inj k2) (
          Placed-Cut parent p c (inject-At (Option.some parent) p c e1),
          inject_all-CutAll parent ps rest e2,
        )

  Over-closed :
      (nb : NetworkBoundary b) (P : Staged b → Type 0) (r : Staged b)
      → Over b s false nb P r
      → Over b s true nb P r
  unfolding Over
  Over-closed nb P (boundary nb' t n input) h = h
  Over-closed nb P (placed op d t cs) h = absurd h

  root-At :
      (op : Operator b) (K : Bool → Staged b → Type 0) (r : Staged b)
      → At b s (wanted b s Option.none op) (is_root b s (edge b Option.none op)) K r
      → At b s (wanted b s Option.none op) true K r
  unfolding At edge is_root wanted
  root-At broadcast K r h = Over-closed _ (K true) r h
  root-At (repartition (hash es n)) K r h = Over-closed _ (K true) r h
  root-At (repartition (range q)) K r h = Over-closed _ (K true) r h
  root-At (isolator_union n) K r h = h
  root-At (hash_join l a t) K r h = h
  root-At (nested_loop_join t) K r h = h
  root-At cross_join K r h = h
  root-At coalesce_partitions K r h = h
  root-At sort_preserving_merge K r h = h
  root-At other K r h = h
  root-At (repartition (round_robin_batch n)) K r h = h
  root-At (repartition (unknown_partitioning n)) K r h = h

  -- A plan that is returned is the plan that was given with network boundaries put in, with new
  -- details of its nodes and tasks of its unions, and with what the handlers put in the place of its
  -- leaves: a shuffle over each repartition by hash or by range, a broadcast boundary over each
  -- broadcast, a coalesce boundary below each node that coalesces partitions or merges sorted ones, if
  -- no other boundary stands there, and none elsewhere. A shuffle by hash may be one in two phases with
  -- a repartition of the same partitioning above it.
  pub boundaries_placed :
      (p : Plan b) (r : Staged b) → inject b s Option.none p ≡ ok r → Cut b s true Option.none p r
  unfolding Cut
  boundaries_placed (node op d ps) r e =
      root-At op (λ c x. Kept b s c op ps x) r (inject-At Option.none (node op d ps) r e)
