-- ===== src/Planner/Placement/Operators.antt =====
-- What the planner keeps of an operator when it rebuilds it, and that each child gets a count.
use datafusion_distributed.Prelude.{
  ℕ, zero, suc, ◌≡◌, refl, sym, ap, subst, ◌∙◌, List, [], ◌∷◌, Option, ok, map_err, map_err-ok,
  bind-ok, ok_inj, length, length-replicate, arith,
}
use datafusion_distributed.TaskCount.Annotation.{as_usize}
use datafusion_distributed.Union.Node.{
  ChildrenIsolatorUnionExec, from_children_and_annotations, child_task_counts, with_new_children,
}
use datafusion_distributed.Union.Node.Allocated.{
  length-child_task_counts, children-from_children_and_annotations,
}
use datafusion_distributed.Planner.{
  Base, Session, Count, Operator, isolator_union, hash_join, nested_loop_join, repartition,
  cross_join, broadcast, coalesce_partitions, sort_preserving_merge, other, Stageds, none, more,
  counts, as_union, library, union_error,
}
use datafusion_distributed.Planner.Propagate.{
  children_of, isolated, rebuild, rebuild_as, allocate, allocate_as,
}
use datafusion_distributed.Planner.Inject.{edge}
use datafusion_distributed.Planner.Placement.{kind}

module _ (b : Base) (s : Session b) where
  open b use {f, api, D, E}

  as_union_lem :
      (op : Operator b) (n : ChildrenIsolatorUnionExec f)
      → as_union b op ≡ Option.some n
      → op ≡ isolator_union n
  unfolding as_union
  as_union_lem (isolator_union m) n e = ground (arith, e)
  as_union_lem (hash_join l a t) n e = absurd (ground (arith, e))
  as_union_lem (nested_loop_join t) n e = absurd (ground (arith, e))
  as_union_lem (repartition p) n e = absurd (ground (arith, e))
  as_union_lem cross_join n e = absurd (ground (arith, e))
  as_union_lem broadcast n e = absurd (ground (arith, e))
  as_union_lem coalesce_partitions n e = absurd (ground (arith, e))
  as_union_lem sort_preserving_merge n e = absurd (ground (arith, e))
  as_union_lem other n e = absurd (ground (arith, e))

  -- Operators that the planner places in the same way.
  abbrev pub Alike : Operator b → Operator b → Type 0
  Alike op op' =
      (kind b s op' ≡ kind b s op)
      × ((parent : Option (Operator b)) → edge b parent op' ≡ edge b parent op)

  unions-Alike :
      (op : Operator b) (m n : ChildrenIsolatorUnionExec f)
      → as_union b op ≡ Option.some m
      → Alike op (isolator_union n)
  unfolding kind edge
  unions-Alike op m n e =
      subst (λ op. Alike op (isolator_union n)) (sym (as_union_lem op m e)) (refl, λ parent. refl)

  rebuild_as-Alike :
      (o : Option (ChildrenIsolatorUnionExec f)) (op : Operator b) (d : D) (cs : Stageds b)
      (r : Operator b × D)
      → as_union b op ≡ o
      → rebuild_as b s o op d cs ≡ ok r
      → Alike op r.0
  unfolding rebuild_as
  rebuild_as-Alike Option.none op d cs r p e =
      let (d', e1, e2) = bind-ok (map_err library (s.recompute op d cs)) _ r e in
      subst (λ (r : Operator b × D). Alike op r.0) (ok_inj e2) (refl, λ parent. refl)
  rebuild_as-Alike (Option.some n) op d cs r p e =
      let (n', e1, e2) =
        bind-ok (map_err union_error (with_new_children f n (children_of b s cs))) _ r e in
      subst (λ (r : Operator b × D). Alike op r.0) (ok_inj e2) (unions-Alike op n n' p)

  pub rebuild-Alike :
      (op : Operator b) (d : D) (cs : Stageds b) (r : Operator b × D)
      → rebuild b s op d cs ≡ ok r
      → Alike op r.0
  unfolding rebuild
  rebuild-Alike op d cs r e = rebuild_as-Alike (as_union b op) op d cs r refl e

  length-isolated :
      (soft : f.F) (ns : List ℕ) (ts : List (Count b))
      → isolated b s soft ns ≡ ok ts
      → length ts ≡ length ns
  unfolding isolated
  length-isolated soft [] ts e = sym (ap length (ok_inj e))
  length-isolated soft (zero ∷ ns) ts e = absurd (ground (arith, e))
  length-isolated soft (suc n ∷ ns) ts e =
      let (rest, e1, e2) = bind-ok (isolated b s soft ns) _ ts e in
      sym (ap length (ok_inj e2)) ∙ ap suc (length-isolated soft ns rest e1)

  pub length-children_of : (cs : Stageds b) → length (children_of b s cs) ≡ length (counts b cs)
  unfolding children_of counts
  length-children_of none = refl
  length-children_of (more c cs) = ap suc (length-children_of cs)

  allocate_as_lem :
      (o : Option (ChildrenIsolatorUnionExec f)) (op : Operator b) (t : Count b) (cs : Stageds b)
      (a : Operator b × List (Count b))
      → as_union b op ≡ o
      → allocate_as b s o op t cs ≡ ok a
      → Alike op a.0 × (length a.1 ≡ length (counts b cs))
  unfolding allocate_as
  allocate_as_lem Option.none op t cs a p e =
      subst
        (λ (a : Operator b × List (Count b)). Alike op a.0 × (length a.1 ≡ length (counts b cs)))
        (ok_inj e) ((refl, λ parent. refl), length-replicate (length (counts b cs)) t)
  allocate_as_lem (Option.some old) op t cs a p e =
      let made =
        from_children_and_annotations f (children_of b s cs) (counts b cs) (as_usize f t) in
      let (n, e1, k1) = bind-ok (map_err union_error made) _ a e in
      let (ts, e2, k2) = bind-ok (isolated b s t.soft (child_task_counts f n)) _ a k1 in
      let same =
        children-from_children_and_annotations f (children_of b s cs) (counts b cs) (as_usize f t) n
          (map_err-ok union_error made n e1) in
      subst
        (λ (a : Operator b × List (Count b)). Alike op a.0 × (length a.1 ≡ length (counts b cs)))
        (ok_inj k2)
        (
          unions-Alike op old n p,
          length-isolated t.soft (child_task_counts f n) ts e2
              ∙ length-child_task_counts f n
              ∙ ap length same
              ∙ length-children_of cs,
        )

  -- An operator gives a count to each of its children.
  pub allocate_lem :
      (op : Operator b) (t : Count b) (cs : Stageds b) (a : Operator b × List (Count b))
      → allocate b s op t cs ≡ ok a
      → Alike op a.0 × (length a.1 ≡ length (counts b cs))
  unfolding allocate
  allocate_lem op t cs a e = allocate_as_lem (as_union b op) op t cs a refl e
