-- ===== src/Planner/Errors/Rebuilt.antt =====
-- An operator is rebuilt, or fails as expected where its union was built over as many children.
use datafusion_distributed.Prelude.{
  suc, ◌≡◌, ap, subst, inl, inr, List, [], ◌∷◌, Option, ok, err, bind-ok, bind-err, map_err,
  map_err-ok, map_err-err, map_err_parts, refl, sym, ◌∙◌, ok_inj, length, arith,
}
use datafusion_distributed.TaskCount.Annotation.{as_usize}
use datafusion_distributed.Union.Node.{
  ChildrenIsolatorUnionExec, from_children_and_annotations, child_task_counts, with_new_children,
}
use datafusion_distributed.Union.Node.Allocated.{children-from_children_and_annotations}
use datafusion_distributed.Planner.{
  Base, Session, Count, Operator, Stageds, none, more, counts, as_union, PlannerError, library,
  union_error,
}
use datafusion_distributed.Planner.Propagate.{
  children_of, isolated, rebuild, rebuild_as, allocate, allocate_as, propagate, propagate_all,
}
use datafusion_distributed.Planner.Placement.Operators.{length-children_of, allocate_lem}
use datafusion_distributed.Planner.Errors.{IsExpected, BuiltOver}
use datafusion_distributed.Union.Node.Failures.{with_new_children-IsUnionChildError}

module _ (b : Base) (s : Session b) where
  open b use {f, api, D, E}

  rebuild_as-IsExpected :
      (o : Option (ChildrenIsolatorUnionExec f)) (op : Operator b) (d : D) (cs : Stageds b)
      (x : PlannerError E)
      → BuiltOver b o (length (counts b cs))
      → rebuild_as b s o op d cs ≡ err x
      → IsExpected x
  unfolding rebuild_as IsExpected BuiltOver
  rebuild_as-IsExpected Option.none op d cs x w e =
      elim (bind-err (map_err library (s.recompute op d cs)) _ x e) [
        | inl q ↦ subst IsExpected (map_err-err library (s.recompute op d cs) x q).1 tt
        | inr (d', e1, e2) ↦ absurd (ground (arith, e2))
      ]
  rebuild_as-IsExpected (Option.some n) op d cs x (built, same) e =
      let made = with_new_children f n (children_of b s cs) in
      elim (bind-err (map_err union_error made) _ x e) [
        | inl q ↦
            let (y, ey, yx) = map_err_parts union_error made x q in
            subst IsExpected yx (
              with_new_children-IsUnionChildError f n (children_of b s cs) y built
                (length-children_of b s cs ∙ sym same) ey)
        | inr (n', e1, e2) ↦ absurd (ground (arith, e2))
      ]

  allocate_as-BuiltOver :
      (o : Option (ChildrenIsolatorUnionExec f)) (op : Operator b) (t : Count b) (cs : Stageds b)
      (a : Operator b × List (Count b))
      → as_union b op ≡ o
      → allocate_as b s o op t cs ≡ ok a
      → BuiltOver b (as_union b a.0) (length (counts b cs))
  unfolding allocate_as
  allocate_as-BuiltOver Option.none op t cs a p e =
      subst
        (λ (a : Operator b × List (Count b)). BuiltOver b (as_union b a.0) (length (counts b cs)))
        (ok_inj e)
        (subst (λ o. BuiltOver b o (length (counts b cs))) (sym p) (unfold BuiltOver in tt))
  allocate_as-BuiltOver (Option.some old) op t cs a p e =
      let budget = as_usize f t in
      let made = from_children_and_annotations f (children_of b s cs) (counts b cs) budget in
      let (n, e1, k1) = bind-ok (map_err union_error made) _ a e in
      let (ts, e2, k2) = bind-ok (isolated b s t.soft (child_task_counts f n)) _ a k1 in
      let done = map_err-ok union_error made n e1 in
      subst
        (λ (a : Operator b × List (Count b)). BuiltOver b (as_union b a.0) (length (counts b cs)))
        (ok_inj k2)
        (unfold BuiltOver in
          unfold as_union in
          (
            (children_of b s cs, counts b cs, budget, done),
            ap length (
                  children-from_children_and_annotations f (children_of b s cs) (counts b cs) budget
                    n done)
                ∙ length-children_of b s cs,
          ))

  allocate-BuiltOver :
      (op : Operator b) (t : Count b) (cs : Stageds b) (a : Operator b × List (Count b))
      → allocate b s op t cs ≡ ok a
      → BuiltOver b (as_union b a.0) (length (counts b cs))
  unfolding allocate
  allocate-BuiltOver op t cs a e = allocate_as-BuiltOver (as_union b op) op t cs a refl e

  pub rebuild-IsExpected :
      (op : Operator b) (d : D) (cs : Stageds b) (x : PlannerError E)
      → BuiltOver b (as_union b op) (length (counts b cs))
      → rebuild b s op d cs ≡ err x
      → IsExpected x
  unfolding rebuild
  rebuild-IsExpected op d cs x w e = rebuild_as-IsExpected (as_union b op) op d cs x w e

  length-propagate_all :
      (ts : List (Count b)) (cs cs' : Stageds b)
      → length ts ≡ length (counts b cs)
      → propagate_all b s ts cs ≡ ok cs'
      → length (counts b cs') ≡ length (counts b cs)
  unfolding propagate_all counts
  length-propagate_all ts none cs' l e = sym (ap (λ c. length (counts b c)) (ok_inj e))
  length-propagate_all [] (more c cs) cs' l e = absurd (omega (arith, l))
  length-propagate_all (t ∷ ts) (more c cs) cs' l e =
      let (d, e1, k1) = bind-ok (propagate b s t c) _ cs' e in
      let (ds, e2, k2) = bind-ok (propagate_all b s ts cs) _ cs' k1 in
      sym (ap (λ c. length (counts b c)) (ok_inj k2))
      ∙ ap suc (length-propagate_all ts cs ds (omega (arith, l)) e2)

  -- What `allocate` makes of an operator is rebuilt over the children that it gave counts to.
  pub allocated-BuiltOver :
      (op : Operator b) (t : Count b) (cs cs' : Stageds b) (a : Operator b × List (Count b))
      → allocate b s op t cs ≡ ok a
      → propagate_all b s a.1 cs ≡ ok cs'
      → BuiltOver b (as_union b a.0) (length (counts b cs'))
  allocated-BuiltOver op t cs cs' a e h =
      subst (BuiltOver b (as_union b a.0))
        (sym (length-propagate_all a.1 cs cs' (allocate_lem b s op t cs a e).1 h))
        (allocate-BuiltOver op t cs a e)
