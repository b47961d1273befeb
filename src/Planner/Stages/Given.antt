-- ===== src/Planner/Stages/Given.antt =====
-- The counts that a node gives to its children.
use datafusion_distributed.Prelude.{
  ℕ, zero, suc, ◌<◌, ◌≡◌, refl, sym, ap, subst, Bool, true, false, List, [], ◌∷◌, Option, ok,
  map_err, bind-ok, ok_inj, All, replicate, length, arith,
}
use datafusion_distributed.TaskCount.Annotation.{as_usize}
use datafusion_distributed.Union.Node.{
  ChildrenIsolatorUnionExec, from_children_and_annotations, child_task_counts, with_new_children,
}
use datafusion_distributed.Planner.{
  Base, Session, Count, Operator, Plan, node, Plans, nil, cons, Staged, Stageds, none, more, counts,
  as_union, library, union_error,
}
use datafusion_distributed.Planner.Propagate.{
  record_counts, record_all, children_of, rebuild, rebuild_as, allocate, allocate_as, isolated,
}
use datafusion_distributed.Planner.Stages.{exactly, is_union, Uniform, Below, Plain, AllPlain}

module _ (b : Base) (s : Session b) where
  open b use {f, api, D, E}

  -- How the counts of the children come from that of their parent.
  abbrev pub Gives : Count b → Bool → Count b → Type 0
  Gives t true u = (n : ℕ) × (0 < n) × (u ≡ exactly b s t.soft n)
  Gives t false u = u ≡ t

  pub more-Below :
      (t u : Count b) (isolates : Bool) (c : Staged b) (cs : Stageds b)
      → Gives t isolates u
      → Uniform b s u c
      → Below b s t isolates cs
      → Below b s t isolates (more c cs)
  unfolding Below
  more-Below t u true c cs (n, p, e) h k = ((n, p, subst (λ u. Uniform b s u c) e h), k)
  more-Below t u false c cs e h k = (subst (λ u. Uniform b s u c) e h, k)

  pub none-Below : (t : Count b) (isolates : Bool) → Below b s t isolates none
  unfolding Below
  none-Below t true = tt
  none-Below t false = tt

  mutual
    unfolding record_counts Uniform Plain

    pub record_counts-Uniform :
        (t : Count b) (p : Plan b) → Plain b s p → Uniform b s t (record_counts b s t p)
    record_counts-Uniform t (node op d ps) (u, h) =
        (refl, subst (λ i. Below b s t i (record_all b s t ps)) (sym u) (record_all-Below t ps h))

    record_all-Below :
        (t : Count b) (ps : Plans b) → AllPlain b s ps → Below b s t false (record_all b s t ps)
    record_all-Below t nil h = none-Below t false
    record_all-Below t (cons p ps) (h, k) =
        more-Below t t false _ _ refl (record_counts-Uniform t p h) (record_all-Below t ps k)

  replicate-Gives : (t : Count b) (n : ℕ) → All (Gives t false) (replicate n t)
  replicate-Gives t zero = tt
  replicate-Gives t (suc n) = (refl, replicate-Gives t n)

  isolated-Gives :
      (t : Count b) (ns : List ℕ) (ts : List (Count b))
      → isolated b s t.soft ns ≡ ok ts
      → All (Gives t true) ts
  unfolding isolated
  isolated-Gives t [] ts e = subst (All (Gives t true)) (ok_inj e) tt
  isolated-Gives t (zero ∷ ns) ts e = absurd (ground (arith, e))
  isolated-Gives t (suc n ∷ ns) ts e =
      let (rest, e1, e2) = bind-ok (isolated b s t.soft ns) _ ts e in
      subst (All (Gives t true)) (ok_inj e2)
        ((suc n, omega arith, refl), isolated-Gives t ns rest e1)

  is_union-as_union :
      (op : Operator b) (n : ChildrenIsolatorUnionExec f)
      → as_union b op ≡ Option.some n
      → is_union b s op ≡ true
  unfolding is_union
  is_union-as_union op n p =
      ap (λ o. elim o as (λ _. Bool) [ Option.none ↦ false | Option.some m ↦ true ]) p

  is_union-not_union : (op : Operator b) → as_union b op ≡ Option.none → is_union b s op ≡ false
  unfolding is_union
  is_union-not_union op p =
      ap (λ o. elim o as (λ _. Bool) [ Option.none ↦ false | Option.some m ↦ true ]) p

  allocate_as-Gives :
      (o : Option (ChildrenIsolatorUnionExec f)) (op : Operator b) (t : Count b) (cs : Stageds b)
      (a : Operator b × List (Count b))
      → as_union b op ≡ o
      → allocate_as b s o op t cs ≡ ok a
      → All (Gives t (is_union b s op)) a.1 × (is_union b s a.0 ≡ is_union b s op)
  unfolding allocate_as is_union as_union
  allocate_as-Gives Option.none op t cs a p h =
      subst
        (λ (a : Operator b × List (Count b)).
          All (Gives t (is_union b s op)) a.1 × (is_union b s a.0 ≡ is_union b s op))
        (ok_inj h)
        (
          subst (λ u. All (Gives t u) (replicate (length (counts b cs)) t))
              (sym (is_union-not_union op p)) (replicate-Gives t (length (counts b cs))),
          refl,
        )
  allocate_as-Gives (Option.some old) op t cs a p h =
      let (n, e1, e2) =
        bind-ok
          (map_err union_error
            (from_children_and_annotations f (children_of b s cs) (counts b cs) (as_usize f t)))
          _ a h in
      let (ts, e3, e4) = bind-ok (isolated b s t.soft (child_task_counts f n)) _ a e2 in
      let u = is_union-as_union op old p in
      subst
        (λ (a : Operator b × List (Count b)).
          All (Gives t (is_union b s op)) a.1 × (is_union b s a.0 ≡ is_union b s op))
        (ok_inj e4)
        (
          subst (λ u. All (Gives t u) ts) (sym u) (isolated-Gives t (child_task_counts f n) ts e3),
          sym u,
        )

  -- What gives the children of an operator their counts keeps whether it is a union.
  pub allocate-Gives :
      (op : Operator b) (t : Count b) (cs : Stageds b) (a : Operator b × List (Count b))
      → allocate b s op t cs ≡ ok a
      → All (Gives t (is_union b s op)) a.1 × (is_union b s a.0 ≡ is_union b s op)
  unfolding allocate
  allocate-Gives op t cs a e = allocate_as-Gives (as_union b op) op t cs a refl e

  rebuild_as-is_union :
      (o : Option (ChildrenIsolatorUnionExec f)) (op : Operator b) (d : D) (cs : Stageds b)
      (r : Operator b × D)
      → as_union b op ≡ o
      → rebuild_as b s o op d cs ≡ ok r
      → is_union b s r.0 ≡ is_union b s op
  unfolding rebuild_as is_union as_union
  rebuild_as-is_union Option.none op d cs r p h =
      let (d', e1, e2) = bind-ok (map_err library (s.recompute op d cs)) _ r h in
      subst (λ (r : Operator b × D). is_union b s r.0 ≡ is_union b s op) (ok_inj e2) refl
  rebuild_as-is_union (Option.some n) op d cs r p h =
      let (n', e1, e2) =
        bind-ok (map_err union_error (with_new_children f n (children_of b s cs))) _ r h in
      subst (λ (r : Operator b × D). is_union b s r.0 ≡ is_union b s op) (ok_inj e2)
        (sym (is_union-as_union op n p))

  pub rebuild-is_union :
      (op : Operator b) (d : D) (cs : Stageds b) (r : Operator b × D)
      → rebuild b s op d cs ≡ ok r
      → is_union b s r.0 ≡ is_union b s op
  unfolding rebuild
  rebuild-is_union op d cs r e = rebuild_as-is_union (as_union b op) op d cs r refl e
