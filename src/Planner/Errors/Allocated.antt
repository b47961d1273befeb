-- ===== src/Planner/Errors/Allocated.antt =====
-- The counts of the children of an operator are valid, and it is rebuilt or fails as expected.
use datafusion_distributed.Prelude.{
  ℕ, zero, suc, ◌<◌, ◌≡◌, ap, subst, inl, inr, List, [], ◌∷◌, All, Option, ok, err, bind-ok,
  bind-err, map_err, map_err-ok, map_err_parts, ok_inj, length, replicate, nth_or, below-get_elem?,
  arith,
}
use datafusion_distributed.TaskCount.{IsValid}
use datafusion_distributed.TaskCount.Annotation.{as_usize, as_usize-Admits}
use datafusion_distributed.Union.Counts.{restrictions}
use datafusion_distributed.Union.Node.{
  ChildrenIsolatorUnionExec, from_children_and_annotations, child_task_counts,
}
use datafusion_distributed.Union.Node.Allocated.{
  length-child_task_counts, children-from_children_and_annotations,
}
use datafusion_distributed.Union.Node.Counted.{child_task_counts_lem}
use datafusion_distributed.Planner.{
  Base, Session, Count, Operator, placed, boundary, Stageds, none, more, count_of, counts, as_union,
  PlannerError, union_error,
}
use datafusion_distributed.Planner.Propagate.{children_of, isolated, allocate, allocate_as}
use datafusion_distributed.Planner.Placement.Operators.{length-children_of}
use datafusion_distributed.Planner.Errors.{IsExpected, IsValidCount, AllValid}
use datafusion_distributed.Union.Node.Failures.{from_children_and_annotations-IsUnionChildError}

All-nth_or : (xs : List ℕ) → ((c : ℕ) → c < length xs → 0 < nth_or 0 xs c) → All (λ x. 0 < x) xs
All-nth_or [] h = tt
All-nth_or (x ∷ xs) h = (h 0 (omega arith), All-nth_or xs (λ c l. h (suc c) (omega arith)))

module _ (b : Base) (s : Session b) where
  open b use {f, api, D, E}

  pub counts-IsValid : (cs : Stageds b) → AllValid b cs → All (IsValidCount b) (counts b cs)
  unfolding AllValid counts count_of
  counts-IsValid none v = tt
  counts-IsValid (more (placed op d t ds) cs) ((v, w), vs) = (v, counts-IsValid cs vs)
  counts-IsValid (more (boundary nb t n input) cs) (v, vs) = (v, counts-IsValid cs vs)

  restrictions-IsValid :
      (ts : List (Count b)) → All (IsValidCount b) ts → All IsValid (restrictions f ts)
  unfolding restrictions
  restrictions-IsValid [] v = tt
  restrictions-IsValid (t ∷ ts) (v, vs) = (v, restrictions-IsValid ts vs)

  -- A union gives each of its children a task.
  child_task_counts-positive :
      (cs : Stageds b) (budget : ℕ) (n : ChildrenIsolatorUnionExec f)
      → AllValid b cs
      → from_children_and_annotations f (children_of b s cs) (counts b cs) budget ≡ ok n
      → All (λ x. 0 < x) (child_task_counts f n)
  child_task_counts-positive cs budget n v e = All-nth_or (child_task_counts f n) (λ c l.
      let same =
        children-from_children_and_annotations f (children_of b s cs) (counts b cs) budget n e in
      let (a, at) = below-get_elem? (counts b cs) c (
        omega
          (arith, l, length-child_task_counts f n, ap length same, length-children_of b s cs)) in
      (child_task_counts_lem f (children_of b s cs) (counts b cs) budget n c a
        (restrictions-IsValid (counts b cs) (counts-IsValid cs v)) e at).0)

  isolated-IsExpected :
      (soft : f.F) (ns : List ℕ) (x : PlannerError E)
      → All (λ n. 0 < n) ns
      → isolated b s soft ns ≡ err x
      → IsExpected x
  unfolding isolated
  isolated-IsExpected soft [] x p e = absurd (ground (arith, e))
  isolated-IsExpected soft (zero ∷ ns) x (p, ps) e = absurd (omega (arith, p))
  isolated-IsExpected soft (suc n ∷ ns) x (p, ps) e = elim (bind-err (isolated b s soft ns) _ x e) [
    | inl q ↦ isolated-IsExpected soft ns x ps q
    | inr (rest, e1, e2) ↦ absurd (ground (arith, e2))
  ]

  made-IsExpected :
      (budget : ℕ) (cs : Stageds b) (x : PlannerError E)
      → 0 < length (counts b cs)
      → 0 < budget
      → map_err union_error
          (from_children_and_annotations f (children_of b s cs) (counts b cs) budget)
        ≡ err x
      → IsExpected x
  unfolding IsExpected
  made-IsExpected budget cs x p q e =
      let made = from_children_and_annotations f (children_of b s cs) (counts b cs) budget in
      let same = length-children_of b s cs in
      let (y, ey, yx) = map_err_parts union_error made x e in
      subst IsExpected yx (
        from_children_and_annotations-IsUnionChildError f (children_of b s cs) (counts b cs) budget
          y same (omega (arith, same, p)) q ey)

  allocate_as-IsExpected :
      (o : Option (ChildrenIsolatorUnionExec f)) (op : Operator b) (t : Count b) (cs : Stageds b)
      (x : PlannerError E)
      → IsValidCount b t
      → AllValid b cs
      → 0 < length (counts b cs)
      → allocate_as b s o op t cs ≡ err x
      → IsExpected x
  unfolding allocate_as
  allocate_as-IsExpected Option.none op t cs x u v p e = absurd (ground (arith, e))
  allocate_as-IsExpected (Option.some old) op t cs x u v p e =
      let made =
        from_children_and_annotations f (children_of b s cs) (counts b cs) (as_usize f t) in
      elim (bind-err (map_err union_error made) _ x e) [
        | inl q ↦ made-IsExpected (as_usize f t) cs x p (as_usize-Admits f t u).1 q
        | inr (n, e1, e2) ↦ elim (bind-err (isolated b s t.soft (child_task_counts f n)) _ x e2) [
          | inl q ↦
              isolated-IsExpected t.soft (child_task_counts f n) x
                (child_task_counts-positive cs (as_usize f t) n v
                  (map_err-ok union_error made n e1))
                q
          | inr (ts, e3, e4) ↦ absurd (ground (arith, e4))
        ]
      ]

  replicate-IsValid :
      (n : ℕ) (t : Count b) → IsValidCount b t → All (IsValidCount b) (replicate n t)
  replicate-IsValid zero t v = tt
  replicate-IsValid (suc n) t v = (v, replicate-IsValid n t v)

  isolated-IsValid :
      (soft : f.F) (ns : List ℕ) (ts : List (Count b))
      → isolated b s soft ns ≡ ok ts
      → All (IsValidCount b) ts
  unfolding isolated
  isolated-IsValid soft [] ts e = subst (All (IsValidCount b)) (ok_inj e) tt
  isolated-IsValid soft (zero ∷ ns) ts e = absurd (ground (arith, e))
  isolated-IsValid soft (suc n ∷ ns) ts e =
      let (rest, e1, e2) = bind-ok (isolated b s soft ns) _ ts e in
      subst (All (IsValidCount b)) (ok_inj e2) (omega arith, isolated-IsValid soft ns rest e1)

  allocate_as-IsValid :
      (o : Option (ChildrenIsolatorUnionExec f)) (op : Operator b) (t : Count b) (cs : Stageds b)
      (a : Operator b × List (Count b))
      → IsValidCount b t
      → allocate_as b s o op t cs ≡ ok a
      → All (IsValidCount b) a.1
  unfolding allocate_as
  allocate_as-IsValid Option.none op t cs a v e =
      subst (λ (a : Operator b × List (Count b)). All (IsValidCount b) a.1) (ok_inj e)
        (replicate-IsValid (length (counts b cs)) t v)
  allocate_as-IsValid (Option.some old) op t cs a v e =
      let made =
        from_children_and_annotations f (children_of b s cs) (counts b cs) (as_usize f t) in
      let (n, e1, k1) = bind-ok (map_err union_error made) _ a e in
      let (ts, e2, k2) = bind-ok (isolated b s t.soft (child_task_counts f n)) _ a k1 in
      subst (λ (a : Operator b × List (Count b)). All (IsValidCount b) a.1) (ok_inj k2)
        (isolated-IsValid t.soft (child_task_counts f n) ts e2)

  pub allocate-IsExpected :
      (op : Operator b) (t : Count b) (cs : Stageds b) (x : PlannerError E)
      → IsValidCount b t
      → AllValid b cs
      → 0 < length (counts b cs)
      → allocate b s op t cs ≡ err x
      → IsExpected x
  unfolding allocate
  allocate-IsExpected op t cs x u v p e = allocate_as-IsExpected (as_union b op) op t cs x u v p e

  pub allocate-IsValid :
      (op : Operator b) (t : Count b) (cs : Stageds b) (a : Operator b × List (Count b))
      → IsValidCount b t
      → allocate b s op t cs ≡ ok a
      → All (IsValidCount b) a.1
  unfolding allocate
  allocate-IsValid op t cs a v e = allocate_as-IsValid (as_union b op) op t cs a v e
