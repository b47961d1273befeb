-- ===== src/Planner/Errors/Counts.antt =====
-- Reconciled counts are valid, and reconciling them fails only as expected.
use datafusion_distributed.Prelude.{
  ℕ, ◌<◌, ◌==◌, ◌≡◌, refl, subst, inl, inr, List, [], ◌∷◌, All, Option, Result, ok, err, ltb,
  bind-ok, bind-err, map_err, map_err-ok, map_err-err, ok_inj, err_inj, if-elim, arith,
}
use datafusion_distributed.TaskCount.{
  TaskCountRestriction, exact, min, max, range, IsValid, get_min, MergeError,
}
use datafusion_distributed.TaskCount
use datafusion_distributed.TaskCount.Merging.{merge-IsValid}
use datafusion_distributed.TaskCount.Annotation.{merge, restriction-merge}
use datafusion_distributed.Union.Node.{ChildrenIsolatorUnionExec}
use datafusion_distributed.Planner.{
  Base, Session, Count, Operator, Plan, node, Plans, nil, cons, PlannerError, library, merge_error,
  as_union, runs_alone,
}
use datafusion_distributed.Planner.Inject.{
  load, raised, union_count, merge_all, desired_or, one_task, urls_or_one, max_tasks, inner_count,
  reconciled, required_above, capped,
}
use datafusion_distributed.Planner.Errors.{IsExpected, IsValidCount}

-- Handlers that desire valid counts.
abbrev pub DesiresValid : (b : Base) → Session b → Type 0
DesiresValid b s = (p : Plan b) (t : Count b) → s.desired p ≡ Option.some (ok t) → IsValidCount b t

abbrev IsPositive : Option ℕ → Type 0
IsPositive Option.none = Unit
IsPositive (Option.some n) = 0 < n

get_min-IsPositive : (r : TaskCountRestriction) → IsValid r → IsPositive (get_min r)
unfolding get_min
get_min-IsPositive TaskCount.none v = tt
get_min-IsPositive (exact e) v = v
get_min-IsPositive (min lo) v = v
get_min-IsPositive (max hi) v = tt
get_min-IsPositive (range lo hi) v = v.0

module _ (b : Base) where
  open b use {f}

  raised-IsPositive : (m n : Option ℕ) → IsPositive m → IsPositive n → IsPositive (raised b m n)
  unfolding raised
  raised-IsPositive m Option.none p q = p
  raised-IsPositive Option.none (Option.some n) p q = q
  raised-IsPositive (Option.some m) (Option.some n) p q = omega arith

  union_count-IsValid :
      (sum : f.F) (m : Option ℕ) (ts : List (Count b))
      → IsPositive m
      → All (IsValidCount b) ts
      → IsValidCount b (union_count b sum m ts)
  unfolding union_count
  union_count-IsValid sum Option.none [] p v = tt
  union_count-IsValid sum (Option.some m) [] p v = p
  union_count-IsValid sum m (a ∷ rest) p (v, vs) =
      union_count-IsValid (f.add sum (load b a)) (raised b m (get_min a.restriction)) rest
        (raised-IsPositive m (get_min a.restriction) p (get_min-IsPositive a.restriction v)) vs

  merge_all-IsValid :
      (t u : Count b) (ts : List (Count b))
      → IsValidCount b t
      → All (IsValidCount b) ts
      → merge_all b t ts ≡ ok u
      → IsValidCount b u
  unfolding merge_all
  merge_all-IsValid t u [] v vs e = subst (IsValidCount b) (ok_inj e) v
  merge_all-IsValid t u (a ∷ rest) v (w, vs) e =
      let (t', e1, e2) = bind-ok (map_err merge_error (merge f t a)) _ u e in
      merge_all-IsValid t' u rest
        (merge-IsValid t.restriction a.restriction t'.restriction v w
          (restriction-merge f t a t' (map_err-ok merge_error (merge f t a) t' e1)))
        vs e2

  merge_all-IsExpected :
      (t : Count b) (ts : List (Count b)) (x : PlannerError b.E)
      → merge_all b t ts ≡ err x
      → IsExpected x
  unfolding merge_all IsExpected
  merge_all-IsExpected t [] x e = absurd (ground (arith, e))
  merge_all-IsExpected t (a ∷ rest) x e =
      elim (bind-err (map_err merge_error (merge f t a)) _ x e) [
        | inl q ↦ subst IsExpected (map_err-err merge_error (merge f t a) x q).1 tt
        | inr (t', e1, e2) ↦ merge_all-IsExpected t' rest x e2
      ]

  desired_or-IsExpected :
      (t : Count b) (o : Option (Result b.E (Count b))) (x : PlannerError b.E)
      → desired_or b t o ≡ err x
      → IsExpected x
  unfolding desired_or IsExpected
  desired_or-IsExpected t Option.none x e = absurd (ground (arith, e))
  desired_or-IsExpected t (Option.some r) x e = subst IsExpected (map_err-err library r x e).1 tt

module _ (b : Base) (s : Session b) (valid : DesiresValid b s) where
  open b use {f, D, E}

  desired_or-IsValid :
      (p : Plan b) (t u : Count b) (o : Option (Result E (Count b)))
      → IsValidCount b t
      → s.desired p ≡ o
      → desired_or b t o ≡ ok u
      → IsValidCount b u
  unfolding desired_or
  desired_or-IsValid p t u Option.none v q e = subst (IsValidCount b) (ok_inj e) v
  desired_or-IsValid p t u (Option.some (ok w)) v q e =
      subst (IsValidCount b) (ok_inj e) (valid p w q)
  desired_or-IsValid p t u (Option.some (err y)) v q e = absurd (ground (arith, e))

  -- No count is required of a node whose handlers desire none.
  inner_count-IsValid :
      (o : Option (ChildrenIsolatorUnionExec f)) (op : Operator b) (d : D) (ps : Plans b)
      (ts : List (Count b)) (u : Count b)
      → All (IsValidCount b) ts
      → inner_count b s o op d ps ts ≡ ok u
      → IsValidCount b u
  unfolding inner_count
  inner_count-IsValid (Option.some n) op d ps ts u v e =
      subst (IsValidCount b) (ok_inj e) (union_count-IsValid b f.zero Option.none ts tt v)
  inner_count-IsValid Option.none op d ps ts u v e =
      let free : Count b = record { soft = f.zero; restriction = TaskCount.none } in
      (if-elim (λ x. x ≡ ok u → IsValidCount b u) (runs_alone b s.broadcast_joins op)
          (merge_all-IsValid b (one_task b) u ts (omega arith) v)
          (λ e.
            let (t, e1, e2) = bind-ok (desired_or b free (s.desired (node op d ps))) _ u e in
            merge_all-IsValid b t u ts
              (desired_or-IsValid (node op d ps) free t (s.desired (node op d ps)) tt refl e1) v
              e2))
        e

  pub reconciled-IsValid :
      (op : Operator b) (d : D) (ps : Plans b) (ts : List (Count b)) (u : Count b)
      → All (IsValidCount b) ts
      → reconciled b s op d ps ts ≡ ok u
      → IsValidCount b u
  unfolding reconciled
  reconciled-IsValid op d nil ts u v e =
      desired_or-IsValid (node op d nil) (one_task b) u (s.desired (node op d nil)) (omega arith)
        refl e
  reconciled-IsValid op d (cons p ps) ts u v e =
      inner_count-IsValid (as_union b op) op d (cons p ps) ts u v e

module _ (b : Base) (s : Session b) where
  open b use {f, D, E}

  inner_count-IsExpected :
      (o : Option (ChildrenIsolatorUnionExec f)) (op : Operator b) (d : D) (ps : Plans b)
      (ts : List (Count b)) (x : PlannerError E)
      → inner_count b s o op d ps ts ≡ err x
      → IsExpected x
  unfolding inner_count
  inner_count-IsExpected (Option.some n) op d ps ts x e = absurd (ground (arith, e))
  inner_count-IsExpected Option.none op d ps ts x e =
      let free : Count b = record { soft = f.zero; restriction = TaskCount.none } in
      (if-elim (λ y. y ≡ err x → IsExpected x) (runs_alone b s.broadcast_joins op)
          (merge_all-IsExpected b (one_task b) ts x)
          (λ e.
            elim (bind-err (desired_or b free (s.desired (node op d ps))) (λ t. merge_all b t ts) x
              e) [
                | inl q ↦ desired_or-IsExpected b free (s.desired (node op d ps)) x q
                | inr (t, e1, e2) ↦ merge_all-IsExpected b t ts x e2
              ]))
        e

  pub reconciled-IsExpected :
      (op : Operator b) (d : D) (ps : Plans b) (ts : List (Count b)) (x : PlannerError E)
      → reconciled b s op d ps ts ≡ err x
      → IsExpected x
  unfolding reconciled
  reconciled-IsExpected op d nil ts x e =
      desired_or-IsExpected b (one_task b) (s.desired (node op d nil)) x e
  reconciled-IsExpected op d (cons p ps) ts x e =
      inner_count-IsExpected (as_union b op) op d (cons p ps) ts x e

  urls_or_one-IsExpected : (x : PlannerError E) → urls_or_one b s ≡ err x → IsExpected x
  unfolding urls_or_one IsExpected
  urls_or_one-IsExpected x e = elim (bind-err (map_err library s.urls) _ x e) [
    | inl q ↦ subst IsExpected (map_err-err library s.urls x q).1 tt
    | inr (n, e1, e2) ↦ absurd (ground (arith, e2))
  ]

  max_tasks-IsExpected : (x : PlannerError E) → max_tasks b s ≡ err x → IsExpected x
  unfolding max_tasks
  max_tasks-IsExpected x =
      if-elim (λ y. y ≡ err x → IsExpected x) (s.max_tasks_per_stage == 0)
        (urls_or_one-IsExpected x) (λ e. absurd (ground (arith, e)))

  required_above-IsExpected :
      (m : ℕ) (o : Option ℕ) (x : PlannerError E) → required_above b s m o ≡ err x → IsExpected x
  unfolding required_above IsExpected
  required_above-IsExpected m Option.none x e = absurd (ground (arith, e))
  required_above-IsExpected m (Option.some lo) x e =
      (if-elim (λ y. y ≡ err x → IsExpected x) (ltb m lo) (λ e. subst IsExpected (err_inj e) tt)
          (λ e. absurd (ground (arith, e))))
        e

  pub capped-IsExpected : (t : Count b) (x : PlannerError E) → capped b s t ≡ err x → IsExpected x
  unfolding capped
  capped-IsExpected t x e = elim (bind-err (max_tasks b s) _ x e) [
    | inl q ↦ max_tasks-IsExpected x q
    | inr (m, e1, e2) ↦ elim (bind-err (required_above b s m (get_min t.restriction)) _ x e2) [
      | inl q ↦ required_above-IsExpected m (get_min t.restriction) x q
      | inr (u, e3, e4) ↦ absurd (ground (arith, e4))
    ]
  ]

  pub capped-IsValid : (t u : Count b) → IsValidCount b t → capped b s t ≡ ok u → IsValidCount b u
  unfolding capped
  capped-IsValid t u v e =
      let (m, e1, e2) = bind-ok (max_tasks b s) _ u e in
      let (w, e3, e4) = bind-ok (required_above b s m (get_min t.restriction)) _ u e2 in
      subst (IsValidCount b) (ok_inj e4) v
