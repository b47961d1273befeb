-- ===== src/TaskCount/Annotation.antt =====
-- `TaskCountAnnotation` and its `as_usize` and `merge`.
use datafusion_distributed.Prelude.{ℕ, ◌<◌, ◌≡◌, subst, Result, ok, ◌>>=◌, arith}
use datafusion_distributed.Prelude.Float.{Float}
use datafusion_distributed.TaskCount.{
  TaskCountRestriction, none, exact, MergeError, resolve, Admits, IsValid,
}
use datafusion_distributed.TaskCount
use datafusion_distributed.TaskCount.Merging.{merge-Intersects, merge-IsValid, Intersects}
use Prim.Native.Nat

module _ (f : Float) where
  open f use {F}

  pub record TaskCountAnnotation : Type 0 where
    pub soft : F
    pub restriction : TaskCountRestriction

  -- `(self.soft.ceil() as usize).max(1)`, then the restriction
  unfoldable pub as_usize : TaskCountAnnotation → ℕ
  as_usize a = resolve a.restriction (Nat.max (f.as_usize (f.ceil a.soft)) 1)

  unfoldable pub merge :
      TaskCountAnnotation → TaskCountAnnotation → Result MergeError TaskCountAnnotation
  merge a b = do
    r ← TaskCount.merge a.restriction b.restriction
    ok (record { soft = f.max a.soft b.soft; restriction = r })

  resolve-Admits :
      (r : TaskCountRestriction) (n : ℕ)
      → IsValid r
      → 0 < n
      → Admits r (resolve r n) × (0 < resolve r n)
  unfolding resolve
  resolve-Admits none n v p = omega arith
  resolve-Admits (exact e) n v p = ground arith
  resolve-Admits r n v p = omega arith

  -- The task count of an annotation with a valid restriction is positive, and the restriction
  -- admits it.
  pub as_usize-Admits :
      (a : TaskCountAnnotation)
      → IsValid a.restriction
      → Admits a.restriction (as_usize a) × (0 < as_usize a)
  unfolding as_usize
  as_usize-Admits a v = resolve-Admits a.restriction _ v (omega arith)

  merge-Admits :
      (r s t : TaskCountRestriction) (n : ℕ)
      → IsValid r
      → IsValid s
      → TaskCount.merge r s ≡ ok t
      → Admits t n
      → Admits r n × Admits s n
  merge-Admits r s t n v w h p = ((subst (Intersects r s) h (merge-Intersects r s v w)) n).1 p

  pub restriction-merge :
      (a b c : TaskCountAnnotation)
      → merge a b ≡ ok c
      → TaskCount.merge a.restriction b.restriction ≡ ok c.restriction
  unfolding merge
  restriction-merge a b c h = ground arith

  -- When two valid annotations merge, the count of the result is positive and satisfies the
  -- restriction of each.
  pub as_usize-merge :
      (a b c : TaskCountAnnotation)
      → IsValid a.restriction
      → IsValid b.restriction
      → merge a b ≡ ok c
      → Admits a.restriction (as_usize c) × Admits b.restriction (as_usize c) × (0 < as_usize c)
  as_usize-merge a b c v w h =
      let e = restriction-merge a b c h in
      let fits = as_usize-Admits c (merge-IsValid a.restriction b.restriction _ v w e) in
      let both = merge-Admits a.restriction b.restriction _ _ v w e fits.0 in
      (both.0, both.1, fits.1)
