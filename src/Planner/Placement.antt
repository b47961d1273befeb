-- ===== src/Planner/Placement.antt =====
-- Where a planned plan has its boundaries, described by the plan it was made of.
pub mod Operators
pub mod Closed
pub mod Edges
pub mod Injected
use datafusion_distributed.Prelude.{ℕ, List, ◌≡◌, ◌⊎◌, Bool, true, false, Option, Result, ok}
use datafusion_distributed.TaskCount.Annotation.{as_usize}
use datafusion_distributed.Boundary.Shuffle.{direct, two_phase, producer_salt_default}
use datafusion_distributed.Planner.{
  Base, Session, Count, Operator, isolator_union, repartition, NetworkBoundary, network_shuffle,
  network_broadcast, network_coalesce, broadcast, coalesce_partitions, sort_preserving_merge, Plan,
  node, Plans, nil, cons, Staged, placed, boundary, Stageds, none, more,
}
use datafusion_distributed.Planner.Propagate.{scaled}
use datafusion_distributed.Boundary.Partitioning.{hash, range}

module _ (b : Base) (s : Session b) where
  open b use {f, api, D}

  -- An operator but for the tasks of a union.
  unfoldable pub kind : Operator b → Option (Operator b)
  kind (isolator_union n) = Option.none
  kind op = Option.some op

  -- A boundary, which for a shuffle by hash may be in two phases where its stage is `closed`.
  unfoldable pub Over :
      (closed : Bool) → NetworkBoundary b → (Staged b → Type 0) → Staged b → Type 0
  Over closed nb P (boundary nb' t n input) = (nb' ≡ nb) × P input
  Over false nb P (placed op d t cs) = ⊥
  Over true nb P (placed op d t none) = ⊥
  Over true nb P (placed op d t (more (placed op' d' t' cs') cs)) = ⊥
  Over true nb P (placed op d t (more (boundary nb' u n input) (more c cs))) = ⊥
  Over true nb P (placed op d t (more (boundary nb' u n input) none)) =
      (es : List api.E) × (k : ℕ) × (nb ≡ network_shuffle direct (hash es k))
      × (op ≡ repartition (hash es k))
      × (nb' ≡ network_shuffle (two_phase producer_salt_default) (hash es k))
      × P input

  -- A leaf, or what a handler puts in its place once its stage is closed.
  unfoldable pub Leaf : (closed : Bool) → Operator b → Staged b → Type 0
  unfolding kind
  Leaf false op r =
      (op' : Operator b) × (d : D) × (t : Count b) × (kind op' ≡ kind op)
      × (r ≡ placed op' d t none)
  Leaf true op r =
      (op' : Operator b) × (d : D) × (t : Count b) × (kind op' ≡ kind op)
      × (scaled b s op' d t (s.scale_up op' d (as_usize f t)) ≡ ok r)

  -- The boundary over an operator that exchanges rows between tasks.
  unfoldable pub exchange : Operator b → Option (NetworkBoundary b)
  exchange (repartition (hash es n)) = Option.some (network_shuffle direct (hash es n))
  exchange (repartition (range r)) = Option.some (network_shuffle direct (range r))
  exchange broadcast = Option.some network_broadcast
  exchange op = Option.none

  -- Whether an operator gathers all partitions in one.
  unfoldable pub gathers : Option (Operator b) → Bool
  gathers (Option.some coalesce_partitions) = true
  gathers (Option.some sort_preserving_merge) = true
  gathers parent = false

  unfoldable pub first_of : Option (NetworkBoundary b) → Bool → Option (NetworkBoundary b)
  first_of (Option.some nb) gathered = Option.some nb
  first_of Option.none true = Option.some network_coalesce
  first_of Option.none false = Option.none

  -- The boundary that is wanted over an operator below its parent.
  unfoldable pub wanted : Option (Operator b) → Operator b → Option (NetworkBoundary b)
  unfolding first_of exchange gathers
  wanted parent op = first_of (exchange op) (gathers parent)

  unfoldable pub At :
      Option (NetworkBoundary b) → (closed : Bool) → (Bool → Staged b → Type 0) → Staged b → Type 0
  unfolding Over
  At (Option.some nb) closed K r = Over closed nb (K true) r
  At Option.none closed K r = K closed r

  -- A plan with boundaries exactly where they are wanted.
  unfoldable mutual
    unfolding At Leaf kind wanted

    pub Cut : (closed : Bool) → Option (Operator b) → Plan b → Staged b → Type 0
    Cut closed parent (node op d ps) r = At (wanted parent op) closed (λ c r. Kept c op ps r) r

    pub Kept : (closed : Bool) → Operator b → Plans b → Staged b → Type 0
    Kept closed op nil r = Leaf closed op r
    Kept closed op (cons p ps) (boundary nb t n input) = ⊥
    Kept closed op (cons p ps) (placed op' d t none) = ⊥
    Kept closed op (cons p ps) (placed op' d t (more c cs)) =
        (kind op' ≡ kind op) × Cut closed (Option.some op) p c × CutAll closed op ps cs

    pub CutAll : (closed : Bool) → (parent : Operator b) → Plans b → Stageds b → Type 0
    CutAll closed parent nil none = Unit
    CutAll closed parent nil (more c cs) = ⊥
    CutAll closed parent (cons p ps) none = ⊥
    CutAll closed parent (cons p ps) (more c cs) =
        Cut closed (Option.some parent) p c × CutAll closed parent ps cs
