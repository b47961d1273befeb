-- ===== src/Planner/Placement/Edges.antt =====
-- The planner crosses the edges at which a boundary is wanted.
use datafusion_distributed.Prelude.{◌≡◌, refl, Bool, true, false, Option}
use datafusion_distributed.Boundary.Partitioning.{
  hash, round_robin_batch, unknown_partitioning, range,
}
use datafusion_distributed.Planner.{
  Base, Session, Operator, isolator_union, hash_join, nested_loop_join, repartition, cross_join,
  broadcast, coalesce_partitions, sort_preserving_merge, other, NetworkBoundary,
}
use datafusion_distributed.Planner.Inject.{Edge, crosses, root, inside, below_parent, edge}
use datafusion_distributed.Planner.Placement.{first_of, gathers, wanted}

module _ (b : Base) (s : Session b) where
  open b use {f, api, D, E}

  unfoldable pub is_root : Edge b → Bool
  is_root (crosses nb) = false
  is_root root = true
  is_root inside = false

  unfoldable pub boundary_of : Edge b → Option (NetworkBoundary b)
  boundary_of (crosses nb) = Option.some nb
  boundary_of root = Option.none
  boundary_of inside = Option.none

  below_parent_lem :
      (parent : Option (Operator b))
      → boundary_of (below_parent b parent) ≡ first_of b s Option.none (gathers b s parent)
  unfolding below_parent boundary_of first_of gathers
  below_parent_lem Option.none = refl
  below_parent_lem (Option.some (isolator_union n)) = refl
  below_parent_lem (Option.some (hash_join l a t)) = refl
  below_parent_lem (Option.some (nested_loop_join t)) = refl
  below_parent_lem (Option.some cross_join) = refl
  below_parent_lem (Option.some (repartition p)) = refl
  below_parent_lem (Option.some broadcast) = refl
  below_parent_lem (Option.some coalesce_partitions) = refl
  below_parent_lem (Option.some sort_preserving_merge) = refl
  below_parent_lem (Option.some other) = refl

  -- The planner crosses where a boundary is wanted.
  pub edge_lem :
      (parent : Option (Operator b)) (op : Operator b)
      → boundary_of (edge b parent op) ≡ wanted b s parent op
  unfolding edge boundary_of wanted
  edge_lem parent broadcast = refl
  edge_lem parent (repartition (hash es n)) = refl
  edge_lem parent (repartition (range r)) = refl
  edge_lem parent (isolator_union n) = below_parent_lem parent
  edge_lem parent (hash_join l a t) = below_parent_lem parent
  edge_lem parent (nested_loop_join t) = below_parent_lem parent
  edge_lem parent cross_join = below_parent_lem parent
  edge_lem parent coalesce_partitions = below_parent_lem parent
  edge_lem parent sort_preserving_merge = below_parent_lem parent
  edge_lem parent other = below_parent_lem parent
  edge_lem parent (repartition (round_robin_batch n)) = below_parent_lem parent
  edge_lem parent (repartition (unknown_partitioning n)) = below_parent_lem parent

  is_root-below_parent : (q : Operator b) → is_root (below_parent b (Option.some q)) ≡ false
  unfolding below_parent is_root
  is_root-below_parent (isolator_union n) = refl
  is_root-below_parent (hash_join l a t) = refl
  is_root-below_parent (nested_loop_join t) = refl
  is_root-below_parent cross_join = refl
  is_root-below_parent (repartition p) = refl
  is_root-below_parent broadcast = refl
  is_root-below_parent coalesce_partitions = refl
  is_root-below_parent sort_preserving_merge = refl
  is_root-below_parent other = refl

  pub is_root-edge : (q op : Operator b) → is_root (edge b (Option.some q) op) ≡ false
  unfolding edge is_root
  is_root-edge q broadcast = refl
  is_root-edge q (repartition (hash es n)) = refl
  is_root-edge q (repartition (range r)) = refl
  is_root-edge q (isolator_union n) = is_root-below_parent q
  is_root-edge q (hash_join l a t) = is_root-below_parent q
  is_root-edge q (nested_loop_join t) = is_root-below_parent q
  is_root-edge q cross_join = is_root-below_parent q
  is_root-edge q coalesce_partitions = is_root-below_parent q
  is_root-edge q sort_preserving_merge = is_root-below_parent q
  is_root-edge q other = is_root-below_parent q
  is_root-edge q (repartition (round_robin_batch n)) = is_root-below_parent q
  is_root-edge q (repartition (unknown_partitioning n)) = is_root-below_parent q
