-- ===== src/Filters.antt =====
-- The dynamic filters that the coordinator merges: src/coordinator/dynamic_filter_registry.rs. One
-- filter is modelled, with the stages that are sealed; what finds producers and consumers in a plan
-- and the sending of a merged filter are not.
pub mod Merge
pub mod Updates
pub mod Completion
pub mod Merged
pub mod Lifetime
pub mod Coherence
pub mod FirstMerge
pub mod Waiting
pub mod Dispatch
pub mod Registry
pub mod Examples
