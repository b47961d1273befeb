-- ===== src/Boundary.antt =====
-- The network boundaries between two stages: which partitions of which producer task a consumer
-- task reads (src/execution_plans/common.rs, network_coalesce.rs, network_shuffle.rs,
-- network_broadcast.rs).
pub mod Partitioning
pub mod Coalesce
pub mod Shuffle
pub mod NetworkBroadcast
pub mod Examples
mod Instances
