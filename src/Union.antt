-- ===== src/Union.antt =====
-- `ChildrenIsolatorUnionExec` of src/execution_plans/children_isolator_union.rs: a union whose
-- children run in isolation on the tasks of a stage.
pub mod Slots
pub mod Counts
pub mod Split
pub mod Node
mod Examples
