-- ===== src/Lib.antt =====
-- Verification of the core of datafusion-distributed, which runs a DataFusion plan as stages of
-- tasks on several workers.
--
-- The planner cuts a plan into stages at network boundaries and gives each stage a number of
-- tasks. The library follows that way: how task counts are restricted and merged (TaskCount),
-- where the planner puts boundaries and which count each node gets (Planner), how a union spreads
-- its children over the tasks of its stage (Union), which partitions of which producer task a task
-- of the consumer stage reads (Boundary), the connections by which it reads them (Pool), the queue
-- of a broadcast (Broadcast), the slot by which a worker hands a task's plan to the requests for its
-- partitions (Slot), how a dynamic filter is merged from what its producers report (Filters), how a
-- task finds its worker (Routing), and how an error gets back from a worker (Wire).
--
-- Prelude: helpers that all share. Result is Rust's `Result`; Prelude.Float is the interface of
-- `f64`, which has no laws, so nothing rests on rounding; Prelude.FixedPoint is an instance on
-- natural numbers for the tests.
--
-- TaskCount (src/events/desired_task_count.rs): `TaskCountRestriction` and its `merge`, by a
-- function for each pair of cases. TaskCount.Annotation: `TaskCountAnnotation`, `merge` and
-- `as_usize`. A `NonZeroUsize` is a natural number, and IsValid says that it is positive.
--
-- Union (src/execution_plans/children_isolator_union.rs): Union.Split is `split_children`, with
-- its steps 2 to 5 in Union.Counts and 6 and 7 in Union.Slots; Union.Node is
-- `ChildrenIsolatorUnionExec`. A child plan is its partition count and whether it is an empty
-- placeholder. Executing a task that the union does not have panics, which is an error of `execute` in
-- the model. The while loop of step 5 runs on fuel equal to the unallocated tasks, one of which
-- each turn uses up, so it is never short.
--
-- Planner (src/distributed_planner/inject_network_boundaries.rs): a plan is a tree of operators, of
-- which what the planner tests is modelled and all else is opaque. The planned tree has the recorded
-- count at each node, which the source keeps in a map by the node's address, and boundaries with their
-- input stages. Planner.Propagate is `propagate_task_count_until_network_boundaries`, Planner.Inject
-- `_inject_network_boundaries` with `CardinalityBasedNetworkBoundaryBuilder`; Planner.Stages and
-- Planner.Placement describe the plans that come out, and Planner.Errors which errors can. Handlers,
-- the resolver of workers and the rebuilding of an operator of DataFusion are parameters. A plan is a
-- tree, so no node has two parents. Stages are not numbered, for a later pass numbers them.
--
-- Boundary (src/execution_plans/network_coalesce.rs, src/execution_plans/common.rs):
-- Boundary.Partitioning has the helpers of common.rs; Boundary.Coalesce is `NetworkCoalesceExec`
-- and `task_group`. Expressions and range partitionings of DataFusion are parameters.
--
-- Boundary.Shuffle and Boundary.NetworkBroadcast (src/execution_plans/network_shuffle.rs,
-- network_broadcast.rs): the nodes with the requests that each partition of each consumer task makes
-- of the connection pool. Equivalence properties are a parameter.
--
-- Pool (src/worker/worker_connection_pool.rs): `WorkerConnectionPool`, by which the partitions of a
-- boundary share a connection to each producer task. A group is found by the producer task and the
-- range of partitions that its connection spans; its setup is one step whose input is what the worker
-- answered. Pool.Shuffles puts the requests of a shuffle's partition to the pool, as
-- `NetworkShuffleExec::execute` does.
--
-- Broadcast (src/execution_plans/broadcast.rs): the queue by which every consumer task of a
-- broadcast gets all batches. The mutex makes each call atomic, and a run is a list of calls with the
-- values that the queue has taken. The release after a poll that finds the end is part of the poll:
-- the queue is closed by then, so nothing is pushed in between.
--
-- Slot (src/worker/single_write_multi_read.rs): `SingleWriteMultiRead`. The mutex makes each call
-- atomic, so a run is a list of calls. A read is a state that is polled; its timer expires by a
-- step of its own.
--
-- Wire (src/protocol/grpc/errors, src/common/retry_outcome.rs): a module for each kind of error with
-- its messages and conversions, Wire.Types and Wire.Convert for `DataFusionError`, Wire.Status for
-- the statuses and the retry outcomes. Wire.Arrivals says what arrives of an error and
-- Wire.Lossless which errors arrive as they were. What reads and writes the bytes is a parameter
-- (WireApi) that skips fields with a tag that is not listed and has a limit of nesting. The
-- conversions are those of a build with the features `parquet` and `sql`.
--
-- Filters (src/coordinator/dynamic_filter_registry.rs): the registry for one dynamic filter, with its
-- schema, its producers and consumers, the senders of tasks and the stages that are sealed.
-- Filters.Merge is `merge` and `merge_predicates`, Filters.Updates the recording of an update and the
-- sealing up to the merge, Filters.Dispatch the dispatch to the consumers and the calls that end in
-- it, Filters.Registry the registration of a task and the calls as one type. Filters.Completion says
-- apart from the code when producers are complete. The registry's mutex
-- makes each call atomic. Whether the query has ended and which channels are open comes with a call.
-- The registry is that of one query, so a task's key is its stage and number. Expressions and schemas
-- of DataFusion are parameters. Not modelled: the search of a plan for producers and consumers, and
-- the decoding of an update.
--
-- Routing (src/events/defaults/routing.rs): `dial_with_failover`, which gives a task its worker. The
-- loop over the attempts runs on as many as the configuration allows; what a worker answers, which
-- outcome an error stands for and the shuffling are parameters.
--
-- Machine integers are natural numbers where the code never exceeds them: counts of tasks and
-- partitions are sizes of vectors in memory, and generations would take 2^64 reservations.
mod Prelude
pub mod TaskCount
pub mod Boundary
pub mod Slot
pub mod Union
pub mod Wire
pub mod Broadcast
pub mod Filters
pub mod Planner
pub mod Pool
pub mod Routing
