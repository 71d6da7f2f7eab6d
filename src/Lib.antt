-- ===== src/Lib.antt =====
-- Verification library of openEO-RuSTAC: models of the control logic of the openEO back end and of the
-- crates beside it, translated from the Rust sources.
--
-- The back end (apps/orbit-openeo) takes batch jobs over HTTP (routes/jobs.rs). A job is a record of the
-- job store (job_store.rs), in one of the states created, queued, running, canceled, finished and
-- error. A request to start it takes a permit, spawns a supervisor and registers it
-- (job_registry.rs); the supervisor spawns the runner and waits for it or for a signal to cancel. The
-- runner (runner.rs) drives the job: it asks the executor for a result under a timeout, stores the body
-- in the file store (file_store.rs), attaches the asset to the job, publishes events, and records a
-- metric. The executor (executor.rs) analyses the process graph (process_graph.rs) for cycles and for
-- an order of evaluation, and evaluates its nodes in that order. A download reads the asset back.
--
-- The pipeline engine (crates/orbit-etl) runs apart from this: it writes the rows of a source to a
-- table of SQLite in batches. Beside these stand parts that other code is to build on: a planner of
-- blocks (chunk_plan.rs), a memory budget for their workers (block_executor.rs), a grid of blocks and a
-- driver over it (crates/eo-kernel), a cache of files (crates/orbit-cache), and retries and a circuit
-- breaker (crates/orbit-resilience).
--
-- Files, and the code that each is about:
--   Prelude: the names, the result type, tests on numbers, list functions and printing that the
--     parts share. Numbers are native naturals; a word of 64 bits keeps its wrap-around.
--   Json: the values of serde_json.
--   Job: the types of apps/orbit-openeo/src/job_store.rs. A progress is a whole percentage: the
--     code's f64 is only ever given whole ones.
--   Civil: iso8601 and days_to_ymd of job_store.rs, for times below 2^63 seconds.
--   JobStore: InMemoryJobStore of job_store.rs: each method is a function on the store; the clock
--     and the fresh UUID are arguments.
--   JobRunner: run_job of apps/orbit-openeo/src/runner.rs over any job store, file store and
--     executor; Interface has the contract of a job store, Memory has the in-memory store as an
--     instance.
--   ChunkPlan: ChunkPlan::plan of apps/orbit-openeo/src/chunk_plan.rs, in 64-bit arithmetic; isqrt
--     is the largest number whose square fits.
--   ProcessGraph: ProcessGraphAnalysis, the walks over arguments and the check of process ids of
--     apps/orbit-openeo/src/process_graph.rs. petgraph's cycle test and sort are parameters; Order
--     states what is assumed of them.
--   LocalExecutor: LocalExecutor and EchoExecutor of apps/orbit-openeo/src/executor.rs: the check
--     of the request, the loop over the nodes with its memo, and the processes that it knows. The
--     arithmetic of f64, the catalog, what serde_json reads and the hash are parameters. Jobs
--     composes it with the runner.
--   GeoExecutor: apps/orbit-openeo/src/geo_executor: the registry of processes (registry.rs) with
--     its hints for a misspelt name, the evaluation of a graph over it (mod.rs), the processes on
--     arrays (eval_arrays.rs) and on numbers (registry.rs), the evaluation of the callback of
--     apply for one pixel (eval_apply.rs, sub_graph.rs), and run_sync with the saving of a result
--     (mod.rs). A handler is a function on a world of its own; the arithmetic of f64, the files
--     and the encoders are parameters.
--   TypedIr: apps/orbit-openeo/src/process_graph_ir.rs, the graph with a type for each process:
--     Lifting has how the nodes are parsed, callbacks included, and Depth the bound on their
--     nesting.
--   JobControl: start_processing with its supervisor task and discard_results of
--     apps/orbit-openeo/src/routes/jobs.rs, and apps/orbit-openeo/src/job_registry.rs: Steps has
--     the steps of requests, supervisors and runs, which interleave in any order.
--   JobRoutes: the other handlers of routes/jobs.rs, as functions from the store to a response and
--     the store; Downloads composes them with the runner and the file store.
--   FileStore: validate_path and InMemoryFileStore of apps/orbit-openeo/src/file_store.rs;
--     Refinement has the specification, a partial function from keys to bodies.
--   Etl: the task of a pipeline run of crates/orbit-etl/src/engine.rs, and the checks of
--     crates/orbit-etl/src/spec.rs. Events and Rows have what a run sends and what it writes.
--   Kernel: enumerate_blocks and apply_blocks of crates/eo-kernel/src/executor.rs, on the types of
--     eo-core.
--   MemoryBudget: the atomic budget of apps/orbit-openeo/src/block_executor.rs, as steps of
--     threads that interleave.
--   FileCache: the file cache of crates/orbit-cache/src/lib.rs. The digest and the file system are
--     arguments.
--   Resilience: RetryPolicy, retry_async and CircuitBreaker of crates/orbit-resilience/src/lib.rs.
--
-- Fuel: the loop of retry_async is given one round more than the allowed attempts, and the eviction
-- loop one more than there are entries, since each round but the last removes one. The loops over
-- chunks and over the batches of a chunk are given one round for each row, of which each round
-- takes at least one. The recursion of a callback through its links is given one round more than
-- the graph has nodes, since each node is in progress at most once. The typed graph's recursion
-- into callbacks takes a round for each level at which the arguments nest. Every other loop is
-- structural.
--
-- Not modelled: the SQLite job store, the HTTP routes but for those on jobs, the registry's drain,
-- authentication and the URL policy, the file store over object_store, the tokio tasks of
-- run_blocks, jittered delays, the scan of a cache's directory, the reading of sources and the
-- texts of the statements in the ETL engine, the handlers of processes and masks on rasters
-- (geo_executor, eo-mask, orbit-geo: floating point and GDAL), raster_to_png_bytes and the encoders
-- of one pixel, download and catalogue clients, observability, the command line and the servers.
-- Most of these are input and output, or numeric code over third-party libraries.
pub mod Prelude
pub mod ChunkPlan
pub mod Civil
pub mod Etl
pub mod FileCache
pub mod FileStore
pub mod GeoExecutor
pub mod Job
pub mod JobControl
pub mod JobRoutes
pub mod JobRunner
pub mod JobStore
pub mod Json
pub mod Kernel
pub mod LocalExecutor
pub mod MemoryBudget
pub mod ProcessGraph
pub mod Resilience
pub mod TypedIr
