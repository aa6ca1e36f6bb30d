-- ===== src/Lib.antt =====
-- Verification of Veloce: the scheduler of its controller, the books of its workers, the reports of
-- workers, the requests of clients about reservations, the policies for jobs and requests, and the
-- parsers of dependencies and of Slurm options.
--
-- The controller (controller/src) keeps one state behind a lock, `GlobalState` of state.rs: workers
-- with their free and assigned cores and resource ids, jobs, the queue, steps, usage and
-- reservations. A scheduling pass (scheduler/mod.rs) takes the queue in the order of priority, tests
-- dependencies, room and backfilling, evicts preemptible jobs for interactive ones, allocates cores
-- and ids, and sends the job to its workers. Jobs end, are preempted, time out or are pruned in
-- scheduler/finalize.rs, and their steps are submitted and dispatched in scheduler/steps.rs. Workers
-- report what their jobs do (handlers/worker.rs); the last report of a job ends it and gives its
-- cores back. Clients reserve machines (api/reservations.rs), within a number of requests in a minute
-- (rate_limit.rs). The Slurm-shaped tools (veloce-slurm/src) turn options into a submission. The
-- MPI processes of a step exchange keys and meet at barriers through their worker and the controller.
--
-- Base          lists, maps, sets, texts and machine integers that the other modules share
-- Types         common/src/types/mod.rs and common/src/apptainer.rs: Job, Step, Cluster (machines
--               and reservations), Dependency (`DependencySpec::parse`), Container, Floats
-- Common        RingBuffer (common/src/ring_buffer.rs), JobPolicy (common/src/job_policy.rs)
-- Controller    Messages (common/src/message.rs), State (controller/src/state.rs, and
--               `send_to_worker` of controller/src/handlers/worker.rs), Usage (common/src/usage.rs
--               and `calculate_effective_priority`), Worker (one worker's side of
--               `release_job_resources_internal` and of the allocation in `schedule_jobs`),
--               Finalize and Timeouts (controller/src/scheduler/finalize.rs, and `job_to_usage` of
--               controller/src/persistence.rs), Reconcile (`reconcile_missing_worker_jobs` of
--               controller/src/state.rs), Rebuild (`rebuild_worker_allocations` there), Reports
--               (`handle_worker_message` of controller/src/handlers/worker.rs), Steps
--               (controller/src/scheduler/steps.rs), JobLogs (controller/src/job_logs.rs), Auth
--               (`AuthenticatedPrincipal` of controller/src/auth.rs), Reservations
--               (controller/src/api/reservations.rs), RateLimit (controller/src/rate_limit.rs), Pmi (the
--               PMI messages of `handle_worker_message`), Sessions (`handle_worker` of
--               controller/src/handlers/worker.rs: registration, heartbeats, disconnection),
--               Submission (controller/src/submission.rs)
-- Scheduler     controller/src/scheduler/mod.rs: Dependencies (`are_dependencies_satisfied`), Cycle
--               (`has_cycle`), Projection (`calculate_earliest_start_time`), and `schedule_jobs` in
--               four parts: Fits (does a job fit on a worker), Selection (which workers, which
--               evictions), Launch (what happens to a job whose workers are chosen), Pass (the loop)
-- Slurm         veloce-slurm/src: Time (timeparse.rs), Gres (gres.rs), Spec, Options, Values, Script,
--               Parse and Tools (parse.rs), Invoke (invoke.rs, wrap.rs), Format (format.rs), Facade
--               (lib.rs)
-- Worker        Pmi (`process_pmi_request` of worker/src/pmi.rs)
-- Cli           cli/src/main.rs: Dependencies (`--dependency` of `submit`), ArrayRange
--               (`parse_array_range`)
-- Tests         the theorems at a small cluster
--
-- How the source is rendered. A function of the source that changes the state is a function from
-- state to state; a panic is `none`; messages, notifications, written files and records for the
-- accounting store are a log of effects in the state. A `HashMap`, `BTreeMap` or `DashMap` is an
-- association list, a `HashSet` a list without repetition; the order of the list stands for the
-- order of iteration, on which no theorem relies, except that the maps that `schedule_jobs` builds
-- for groups of equal machines come in the order of their first entries. `as u32`, and sums of u32
-- and u64, wrap. `f64` values are bit patterns, and their arithmetic is a parameter, as are the
-- clock, the environment variables, `str::to_lowercase`, serde_json, the runner of `veloce`, the file server and the
-- answers of the accounting store.
-- Sorting is a stable insertion sort by the source's comparison. Where a handler gives up the lock
-- and takes it again, what others do to the state then is an argument.
--
-- Fuel. Only `has_cycle` and the range of `parse_array_range` recurse other than on a list. The range
-- takes as many steps as it has numbers, since a step is at least 1. `has_cycle` takes fuel: each nested call visits a
-- job that was not visited before, and a job that is not stored has no parents, so the depth is at
-- most the number of stored jobs and one more.
--
-- Not modelled: network, files, processes, databases and cryptography; the copies of the state for
-- readers without the lock (`sync_active_state_to_dashmaps`, `save_state`); log lines; channels for
-- logs, terminals and step output; the handlers of client messages; what a follower passes on to
-- its leader; high availability;
-- the rest of the worker, the file server, the rest of the command lines and the web interface.
pub mod Base
pub mod Types
pub mod Cli
pub mod Common
pub mod Controller
pub mod Scheduler
pub mod Slurm
pub mod Worker
pub mod Tests
