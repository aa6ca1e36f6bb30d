-- ===== src/Controller/Timeouts.antt =====
-- `check_timeouts` of controller/src/scheduler/finalize.rs: running jobs past their limit, and workers
-- that stay away. The copies of the state that readers see without the lock are not part of it.
pub mod Effect
pub mod Alive
use veloce_ce.Base.{
  ℕ, ◌-◌, String, Bool, true, false, not, ◌&&◌, ◌||◌, Option, none, some, List, [], ◌∷◌, ◌++◌, Map,
  get, remove, adjust, nat_eq, string_eq, ltb, if◌then◌else◌, head?, is_empty, add64,
}
use veloce_ce.Types.Floats.{Floats, zero_float}
use veloce_ce.Types.Job.{JobInfo, JobStatus, failed, is_running}
use veloce_ce.Controller.Messages.{terminate_job, recorded, notified}
use veloce_ce.Controller.State.{GlobalState, WorkerHandle, leader, follower, send, log_effect}
use veloce_ce.Controller.Finalize.{close_job}

-- The part of `ControllerContext` that the check changes; the metrics of a worker are any data.
pub record Context (Metrics : Type 0) : Type 0 where
  pub state : GlobalState
  pub missing_jobs : Map ℕ ℕ
  pub failed_jobs : ℕ
  pub metrics_store : Map String Metrics

abbrev pub past_limit : ℕ → JobInfo → Bool
past_limit now job =
    is_running job.status
    && ltb 0 job.walltime
    && (elim job.start_time [ none ↦ false | some start ↦ ltb job.walltime (now - start) ])

pub timed_out_jobs : ℕ → Map ℕ JobInfo → List ℕ
timed_out_jobs now [] = []
timed_out_jobs now ((id, job) ∷ jobs) =
    let rest = timed_out_jobs now jobs in if past_limit now job then id ∷ rest else rest

-- A worker is given 60 seconds to come back.
pub dead_workers : ℕ → Map String WorkerHandle → List String
dead_workers now [] = []
dead_workers now ((id, w) ∷ ws) =
    let rest = dead_workers now ws in
    if not w.connected && ltb 60 (now - w.last_seen) then id ∷ rest else rest

pub terminate_head : ℕ → GlobalState → GlobalState
terminate_head job_id s = elim (get job_id s.jobs) [
  | none ↦ s
  | some job ↦ elim (head? job.assigned_workers) [
    | none ↦ s
    | some worker_id ↦ send worker_id (terminate_job job_id) s
  ]
]

abbrev pub no_usage : JobInfo → JobInfo
no_usage job = record job { current_cpu_usage = zero_float; current_memory_usage = 0 }

-- A job that fails leaves the state, once its end is recorded.
pub fail_and_drop : Floats → ℕ → ℕ → String → GlobalState → GlobalState
fail_and_drop f now job_id why s = close_job f now job_id (failed why) s

module _ {Metrics : Type 0} (f : Floats) (now : ℕ) where
  pub fail_job : ℕ → String → Context Metrics → Context Metrics
  fail_job job_id why c = record c {
    state = fail_and_drop f now job_id why c.state;
    missing_jobs = remove job_id c.missing_jobs;
    failed_jobs = add64 c.failed_jobs 1;
  }

  pub time_out : List ℕ → Context Metrics → Context Metrics
  time_out [] c = c
  time_out (id ∷ ids) c =
      time_out ids (fail_job id "Timeout" (record c { state = terminate_head id c.state }))

  pub fail_on_worker : List ℕ → Context Metrics → Context Metrics
  fail_on_worker [] c = c
  fail_on_worker (id ∷ ids) c = fail_on_worker ids (
      fail_job id "Worker timeout"
        (record c { state = record c.state { jobs = adjust id no_usage c.state.jobs } }))

  pub bury : String → Context Metrics → Context Metrics
  bury worker_id c =
      fail_on_worker (elim (get worker_id c.state.workers) [ none ↦ [] | some w ↦ w.assigned_jobs ])
        (record c {
          state = record c.state { workers = remove worker_id c.state.workers };
          metrics_store = remove worker_id c.metrics_store;
        })

  pub bury_all : List String → Context Metrics → Context Metrics
  bury_all [] c = c
  bury_all (id ∷ ids) c = bury_all ids (bury id c)

  pub notify : Bool → Context Metrics → Context Metrics
  notify changed c = if changed then record c { state = log_effect notified c.state } else c

  -- On the leader
  pub check_all : Context Metrics → Context Metrics
  check_all c =
      let late = timed_out_jobs now c.state.jobs in
      let d = time_out late c in
      let dead = dead_workers now d.state.workers in
      notify (not (is_empty late) || not (is_empty dead)) (bury_all dead d)

  pub check_timeouts : Context Metrics → Context Metrics
  check_timeouts c = elim c.state.role [ follower ↦ c | leader ↦ check_all c ]
