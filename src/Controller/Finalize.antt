-- ===== src/Controller/Finalize.antt =====
-- controller/src/scheduler/finalize.rs: jobs that end, are preempted or are pruned, and
-- `job_to_usage` of controller/src/persistence.rs. `now` is the reading of the clock.
pub mod Books
pub mod Closed
pub mod Outcome
pub mod Pruned
pub mod Alive
use veloce_ce.Base.{
  ℕ, zero, ◌+◌, ◌-◌, ◌*◌, ◌<◌, String, Bool, true, false, not, ◌&&◌, Option, none, some, List, [],
  ◌∷◌, ◌++◌, Map, map, get, get_or, insert, remove, adjust, contains, nat_eq, string_eq, ltb,
  if◌then◌else◌, head?, join, format, add64, ℤ,
}
use veloce_ce.Types.Floats.{Floats, F64, zero_float}
use veloce_ce.Types.Job.{
  JobInfo, JobStatus, JobUsage, FileHandle, pending, running, completed, failed, killed, is_running,
}
use veloce_ce.Controller.Messages.{preempt_job as preempt_message, recorded}
use veloce_ce.Controller.State.{
  GlobalState, WorkerHandle, send, log_effect, leader, follower, ControllerRole,
}
use veloce_ce.Controller.Usage.{accrue}
use veloce_ce.Controller.Worker.{release_on}

unfoldable pub release_workers :
    List String → ℕ → JobInfo → Map String WorkerHandle → Map String WorkerHandle
release_workers [] job_id job workers = workers
release_workers (id ∷ ids) job_id job workers =
    release_workers ids job_id job (adjust id (release_on id job_id job) workers)

unfoldable pub release_job_resources : ℕ → GlobalState → GlobalState
release_job_resources job_id s = elim (get job_id s.jobs) [
  | none ↦ s
  | some job ↦ record s { workers = release_workers job.assigned_workers job_id job s.workers }
]

-- A job put back to wait
abbrev pub reset_pending : JobInfo → JobInfo
reset_pending job = record job {
  status = pending;
  start_time = none;
  assigned_workers = [];
  allocated_cores = [];
  allocated_gres = [];
  current_cpu_usage = zero_float;
  current_memory_usage = 0;
  reason = some "Preempted by higher priority job";
}

abbrev pub notify_head : Option String → ℕ → GlobalState → GlobalState
notify_head none job_id s = s
notify_head (some worker_id) job_id s = send worker_id (preempt_message job_id) s

abbrev pub enqueue : ℕ → List ℕ → List ℕ
enqueue job_id queue = if contains job_id queue then queue else queue ++ job_id ∷ []

unfoldable pub preempt_running : ℕ → JobInfo → GlobalState → GlobalState
preempt_running job_id job s =
    let t = release_job_resources job_id (notify_head (head? job.assigned_workers) job_id s) in
    record t { jobs = adjust job_id reset_pending t.jobs; queue = enqueue job_id t.queue }

unfoldable pub preempt_job : ℕ → GlobalState → GlobalState
preempt_job job_id s = elim (get job_id s.jobs) [
  | none ↦ s
  | some job ↦ if is_running job.status then preempt_running job_id job s else s
]

-- The cost of a running job: seconds times nodes times cores.
pub accrue_job : Floats → ℕ → JobInfo → GlobalState → GlobalState
accrue_job f now job s = elim job.start_time [
  | none ↦ s
  | some start ↦
      if is_running job.status
      then record s {
        usage_tracker =
            accrue f job.user_id
              (f.mul (f.of_nat (now - start))
                (f.mul (f.of_nat job.req_nodes) (f.of_nat job.req_cores)))
              s.usage_tracker;
      }
      else s
]

abbrev pub finished : ℕ → JobStatus → JobInfo → JobInfo
finished now status job = record job {
  status = status;
  current_cpu_usage = zero_float;
  current_memory_usage = 0;
  end_time = some now;
  reason = none;
}

abbrev accrue_found : Floats → ℕ → Option JobInfo → GlobalState → GlobalState
accrue_found f now none s = s
accrue_found f now (some job) s = accrue_job f now job s

abbrev pub input_files : Option JobInfo → List String
input_files none = []
input_files (some job) = map (λ (h : FileHandle). h.file_id) job.inputs

-- The new state, and the files to delete.
pub finalize_job : Floats → ℕ → ℕ → JobStatus → GlobalState → GlobalState × List String
finalize_job f now job_id status s =
    let t = release_job_resources job_id (accrue_found f now (get job_id s.jobs) s) in
    (
      record t { jobs = adjust job_id (finished now status) t.jobs },
      input_files (get job_id s.jobs),
    )

-- A finished job that is past its retention; without an end time, a day is added to its queueing.
pub is_old : ℕ → ℕ → JobInfo → Bool
is_old now retention job = elim job.status [
  | pending ↦ false
  | running ↦ false
  | _ ↦ elim job.end_time [
    | some end_time ↦ ltb retention (now - end_time)
    | none ↦ ltb (add64 retention 86400) (now - job.queued_time)
  ]
]

pub old_jobs : ℕ → ℕ → Map ℕ JobInfo → List ℕ
old_jobs now retention [] = []
old_jobs now retention ((id, job) ∷ jobs) =
    let rest = old_jobs now retention jobs in if is_old now retention job then id ∷ rest else rest

pub remove_all : List ℕ → Map ℕ JobInfo → Map ℕ JobInfo
remove_all [] jobs = jobs
remove_all (id ∷ ids) jobs = remove_all ids (remove id jobs)

pub prune_jobs : ℕ → ℕ → GlobalState → GlobalState
prune_jobs now retention s = elim s.role [
  | follower ↦ s
  | leader ↦ record s { jobs = remove_all (old_jobs now retention s.jobs) s.jobs }
]

abbrev exit_code_of : JobStatus → Option ℤ
exit_code_of (completed code) = some code
exit_code_of _ = none

pub job_to_usage : JobInfo → JobUsage
job_to_usage job = record {
  container_asset = job.container_asset;
  job_id = job.id;
  job_name = job.job_name;
  job_comment = job.job_comment;
  user_id = job.user_id;
  command_line = format (job.binary ∷ " " ∷ join " " job.args ∷ []);
  submission_time = job.queued_time;
  start_time = job.start_time;
  end_time = job.end_time;
  exit_code = exit_code_of job.status;
  status = job.status;
  cpu_time_ms = 0;
  max_memory_bytes = 0;
  req_nodes = job.req_nodes;
  req_cores = job.req_cores;
  req_memory = job.req_memory;
  array_id = job.array_id;
  array_task_id = job.array_task_id;
  assigned_workers = job.assigned_workers;
  gres_req = job.gres_req;
  cgroup_active = job.cgroup_active;
  secret = job.secret;
  stdout_file_id = job.stdout_file_id;
  stderr_file_id = job.stderr_file_id;
  workdir_file_id = job.workdir_file_id;
  worker_log_files = job.worker_log_files;
  output_artifacts = job.output_artifacts;
  wait_for_licenses = job.wait_for_licenses;
  estimated_walltime = job.estimated_walltime;
  priority_offset = job.priority_offset;
  dependencies = job.dependencies;
  dependency_specs = job.dependency_specs;
  qos = job.qos;
}

-- The job as it ended goes to the accounting store.
pub record_job : Option JobInfo → GlobalState → GlobalState
record_job none s = s
record_job (some job) s = log_effect (recorded (job_to_usage job)) s

-- A job that ends leaves the state, once its end is recorded.
pub close_job : Floats → ℕ → ℕ → JobStatus → GlobalState → GlobalState
close_job f now job_id status s =
    let t = (finalize_job f now job_id status s).0 in
    record_job (get job_id t.jobs) (record t { jobs = remove job_id t.jobs })
