-- ===== src/Controller/Reports.antt =====
-- `handle_worker_message` of controller/src/handlers/worker.rs: what a worker reports of its jobs and
-- steps, and `merge_usage_report_with_job` of controller/src/persistence.rs. Output, logs, terminals
-- and those who wait for a step are left out, as are audit events, the deletion of input files and
-- the wake-up of the scheduler.
pub mod Handled
pub mod Last
use veloce_ce.Base.{
  ℕ, String, Bool, true, false, not, ◌&&◌, Option, none, some, List, [], ◌∷◌, Map, get, get_or,
  remove, adjust, nat_eq, string_eq, pair_eq, leb, if◌then◌else◌, head?, is_empty, add64, ℤ,
}
use veloce_ce.Types.Floats.{Floats}
use veloce_ce.Types.Job.{
  JobInfo, JobStatus, JobUsage, MpiStats, WorkerLogFiles, running, completed, failed, killed,
  is_running,
}
use veloce_ce.Types.Step
use veloce_ce.Types.Step.{StepInfo, StepStatus}
use veloce_ce.Controller.Messages.{recorded}
use veloce_ce.Controller.State.{GlobalState, WorkerHandle, MultinodeJobTracking, log_effect}
use veloce_ce.Controller.Finalize.{close_job, job_to_usage}
use veloce_ce.Controller.JobLogs.{
  mark_worker_done, expected_done_workers, tracking_to_worker_log_files, cleanup_job_tracking,
  record_worker_log_files, prefer,
}

pub data Report : Type 0 where
  worker_draining : String → Report
  job_started : ℕ → Report
  job_interactive_port : ℕ → ℕ → Report
  job_done : ℕ → ℤ → Report
  job_error : ℕ → String → Report
  job_killed : ℕ → Report
  step_started : ℕ × ℕ → Report
  step_done : ℕ × ℕ → ℤ → Report
  step_error : ℕ × ℕ → String → Report
  report_job_usage : JobUsage → Report

-- The part of `ControllerContext` that the reports change.
pub record Desk : Type 0 where
  pub state : GlobalState
  pub missing_jobs : Map ℕ ℕ
  pub completed_jobs : ℕ
  pub failed_jobs : ℕ

-- What is outside: the clock, the merged log files of a job, what its output says of MPI, and what
-- other handlers do to the state while the handler has no lock.
pub record Outside : Type 0 where
  pub floats : Floats
  pub now : ℕ
  pub stdout_id : Option String
  pub stderr_id : Option String
  pub mpi_stats : Option MpiStats
  pub until_copy : GlobalState → GlobalState
  pub until_upload : GlobalState → GlobalState

abbrev pub LogMap : Type 0
LogMap = Map String (Option String × Option String)

abbrev pub drain_worker : WorkerHandle → WorkerHandle
drain_worker w = record w { draining = true }

-- Is the first worker of the job one with cgroups?
pub has_cgroup : ℕ → GlobalState → Bool
has_cgroup job_id s = elim (get job_id s.jobs) [
  | none ↦ false
  | some job ↦ elim (head? job.assigned_workers) [
    | none ↦ false
    | some id ↦ elim (get id s.workers) [ none ↦ false | some w ↦ w.cgroup_enabled ]
  ]
]

abbrev pub set_started : Bool → JobInfo → JobInfo
set_started cgroup job = record job { status = running; cgroup_active = cgroup }

-- The first lock of `JobDone`: is this the last worker of a running job?
pub begin_done : String → ℕ → GlobalState → GlobalState × Bool
begin_done worker_id job_id s =
    let (t, done_count) = mark_worker_done job_id worker_id s.multinode_job_tracking in
    (
      record s { multinode_job_tracking = t },
      (elim (get job_id s.jobs) [
        | none ↦ false
        | some job ↦ is_running job.status && leb (expected_done_workers t job_id job) done_count
      ]),
    )

-- The log files that are known now, or else those known before the upload.
pub fresh_logs : ℕ → LogMap → GlobalState → LogMap
fresh_logs job_id before s =
    let here = get_or [] job_id s.multinode_job_tracking.worker_log_files in
    if is_empty here then before else here

pub set_logs : Option String → Option String → LogMap → JobInfo → JobInfo
set_logs stdout_id stderr_id logs job = record job {
  stdout_file_id = prefer stdout_id job.stdout_file_id;
  stderr_file_id = prefer stderr_id job.stderr_file_id;
  worker_log_files =
      if is_empty logs then job.worker_log_files else tracking_to_worker_log_files logs;
}

abbrev pub set_mpi : Option MpiStats → JobInfo → JobInfo
set_mpi none job = job
set_mpi (some stats) job = record job { mpi_stats = some stats }

pub forget_tracking : ℕ → GlobalState → GlobalState
forget_tracking job_id s = record s {
  multinode_job_tracking = cleanup_job_tracking job_id s.multinode_job_tracking;
}

-- The third lock of `JobDone`.
pub finish_done : Outside → ℕ → ℤ → LogMap → GlobalState → GlobalState
finish_done o job_id exit_code before s =
    let logs = fresh_logs job_id before s in
    forget_tracking job_id (
      close_job o.floats o.now job_id (completed exit_code) (record s {
        jobs =
            adjust job_id (λ j. set_logs o.stdout_id o.stderr_id logs (set_mpi o.mpi_stats j))
              s.jobs;
      }))

pub done : Outside → String → ℕ → ℤ → Desk → Desk
done o worker_id job_id exit_code d =
    let (s, last) = begin_done worker_id job_id d.state in
    let marked : Desk = record d { missing_jobs = remove job_id d.missing_jobs; state = s } in
    if not last
    then marked
    else let copied = o.until_copy s in
      elim (get job_id copied.jobs) [
        | none ↦ record marked { state = copied }
        | some job ↦ record marked {
          state =
              finish_done o job_id exit_code
                (get_or [] job_id copied.multinode_job_tracking.worker_log_files)
                (o.until_upload copied);
          completed_jobs = add64 d.completed_jobs 1;
        }
      ]

-- The log files that workers have reported replace those of the job, if there are any.
abbrev pub set_worker_logs : LogMap → JobInfo → JobInfo
set_worker_logs logs job =
    if is_empty logs
    then job
    else record job { worker_log_files = tracking_to_worker_log_files logs }

pub fail : Outside → ℕ → String → Desk → Desk
fail o job_id error d =
    let s = d.state in
    let logs = get_or [] job_id s.multinode_job_tracking.worker_log_files in
    record d {
      missing_jobs = remove job_id d.missing_jobs;
      state = forget_tracking job_id (
          close_job o.floats o.now job_id (failed error)
            (record s { jobs = adjust job_id (set_worker_logs logs) s.jobs }));
      failed_jobs = add64 d.failed_jobs 1;
    }

pub kill : Outside → ℕ → Desk → Desk
kill o job_id d = record d {
  missing_jobs = remove job_id d.missing_jobs;
  state = close_job o.floats o.now job_id killed d.state;
  failed_jobs = add64 d.failed_jobs 1;
}

abbrev pub or_else {ℓ} : {A : Type ℓ} → Option A → Option A → Option A
or_else none y = y
or_else (some x) y = some x

abbrev pub or_list {ℓ} : {A : Type ℓ} → List A → List A → List A
or_list [] ys = ys
or_list (x ∷ xs) ys = x ∷ xs

-- What a report says is put over what the job says.
pub merge_usage_report_with_job : JobUsage → JobInfo → JobUsage
merge_usage_report_with_job usage job =
    let merged = job_to_usage job in
    record merged {
      status = usage.status;
      exit_code = usage.exit_code;
      end_time = or_else usage.end_time job.end_time;
      cpu_time_ms = usage.cpu_time_ms;
      max_memory_bytes = usage.max_memory_bytes;
      cgroup_active = usage.cgroup_active;
      stdout_file_id = or_else usage.stdout_file_id job.stdout_file_id;
      stderr_file_id = or_else usage.stderr_file_id job.stderr_file_id;
      workdir_file_id = or_else usage.workdir_file_id job.workdir_file_id;
      worker_log_files = or_list usage.worker_log_files job.worker_log_files;
      output_artifacts = or_list usage.output_artifacts job.output_artifacts;
      assigned_workers = or_list job.assigned_workers usage.assigned_workers;
    }

-- The job after a report of its usage; the ids of its own logs are those of its only worker.
pub note_usage : Bool → JobUsage → LogMap → JobInfo → JobInfo
note_usage multinode usage logs job =
    let noted : JobInfo = record job {
      cgroup_active = usage.cgroup_active;
      stdout_file_id = if multinode then job.stdout_file_id else usage.stdout_file_id;
      stderr_file_id = if multinode then job.stderr_file_id else usage.stderr_file_id;
      workdir_file_id = usage.workdir_file_id;
      output_artifacts = usage.output_artifacts;
    } in
    set_worker_logs logs noted

abbrev pub with_logs : LogMap → JobUsage → JobUsage
with_logs logs usage =
    if is_empty logs
    then usage
    else record usage { worker_log_files = tracking_to_worker_log_files logs }

pub take_usage : String → JobUsage → GlobalState → GlobalState
take_usage worker_id usage s =
    let id = usage.job_id in
    let t =
      record_worker_log_files id worker_id usage.stdout_file_id usage.stderr_file_id
        s.multinode_job_tracking in
    let logs = get_or [] id t.worker_log_files in
    let tracked : GlobalState = record s { multinode_job_tracking = t } in
    elim (get id s.jobs) [
      | none ↦ log_effect (recorded (with_logs logs usage)) tracked
      | some job ↦
          let multinode = leb 2 (expected_done_workers t id job) in
          let noted = note_usage multinode usage logs job in
          log_effect (recorded (with_logs logs (merge_usage_report_with_job usage noted)))
            (record tracked { jobs = adjust id (note_usage multinode usage logs) s.jobs })
    ]

abbrev pub set_step : StepStatus → StepInfo → StepInfo
set_step status step = record step { status = status }

abbrev pub with_step : ℕ × ℕ → StepStatus → GlobalState → GlobalState
with_step key status s = record s { steps = adjust key (set_step status) s.steps }

pub handle_report : Outside → String → Report → Desk → Desk
handle_report o worker_id (worker_draining id) d = record d {
  state = record d.state { workers = adjust id drain_worker d.state.workers };
}
handle_report o worker_id (job_started job_id) d = record d {
  state = record d.state {
    jobs = adjust job_id (set_started (has_cgroup job_id d.state)) d.state.jobs;
  };
}
handle_report o worker_id (job_interactive_port job_id port) d = record d {
  state = record d.state {
    jobs = adjust job_id (λ j. record j { interactive_port = some port }) d.state.jobs;
  };
}
handle_report o worker_id (job_done job_id exit_code) d = done o worker_id job_id exit_code d
handle_report o worker_id (job_error job_id error) d = fail o job_id error d
handle_report o worker_id (job_killed job_id) d = kill o job_id d
handle_report o worker_id (step_started key) d = record d {
  state = with_step key Step.running d.state;
}
handle_report o worker_id (step_done key exit_code) d = record d {
  state = with_step key (Step.completed exit_code) d.state;
}
handle_report o worker_id (step_error key error) d = record d {
  state = with_step key (Step.failed error) d.state;
}
handle_report o worker_id (report_job_usage usage) d = record d {
  state = take_usage worker_id usage d.state;
}
