-- ===== src/Controller/JobLogs.antt =====
-- controller/src/job_logs.rs: which workers of a job on several nodes are done, and their log files.
pub mod Merge
pub mod Texts
use veloce_ce.Base.{
  ℕ, max, String, Bool, true, false, Option, none, some, List, [], ◌∷◌, Map, get, get_or, insert,
  remove, adjust, adjoin, nat_eq, string_eq, if◌then◌else◌, length, is_empty, contains_key, Result,
  ok, err, format, decimal, drop, head?,
}
use veloce_ce.Types.Job.{JobInfo, JobUsage, WorkerLogFiles}
use veloce_ce.Controller.State.{MultinodeJobTracking}

pub record_worker_log_files :
    ℕ → String → Option String → Option String → MultinodeJobTracking → MultinodeJobTracking
record_worker_log_files job_id worker_id stdout stderr t = record t {
  worker_log_files =
      insert job_id (insert worker_id (stdout, stderr) (get_or [] job_id t.worker_log_files))
        t.worker_log_files;
}

pub tracking_to_worker_log_files :
    Map String (Option String × Option String) → Map String WorkerLogFiles
tracking_to_worker_log_files [] = []
tracking_to_worker_log_files ((id, (stdout, stderr)) ∷ rest) =
    (id, record { stdout_file_id = stdout; stderr_file_id = stderr })
    ∷ tracking_to_worker_log_files rest

abbrev pub prefer : Option String → Option String → Option String
prefer none old = old
prefer (some new) old = some new

abbrev pub merge_files : WorkerLogFiles → WorkerLogFiles → WorkerLogFiles
merge_files new old = record {
  stdout_file_id = prefer new.stdout_file_id old.stdout_file_id;
  stderr_file_id = prefer new.stderr_file_id old.stderr_file_id;
}

-- `entry(…).and_modify(…).or_insert(…)`
pub merge_one : String → WorkerLogFiles → Map String WorkerLogFiles → Map String WorkerLogFiles
merge_one id files base =
    if contains_key id base then adjust id (merge_files files) base else insert id files base

pub merge_worker_log_file_maps :
    Map String WorkerLogFiles → Map String WorkerLogFiles → Map String WorkerLogFiles
merge_worker_log_file_maps base [] = base
merge_worker_log_file_maps base ((id, files) ∷ extra) =
    merge_worker_log_file_maps (merge_one id files base) extra

pub expected_done_workers : MultinodeJobTracking → ℕ → JobInfo → ℕ
expected_done_workers t job_id job = elim (get job_id t.dispatched_workers) [
  | some workers ↦ length workers
  | none ↦ max (length job.assigned_workers) 1
]

-- The workers that are done by now, with this one
pub mark_worker_done : ℕ → String → MultinodeJobTracking → MultinodeJobTracking × ℕ
mark_worker_done job_id worker_id t =
    let done = adjoin worker_id (get_or [] job_id t.done_workers) in
    (record t { done_workers = insert job_id done t.done_workers }, length done)

pub cleanup_job_tracking : ℕ → MultinodeJobTracking → MultinodeJobTracking
cleanup_job_tracking job_id t = record {
  dispatched_workers = remove job_id t.dispatched_workers;
  worker_log_files = remove job_id t.worker_log_files;
  done_workers = remove job_id t.done_workers;
}

pub worker_order_for_logs : JobInfo → MultinodeJobTracking → List String
worker_order_for_logs job t = elim (get_or [] job.id t.dispatched_workers) [
  | [] ↦ job.assigned_workers
  | w ∷ ws ↦ w ∷ ws
]
