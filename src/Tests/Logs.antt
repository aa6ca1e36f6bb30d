-- ===== src/Tests/Logs.antt =====
-- The log files of a job: the theorem at a job on one worker, and the tests of
-- controller/src/job_logs.rs.
use veloce_ce.Base.{
  format, decimal, String, false, Option, some, none, List, [], ◌∷◌, Map, ok, err, ◌≡◌, refl, pos,
  string_eq,
}
use veloce_ce.Types.Job.{JobUsage, WorkerLogFiles, completed, production}
use veloce_ce.Controller.JobLogs.{tracking_to_worker_log_files}
use veloce_ce.Controller.JobLogs.Texts.{
  stdout, stderr, FileClient, resolve_history_log_file_id, merge_and_upload_job_logs,
}
use veloce_ce.Controller.JobLogs.Texts.Sole.{resolve_history_log_file_id_sole}

abbrev usage : List String → Map String WorkerLogFiles → String → String → JobUsage
usage workers files out err_ = record {
  job_id = 42;
  job_name = none;
  job_comment = none;
  command_line = "hostname";
  user_id = "lab";
  submission_time = 0;
  start_time = none;
  end_time = none;
  exit_code = some (pos 0);
  status = completed (pos 0);
  cpu_time_ms = 0;
  max_memory_bytes = 0;
  req_nodes = 2;
  req_cores = 1;
  req_memory = 256;
  array_id = none;
  array_task_id = none;
  assigned_workers = workers;
  gres_req = [];
  cgroup_active = false;
  secret = "s";
  stdout_file_id = some out;
  stderr_file_id = some err_;
  workdir_file_id = none;
  worker_log_files = files;
  output_artifacts = [];
  wait_for_licenses = false;
  estimated_walltime = none;
  priority_offset = none;
  dependencies = none;
  dependency_specs = none;
  qos = production;
  container_asset = none;
}

abbrev tracked : Map String (Option String × Option String)
tracked = ("w0", (some "out-w0", some "err-w0")) ∷ ("w1", (some "out-w1", some "err-w1")) ∷ []

abbrev files : Map String WorkerLogFiles
files =
    ("w0", record { stdout_file_id = some "out-w0"; stderr_file_id = some "err-w0" })
    ∷ ("w1", record { stdout_file_id = some "out-w1"; stderr_file_id = some "err-w1" })
    ∷ []

abbrev sample_usage : JobUsage
sample_usage = usage ("w0" ∷ "w1" ∷ []) files "merged-out" "merged-err"

history_rank_resolves_per_worker_files :
    (resolve_history_log_file_id sample_usage stdout (some 1) ≡ ok (some "out-w1"))
    × (resolve_history_log_file_id sample_usage stderr (some 1) ≡ ok (some "err-w1"))
unfolding resolve_history_log_file_id
history_rank_resolves_per_worker_files = (refl, refl)

history_without_rank_uses_job_level_file :
    resolve_history_log_file_id sample_usage stdout none ≡ ok (some "merged-out")
unfolding resolve_history_log_file_id
history_without_rank_uses_job_level_file = refl

history_invalid_rank_errors :
    resolve_history_log_file_id sample_usage stdout (some 9) ≡ err "Invalid rank 9 for job 42"
unfolding resolve_history_log_file_id format decimal
history_invalid_rank_errors = refl

-- Each file has one byte.
abbrev client : FileClient
client = record {
  download_file_to_bytes = λ id. some (7 ∷ []);
  upload_file = λ name bytes. some name;
  as_bytes = λ header. [];
}

resolve_history_log_file_id_sole_example :
    let u = usage ("w0" ∷ []) (tracking_to_worker_log_files tracked) "out-w0" "err-w0" in
    resolve_history_log_file_id u stdout (some 0) ≡ resolve_history_log_file_id u stdout none
unfolding merge_and_upload_job_logs
resolve_history_log_file_id_sole_example =
    resolve_history_log_file_id_sole client 42 "w0" tracked
      (usage ("w0" ∷ []) (tracking_to_worker_log_files tracked) "out-w0" "err-w0") stdout refl refl
      refl
