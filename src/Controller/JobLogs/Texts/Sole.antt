-- ===== src/Controller/JobLogs/Texts/Sole.antt =====
-- The log of a job on one worker, from the end of the job to a reader of the history.
use veloce_ce.Base.{
  ℕ, String, Option, none, some, [], ◌∷◌, Map, get, string_eq, ok, Option-cases, inl, inr, ◌≡◌,
  refl, ap, ◌∙◌, arith,
}
use mathlib.Core.Option
use veloce_ce.Types.Job.{JobUsage, WorkerLogFiles}
use veloce_ce.Controller.JobLogs.{tracking_to_worker_log_files}
use veloce_ce.Controller.JobLogs.Texts.{
  LogType, job_file, worker_file, or_no_files, stdout, stderr, FileClient, at_rank,
  resolve_history_log_file_id, merge_and_upload_job_logs,
}

abbrev as_files : Option String × Option String → WorkerLogFiles
as_files (out, err_) = record { stdout_file_id = out; stderr_file_id = err_ }

get-tracking_to_worker_log_files :
    (w : String) (m : Map String (Option String × Option String))
    → get w (tracking_to_worker_log_files m) ≡ Option.map as_files (get w m)
unfolding tracking_to_worker_log_files
get-tracking_to_worker_log_files w [] = refl
get-tracking_to_worker_log_files w ((k, (out, err_)) ∷ m) =
    ground (arith, get-tracking_to_worker_log_files w m)

sole_file :
    (log_type : LogType) (files : Option WorkerLogFiles) (usage : JobUsage) (w : String)
    → usage.assigned_workers ≡ w ∷ []
    → get w usage.worker_log_files ≡ files
    → ((file : String)
        → worker_file log_type files ≡ some file
        → job_file log_type usage ≡ some file)
    → at_rank 0 log_type usage ≡ ok (job_file log_type usage)
unfolding at_rank
sole_file stdout files usage w ran found same = elim (Option-cases (worker_file stdout files)) [
  | inl e ↦ rw (at_rank, ran, found, e) refl
  | inr (file, e) ↦ rw (at_rank, ran, found, e, same file e) refl
]
sole_file stderr files usage w ran found same = elim (Option-cases (worker_file stderr files)) [
  | inl e ↦ rw (at_rank, ran, found, e) refl
  | inr (file, e) ↦ rw (at_rank, ran, found, e, same file e) refl
]

-- The file of the one worker is what the job's record gets.
sole_files :
    (o : Option (Option String × Option String)) (file : String)
    → (worker_file stdout (Option.map as_files o) ≡ some file → (or_no_files o).0 ≡ some file)
      × (worker_file stderr (Option.map as_files o) ≡ some file → (or_no_files o).1 ≡ some file)
sole_files none file = (λ e. e, λ e. e)
sole_files (some (out, err_)) file = (λ e. e, λ e. e)

-- If a job ran on one worker, and its record has the files that were tracked, then rank 0 gives the
-- reader the same file as no rank.
pub resolve_history_log_file_id_sole :
    (client : FileClient) (job_id : ℕ) (w : String) (m : Map String (Option String × Option String))
    (usage : JobUsage) (log_type : LogType)
    → usage.assigned_workers ≡ w ∷ []
    → usage.worker_log_files ≡ tracking_to_worker_log_files m
    → (usage.stdout_file_id, usage.stderr_file_id)
      ≡ merge_and_upload_job_logs client job_id (w ∷ []) m
    → resolve_history_log_file_id usage log_type (some 0)
      ≡ resolve_history_log_file_id usage log_type none
unfolding resolve_history_log_file_id at_rank merge_and_upload_job_logs
resolve_history_log_file_id_sole client job_id w m usage stdout ran tracked ids =
    let found : get w usage.worker_log_files ≡ Option.map as_files (get w m) =
      ap (get w) tracked ∙ get-tracking_to_worker_log_files w m in
    sole_file stdout (Option.map as_files (get w m)) usage w ran found (λ file e.
      ap (λ (p : Option String × Option String). p.0) ids ∙ (sole_files (get w m) file).0 e)
resolve_history_log_file_id_sole client job_id w m usage stderr ran tracked ids =
    let found : get w usage.worker_log_files ≡ Option.map as_files (get w m) =
      ap (get w) tracked ∙ get-tracking_to_worker_log_files w m in
    sole_file stderr (Option.map as_files (get w m)) usage w ran found (λ file e.
      ap (λ (p : Option String × Option String). p.1) ids ∙ (sole_files (get w m) file).1 e)
