-- ===== src/Controller/JobLogs/Texts.antt =====
-- The log files of a job in controller/src/job_logs.rs: which one a reader of the history gets, and
-- how those of several workers become one. The file server is a parameter; bytes are numbers.
pub mod Sole
use veloce_ce.Base.{
  ℕ, zero, suc, ◌+◌, String, Bool, true, false, Option, none, some, List, [], ◌∷◌, ◌++◌, Map, get,
  string_eq, if◌then◌else◌, length, leb, ltb, is_empty, format, decimal, Result, ok, err, nat_beq,
}
use veloce_ce.Types.Job.{JobUsage, WorkerLogFiles}

pub data LogType : Type 0 where
  stdout stderr : LogType

abbrev pub file_of : LogType → WorkerLogFiles → Option String
file_of stdout files = files.stdout_file_id
file_of stderr files = files.stderr_file_id

abbrev pub job_file : LogType → JobUsage → Option String
job_file stdout usage = usage.stdout_file_id
job_file stderr usage = usage.stderr_file_id

abbrev pub worker_at : ℕ → List String → Option String
worker_at n [] = none
worker_at zero (w ∷ ws) = some w
worker_at (suc n) (w ∷ ws) = worker_at n ws

abbrev pub worker_file : LogType → Option WorkerLogFiles → Option String
worker_file log_type none = none
worker_file log_type (some files) = file_of log_type files

-- A record without the files of its workers has one file, for rank 0 alone.
abbrev or_single : ℕ → String → LogType → JobUsage → Result {0, 0} String (Option String)
or_single zero worker_id log_type usage = ok (job_file log_type usage)
or_single (suc n) worker_id log_type usage = err (
    format (
      "No per-worker log file for rank "
      ∷ decimal (suc n)
      ∷ " on job "
      ∷ decimal usage.job_id
      ∷ " (worker "
      ∷ worker_id
      ∷ ")"
      ∷ []))

pub at_rank : ℕ → LogType → JobUsage → Result {0, 0} String (Option String)
at_rank rank log_type usage = elim (worker_at rank usage.assigned_workers) [
  | none ↦ err (format ("Invalid rank " ∷ decimal rank ∷ " for job " ∷ decimal usage.job_id ∷ []))
  | some worker_id ↦ elim (worker_file log_type (get worker_id usage.worker_log_files)) [
    | some file_id ↦ ok (some file_id)
    | none ↦ or_single rank worker_id log_type usage
  ]
]

unfoldable pub resolve_history_log_file_id :
    JobUsage → LogType → Option ℕ → Result {0, 0} String (Option String)
unfolding at_rank
resolve_history_log_file_id usage log_type none = ok (job_file log_type usage)
resolve_history_log_file_id usage log_type (some rank) = at_rank rank log_type usage

-- What is needed of the file server, and of texts
pub record FileClient : Type 0 where
  pub download_file_to_bytes : String → Option (List ℕ)
  pub upload_file : String → List ℕ → Option String
  pub as_bytes : String → List ℕ

abbrev ends_line : List ℕ → Bool
ends_line [] = false
ends_line (b ∷ []) = nat_beq b 10
ends_line (b ∷ c ∷ bytes) = ends_line (c ∷ bytes)

abbrev pick : LogType → Option String × Option String → Option String
pick stdout (out, err_) = out
pick stderr (out, err_) = err_

abbrev pub or_no_files : Option (Option String × Option String) → Option String × Option String
or_no_files none = (none, none)
or_no_files (some files) = files

module _ (client : FileClient) where
  pub section_of : Bool → ℕ → String → List ℕ → List ℕ
  section_of multinode rank worker_id bytes =
      let header =
        client.as_bytes (format ("=== rank " ∷ decimal rank ∷ " (" ∷ worker_id ∷ ") ===\n" ∷ [])) in
      (if multinode then header else []) ++ bytes ++ (if ends_line bytes then [] else 10 ∷ [])

  pub section : LogType → Bool → ℕ → String → Option (Option String × Option String) → List ℕ
  unfolding section_of
  section log_type multinode rank worker_id none = []
  section log_type multinode rank worker_id (some files) = elim (pick log_type files) [
    | none ↦ []
    | some id ↦ elim (client.download_file_to_bytes id) [
      | none ↦ []
      | some bytes ↦ section_of multinode rank worker_id bytes
    ]
  ]

  pub sections :
      LogType → Bool → Map String (Option String × Option String) → ℕ → List String → List ℕ
  unfolding section
  sections log_type multinode log_files rank [] = []
  sections log_type multinode log_files rank (w ∷ ws) =
      section log_type multinode rank w (get w log_files)
      ++ sections log_type multinode log_files (rank + 1) ws

  pub merge_worker_log_bytes :
      List String → Map String (Option String × Option String) → LogType → List ℕ
  unfolding sections
  merge_worker_log_bytes worker_order log_files log_type =
      sections log_type (ltb 1 (length worker_order)) log_files 0 worker_order

  pub upload_merged_log : ℕ → String → List ℕ → Option String
  upload_merged_log job_id suffix bytes =
      if is_empty bytes
      then none
      else client.upload_file
          (format ("veloce-" ∷ decimal job_id ∷ "-merged-" ∷ suffix ∷ ".log" ∷ [])) bytes

  unfoldable pub merge_and_upload_job_logs :
      ℕ → List String → Map String (Option String × Option String) → Option String × Option String
  unfolding merge_worker_log_bytes upload_merged_log
  merge_and_upload_job_logs job_id [] log_files = (none, none)
  merge_and_upload_job_logs job_id (w ∷ []) log_files = or_no_files (get w log_files)
  merge_and_upload_job_logs job_id (w ∷ v ∷ ws) log_files =
      let order = w ∷ v ∷ ws in
      (
        upload_merged_log job_id "stdout" (merge_worker_log_bytes order log_files stdout),
        upload_merged_log job_id "stderr" (merge_worker_log_bytes order log_files stderr),
      )
