-- ===== src/Controller/JobLogs/Merge.antt =====
-- Reports of workers in controller/src/job_logs.rs.
use veloce_ce.Base.{
  ℕ, ◌+◌, String, ◌≡◌, refl, ◌∙◌, Option, none, some, List, [], ◌∷◌, Map, get, get_or, adjoin,
  nat_eq, string_eq, ◌==◌, eq_iff, nat_beq_iff, if◌then◌else◌, length, contains, get-insert,
  get-adjust, arith, Option-cases, inl, inr, Distinct,
}
use veloce_ce.Types.Job.{JobInfo, WorkerLogFiles}
use veloce_ce.Controller.State.{MultinodeJobTracking}
use veloce_ce.Controller.JobLogs.{
  merge_files, merge_one, merge_worker_log_file_maps, mark_worker_done, expected_done_workers,
}

-- What is known of one worker after another report of it
abbrev pub merged : Option WorkerLogFiles → Option WorkerLogFiles → Option WorkerLogFiles
merged none old = old
merged (some new) none = some new
merged (some new) (some old) = some (merge_files new old)

get-merge_one :
    (id j : String) (files : WorkerLogFiles) (base : Map String WorkerLogFiles)
    → get j (merge_one id files base)
      ≡ (if id == j then merged (some files) (get j base) else get j base)
unfolding merge_one
get-merge_one id j files base = elim (Option-cases (get id base)) [
  | inl e ↦ ground (arith, get-insert id j files base, eq_iff id j)
  | inr (old, e) ↦ ground (arith, get-adjust id j (merge_files files) base, eq_iff id j)
]

-- If the new report names each worker once, then after the merge each worker has its old files,
-- with those that the report gives put over them.
pub get-merge_worker_log_file_maps :
    (extra base : Map String WorkerLogFiles)
    → Distinct extra
    → (j : String)
    → get j (merge_worker_log_file_maps base extra) ≡ merged (get j extra) (get j base)
unfolding merge_worker_log_file_maps
get-merge_worker_log_file_maps [] base d j = refl
get-merge_worker_log_file_maps ((id, files) ∷ extra) base d j = ground (
  arith,
  get-merge_worker_log_file_maps extra (merge_one id files base) d.1 j,
  get-merge_one id j files base,
  eq_iff id j,
)

-- The count that is returned is one more than before, or the same if the worker was recorded
-- before, and the workers recorded are those before with this one.
pub mark_worker_done_count :
    (job_id : ℕ) (worker_id : String) (t : MultinodeJobTracking)
    → let (t', n) = mark_worker_done job_id worker_id t in
      let before = get_or [] job_id t.done_workers in
      (n ≡ length before + (if contains worker_id before then 0 else 1))
      × (get job_id t'.done_workers ≡ some (adjoin worker_id before))
unfolding mark_worker_done
mark_worker_done_count job_id worker_id t = (
  ground arith,
  get-insert job_id job_id (adjoin worker_id (get_or [] job_id t.done_workers)) t.done_workers
      ∙ ground (arith, nat_beq_iff job_id job_id),
)

-- What else is tracked stays.
pub mark_worker_done_frame :
    (job_id : ℕ) (worker_id : String) (t : MultinodeJobTracking)
    → ((mark_worker_done job_id worker_id t).0.dispatched_workers ≡ t.dispatched_workers)
      × ((mark_worker_done job_id worker_id t).0.worker_log_files ≡ t.worker_log_files)
unfolding mark_worker_done
mark_worker_done_frame job_id worker_id t = (refl, refl)

pub expected_done_workers_dispatched :
    (t : MultinodeJobTracking) (job_id : ℕ) (job : JobInfo) (ws : List String)
    → get job_id t.dispatched_workers ≡ some ws
    → expected_done_workers t job_id job ≡ length ws
unfolding expected_done_workers
expected_done_workers_dispatched t job_id job ws h = ground arith
