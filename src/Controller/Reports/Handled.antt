-- ===== src/Controller/Reports/Handled.antt =====
-- The reports of workers and the books of the controller.
use veloce_ce.Base.{
  ℕ, ℤ, String, ◌≡◌, refl, ap, ◌∙◌, Bool, Option, none, some, Map, get, adjust, get_or, leb, [],
  ◌∷◌, nat_eq, string_eq, arith, Option-cases, Bool-cases, inl, inr,
}
use veloce_ce.Types.Job.{
  JobInfo, JobUsage, JobStatus, MpiStats, is_running, completed, failed, killed,
}
use veloce_ce.Controller.State.{GlobalState, WorkerHandle}
use veloce_ce.Controller.Worker.Owned.{WorkerOk}
use veloce_ce.Controller.Finalize.{close_job}
use veloce_ce.Controller.Finalize.Books.{BooksOk, StateOk}
use veloce_ce.Controller.Finalize.Closed.{
  close_job-StateOk, adjust_job-BooksOk, adjust_worker-BooksOk,
}
use veloce_ce.Controller.JobLogs.{record_worker_log_files, expected_done_workers}
use veloce_ce.Controller.Reports.{
  Report, worker_draining, job_started, job_interactive_port, job_done, job_error, job_killed,
  step_started, step_done, step_error, report_job_usage, Desk, Outside, LogMap, fresh_logs,
  has_cgroup, drain_worker, set_started, begin_done, set_logs, set_mpi, forget_tracking,
  finish_done, done, set_worker_logs, fail, kill, note_usage, take_usage, handle_report,
}

-- What the other handlers do keeps the books.
pub record KeepsBooks (o : Outside) : Type 0 where
  pub copy_keeps : (s : GlobalState) → StateOk s → StateOk (o.until_copy s)
  pub upload_keeps : (s : GlobalState) → StateOk s → StateOk (o.until_upload s)

drain_worker-WorkerOk : (w : WorkerHandle) → WorkerOk w → WorkerOk (drain_worker w)
drain_worker-WorkerOk w k = record {
  cores_exact = k.cores_exact;
  gres_exact = k.gres_exact;
  cores_tracked = k.cores_tracked;
  gres_tracked = k.gres_tracked;
  cores_distinct = k.cores_distinct;
  gres_distinct = k.gres_distinct;
  names_distinct = k.names_distinct;
}

drain_worker-BooksOk :
    (id : String) (ws : Map String WorkerHandle) (jobs : Map ℕ JobInfo)
    → BooksOk ws jobs
    → BooksOk (adjust id drain_worker ws) jobs
drain_worker-BooksOk id ws jobs ok =
    adjust_worker-BooksOk id drain_worker ws jobs (λ v _ k. drain_worker-WorkerOk v k) (λ w. refl)
      ok

set_logs_keeps :
    (a b : Option String) (logs : LogMap) (job : JobInfo)
    → ((set_logs a b logs job).status ≡ job.status)
      × ((set_logs a b logs job).assigned_workers ≡ job.assigned_workers)
unfolding set_logs
set_logs_keeps a b logs job = (refl, refl)

note_usage_keeps :
    (m : Bool) (usage : JobUsage) (logs : LogMap) (job : JobInfo)
    → ((note_usage m usage logs job).status ≡ job.status)
      × ((note_usage m usage logs job).assigned_workers ≡ job.assigned_workers)
unfolding note_usage
note_usage_keeps m usage logs job = (ground arith, ground arith)

set_mpi_keeps :
    (m : Option MpiStats) (job : JobInfo)
    → ((set_mpi m job).status ≡ job.status)
      × ((set_mpi m job).assigned_workers ≡ job.assigned_workers)
set_mpi_keeps none job = (refl, refl)
set_mpi_keeps (some stats) job = (refl, refl)

set_worker_logs_keeps :
    (logs : LogMap) (job : JobInfo)
    → ((set_worker_logs logs job).status ≡ job.status)
      × ((set_worker_logs logs job).assigned_workers ≡ job.assigned_workers)
set_worker_logs_keeps [] job = (refl, refl)
set_worker_logs_keeps (x ∷ logs) job = (refl, refl)

module _ (o : Outside) (job_id : ℕ) where
  -- A job that ends after a change of what is known of it
  close_changed-StateOk :
      (g : JobInfo → JobInfo) (status : JobStatus) (s : GlobalState)
      → ((job : JobInfo)
          → ((g job).status ≡ job.status) × ((g job).assigned_workers ≡ job.assigned_workers))
      → StateOk s
      → StateOk
          (close_job o.floats o.now job_id status (record s { jobs = adjust job_id g s.jobs }))
  close_changed-StateOk g status s keeps ok =
      (close_job-StateOk o.floats o.now job_id status (record s { jobs = adjust job_id g s.jobs })
        (adjust_job-BooksOk job_id g s.workers s.jobs (λ job h. ap is_running (keeps job).0 ∙ h)
          (λ job. (keeps job).1) ok)).0

  finish_done-StateOk :
      (exit_code : ℤ) (before : LogMap) (s : GlobalState)
      → StateOk s
      → StateOk (finish_done o job_id exit_code before s)
  unfolding finish_done forget_tracking
  finish_done-StateOk exit_code before s ok =
      close_changed-StateOk
        (λ j. set_logs o.stdout_id o.stderr_id (fresh_logs job_id before s) (set_mpi o.mpi_stats j))
        (completed exit_code) s
        (λ j.
          let (status, workers) = set_mpi_keeps o.mpi_stats j in
          let (status', workers') =
            set_logs_keeps o.stdout_id o.stderr_id (fresh_logs job_id before s)
              (set_mpi o.mpi_stats j) in
          (status' ∙ status, workers' ∙ workers))
        ok

  fail-StateOk :
      (error : String) (d : Desk) → StateOk d.state → StateOk (fail o job_id error d).state
  unfolding fail forget_tracking
  fail-StateOk error d ok =
      close_changed-StateOk
        (set_worker_logs (get_or [] job_id d.state.multinode_job_tracking.worker_log_files))
        (failed error) d.state
        (set_worker_logs_keeps (get_or [] job_id d.state.multinode_job_tracking.worker_log_files))
        ok

  kill-StateOk : (d : Desk) → StateOk d.state → StateOk (kill o job_id d).state
  unfolding kill
  kill-StateOk d ok = (close_job-StateOk o.floats o.now job_id killed d.state ok).0

  done-StateOk :
      (worker_id : String) (exit_code : ℤ) (d : Desk)
      → KeepsBooks o
      → StateOk d.state
      → StateOk (done o worker_id job_id exit_code d).state
  unfolding done begin_done
  done-StateOk worker_id exit_code d keeps ok =
      let copied = o.until_copy (begin_done worker_id job_id d.state).0 in
      let copied-ok : StateOk copied =
        keeps.copy_keeps (begin_done worker_id job_id d.state).0 ok in
      elim (Bool-cases (begin_done worker_id job_id d.state).1) [
        | inr early ↦ rw early ok
        | inl last ↦ rw last (elim (Option-cases (get job_id copied.jobs)) [
          | inl gone ↦ rw gone copied-ok
          | inr (job, there) ↦ rw there (
              finish_done-StateOk exit_code
                (get_or [] job_id copied.multinode_job_tracking.worker_log_files)
                (o.until_upload copied) (keeps.upload_keeps copied copied-ok))
        ])
      ]

take_usage-StateOk :
    (worker_id : String) (usage : JobUsage) (s : GlobalState)
    → StateOk s
    → StateOk (take_usage worker_id usage s)
unfolding take_usage
take_usage-StateOk worker_id usage s ok =
    let t =
      record_worker_log_files usage.job_id worker_id usage.stdout_file_id usage.stderr_file_id
        s.multinode_job_tracking in
    let logs = get_or [] usage.job_id t.worker_log_files in
    elim (Option-cases (get usage.job_id s.jobs)) [
      | inl gone ↦ rw (gone, take_usage) ok
      | inr (job, there) ↦
          let m = leb 2 (expected_done_workers t usage.job_id job) in
          rw (there, take_usage)
            (adjust_job-BooksOk usage.job_id (note_usage m usage logs) s.workers s.jobs
              (λ j h. ap is_running (note_usage_keeps m usage logs j).0 ∙ h)
              (λ j. (note_usage_keeps m usage logs j).1) ok)
    ]

-- If the books are exact and what other handlers do in between keeps them exact, they are exact
-- after any report of any worker.
pub handle_report-StateOk :
    (o : Outside) (worker_id : String) (r : Report) (d : Desk)
    → KeepsBooks o
    → StateOk d.state
    → StateOk (handle_report o worker_id r d).state
unfolding handle_report
handle_report-StateOk o worker_id (worker_draining id) d keeps ok =
    drain_worker-BooksOk id d.state.workers d.state.jobs ok
handle_report-StateOk o worker_id (job_started job_id) d keeps ok =
    adjust_job-BooksOk job_id (set_started (has_cgroup job_id d.state)) d.state.workers d.state.jobs
      (λ job h. refl) (λ job. refl) ok
handle_report-StateOk o worker_id (job_interactive_port job_id port) d keeps ok =
    adjust_job-BooksOk job_id (λ j. record j { interactive_port = some port }) d.state.workers
      d.state.jobs (λ job h. h) (λ job. refl) ok
handle_report-StateOk o worker_id (job_done job_id exit_code) d keeps ok =
    done-StateOk o job_id worker_id exit_code d keeps ok
handle_report-StateOk o worker_id (job_error job_id error) d keeps ok =
    fail-StateOk o job_id error d ok
handle_report-StateOk o worker_id (job_killed job_id) d keeps ok = kill-StateOk o job_id d ok
handle_report-StateOk o worker_id (step_started key) d keeps ok = ok
handle_report-StateOk o worker_id (step_done key exit_code) d keeps ok = ok
handle_report-StateOk o worker_id (step_error key error) d keeps ok = ok
handle_report-StateOk o worker_id (report_job_usage usage) d keeps ok =
    take_usage-StateOk worker_id usage d.state ok
