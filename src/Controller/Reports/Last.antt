-- ===== src/Controller/Reports/Last.antt =====
-- The workers of a job that are done, one after the other.
use veloce_ce.Base.{
  ℕ, ℤ, ◌+◌, ◌<◌, ◌≤◌, String, ◌≡◌, refl, ap, ◌∙◌, true, false, none, some, List, [], ◌∷◌, ◌++◌,
  get, get_or, adjust, contains, length, get-adjust, nat_eq, string_eq, nat_beq_iff, leb, arith,
}
use veloce_ce.Types.Job.{JobInfo, JobUsage, is_running, completed}
use veloce_ce.Controller.Messages.{recorded}
use veloce_ce.Controller.State.{GlobalState}
use veloce_ce.Controller.Finalize.{finished, job_to_usage}
use veloce_ce.Controller.Finalize.Closed.{close_job_effects, job_to_usage_exit, close_job_gone}
use veloce_ce.Controller.JobLogs.{mark_worker_done}
use veloce_ce.Controller.JobLogs.Merge.{
  mark_worker_done_count, mark_worker_done_frame, expected_done_workers_dispatched,
}
use veloce_ce.Controller.Reports.{
  Desk, Outside, LogMap, begin_done, set_logs, set_mpi, fresh_logs, forget_tracking, finish_done,
  done,
}

-- `JobDone` of each worker, with its exit code
pub run_done : Outside → ℕ → List (String × ℤ) → Desk → Desk
run_done o job_id [] d = d
run_done o job_id ((w, code) ∷ rs) d = run_done o job_id rs (done o w job_id code d)

-- No other handler changes the state in between.
pub record IsQuiet (o : Outside) : Type 0 where
  pub copy_same : (s : GlobalState) → o.until_copy s ≡ s
  pub upload_same : (s : GlobalState) → o.until_upload s ≡ s

-- The job runs on the workers `ws`, of which those of `before` are done.
pub record Waiting (job_id : ℕ) (job : JobInfo) (ws before : List String) (s : GlobalState)
    : Type 0 where
  pub stored : get job_id s.jobs ≡ some job
  pub runs : is_running job.status ≡ true
  pub dispatched : get job_id s.multinode_job_tracking.dispatched_workers ≡ some ws
  pub reported : get_or [] job_id s.multinode_job_tracking.done_workers ≡ before

module _ (o : Outside) (job_id : ℕ) (job : JobInfo) (ws before : List String) (w : String)
    (s : GlobalState) (h : Waiting job_id job ws before s) (new : contains w before ≡ false) where
  -- The last worker is told from the others by their number.
  begin_done_last : (begin_done w job_id s).1 ≡ leb (length ws) (length before + 1)
  unfolding begin_done
  begin_done_last =
      let t = (mark_worker_done job_id w s.multinode_job_tracking).0 in
      let (count, _) = mark_worker_done_count job_id w s.multinode_job_tracking in
      let (same, _) = mark_worker_done_frame job_id w s.multinode_job_tracking in
      ground (
        arith,
        h.stored,
        h.runs,
        h.reported,
        count,
        expected_done_workers_dispatched t job_id job ws (ap (get job_id) same ∙ h.dispatched),
      )

  begin_done-Waiting :
      Waiting job_id job ws (w ∷ before) (begin_done w job_id s).0
      × ((begin_done w job_id s).0.effects ≡ s.effects)
  unfolding begin_done
  begin_done-Waiting =
      let (_, marked) = mark_worker_done_count job_id w s.multinode_job_tracking in
      let (same, _) = mark_worker_done_frame job_id w s.multinode_job_tracking in
      (
        record {
          stored = h.stored;
          runs = h.runs;
          dispatched = ap (get job_id) same ∙ h.dispatched;
          reported = ground (arith, marked, h.reported, new);
        },
        refl,
      )

-- What the last worker leaves.
abbrev pub Closed : ℕ → ℤ → GlobalState → GlobalState → Type 0
Closed job_id code s t =
    (get job_id t.jobs ≡ none)
    × ((u : JobUsage) × (t.effects ≡ s.effects ++ recorded u ∷ []) × (u.exit_code ≡ some code))

finish_done-Closed :
    (o : Outside) (job_id : ℕ) (code : ℤ) (logs : LogMap) (s : GlobalState) (job : JobInfo)
    → get job_id s.jobs ≡ some job
    → Closed job_id code s (finish_done o job_id code logs s)
unfolding finish_done forget_tracking
finish_done-Closed o job_id code logs s job there =
    let g : JobInfo → JobInfo =
      λ j. set_logs o.stdout_id o.stderr_id (fresh_logs job_id logs s) (set_mpi o.mpi_stats j) in
    let changed : GlobalState = record s { jobs = adjust job_id g s.jobs } in
    let stored : get job_id changed.jobs ≡ some (g job) =
      get-adjust job_id job_id g s.jobs ∙ ground (arith, there, nat_beq_iff job_id job_id) in
    (
      close_job_gone o.floats o.now job_id (completed code) changed,
      (
        job_to_usage (finished o.now (completed code) (g job)),
        close_job_effects o.floats o.now job_id (completed code) changed (g job) stored,
        job_to_usage_exit o.now code (g job),
      ),
    )

module _ (o : Outside) (job_id : ℕ) (job : JobInfo) (ws before : List String) (w : String)
    (code : ℤ) (d : Desk) (h : Waiting job_id job ws before d.state)
    (new : contains w before ≡ false) where
  done_early :
      length before + 1 < length ws
      → Waiting job_id job ws (w ∷ before) (done o w job_id code d).state
        × ((done o w job_id code d).state.effects ≡ d.state.effects)
  unfolding done
  done_early few =
      let early : (begin_done w job_id d.state).1 ≡ false =
        begin_done_last o job_id job ws before w d.state h new ∙ ground arith in
      rw (early, done) (begin_done-Waiting o job_id job ws before w d.state h new)

  done_finishes :
      IsQuiet o
      → length ws ≤ length before + 1
      → let s = (begin_done w job_id d.state).0 in
        (done o w job_id code d).state
        ≡ finish_done o job_id code (get_or [] job_id s.multinode_job_tracking.worker_log_files) s
  unfolding done
  done_finishes quiet all =
      let last : (begin_done w job_id d.state).1 ≡ true =
        begin_done_last o job_id job ws before w d.state h new ∙ ground arith in
      let s = (begin_done w job_id d.state).0 in
      let (waits, _) = begin_done-Waiting o job_id job ws before w d.state h new in
      let there : get job_id (o.until_copy s).jobs ≡ some job =
        ap (λ (t : GlobalState). get job_id t.jobs) (quiet.copy_same s) ∙ waits.stored in
      let logs = λ (t : GlobalState). get_or [] job_id t.multinode_job_tracking.worker_log_files in
      ground (arith, last, there)
      ∙ ap (λ t. finish_done o job_id code (logs t) (o.until_upload t)) (quiet.copy_same s)
      ∙ ap (finish_done o job_id code (logs s)) (quiet.upload_same s)

  done_last :
      IsQuiet o
      → length ws ≤ length before + 1
      → Closed job_id code d.state (done o w job_id code d).state
  done_last quiet all =
      let (waits, same) = begin_done-Waiting o job_id job ws before w d.state h new in
      let s = (begin_done w job_id d.state).0 in
      let logs = get_or [] job_id s.multinode_job_tracking.worker_log_files in
      let (gone, (u, recorded_once, exit)) =
        finish_done-Closed o job_id code logs s job waits.stored in
      rw (done_finishes quiet all)
        (gone, (u, recorded_once ∙ ap (λ x. x ++ recorded u ∷ []) same, exit))

-- The exit code of the last report.
abbrev pub last_code : ℤ → List (String × ℤ) → ℤ
last_code code [] = code
last_code code ((w, c) ∷ rs) = last_code c rs

-- No worker of the reports is among those.
abbrev pub AllNew : List String → List (String × ℤ) → Type 0
AllNew before [] = Unit
AllNew before ((w, c) ∷ rs) = (contains w before ≡ false) × AllNew (w ∷ before) rs

module _ (o : Outside) (job_id : ℕ) (job : JobInfo) (ws : List String) where
  -- If a running job was dispatched to some workers, and some of those not done before report, each
  -- once, but not all of them, then the job stays as it is and nothing is recorded.
  pub run_done-Waiting :
      (before : List String) (rs : List (String × ℤ)) (d : Desk)
      → Waiting job_id job ws before d.state
      → AllNew before rs
      → length before + length rs < length ws
      → let t = (run_done o job_id rs d).state in
        (get job_id t.jobs ≡ some job) × (t.effects ≡ d.state.effects)
  unfolding run_done
  run_done-Waiting before [] d h new few = (h.stored, refl)
  run_done-Waiting before ((w, code) ∷ rs) d h new few =
      let (waits, same) = done_early o job_id job ws before w code d h new.0 (omega arith) in
      let (stored, silent) =
        run_done-Waiting (w ∷ before) rs (done o w job_id code d) waits new.1 (omega arith) in
      (stored, silent ∙ same)

  -- If a running job was dispatched to some workers, no other handler changes the state in between,
  -- and all of those not done before report, each once, then the job is removed, and its end is
  -- recorded once, with the exit code of the last report, whatever the others are.
  pub run_done-Closed :
      (before : List String) (w : String) (code : ℤ) (rs : List (String × ℤ)) (d : Desk)
      → IsQuiet o
      → Waiting job_id job ws before d.state
      → AllNew before ((w, code) ∷ rs)
      → length before + length rs + 1 ≡ length ws
      → Closed job_id (last_code code rs) d.state (run_done o job_id ((w, code) ∷ rs) d).state
  unfolding run_done
  run_done-Closed before w code [] d quiet h new all =
      done_last o job_id job ws before w code d h new.0 quiet (omega arith)
  run_done-Closed before w code ((v, c) ∷ rs) d quiet h new all =
      let (waits, same) = done_early o job_id job ws before w code d h new.0 (omega arith) in
      let (gone, (u, recorded_once, exit)) =
        run_done-Closed (w ∷ before) v c rs (done o w job_id code d) quiet waits new.1
          (omega arith) in
      (gone, (u, recorded_once ∙ ap (λ x. x ++ recorded u ∷ []) same, exit))
