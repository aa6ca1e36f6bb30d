-- ===== src/Controller/Sessions/Idle.antt =====
-- What reports of workers, one after the other, make of a job: what heartbeats say of it, one after the other.
pub mod Busy
pub mod Rests
use veloce_ce.Base.{
  ℕ, ◌+◌, ◌-◌, ◌≤◌, suc, String, Bool, true, false, ◌&&◌, not, Option, none, some, List, [], ◌∷◌,
  Map, get, get_or, insert, adjust, remove, get-insert, get-adjust, string_eq, nat_eq, nat_beq,
  nat_beq_iff, beq_refl, ◌==◌, leb, length, contains, if◌then◌else◌, Bool-cases, Option-cases, inl,
  inr, ◌≡◌, refl, sym, ap, subst, ◌∙◌, arith,
}
use veloce_ce.Types.Floats.{Floats, zero_float}
use veloce_ce.Types.Job.{JobInfo, JobSpec}
use veloce_ce.Controller.State.{GlobalState}
use veloce_ce.Controller.Sessions.{
  JobStats, WorkerStats, Monitor, Total, add_report, add_reports, total_of, globally_idle,
  above_preemptible, note_worker, note_stats, note_job, set_idle, set_start, degrade,
}

-- The worker has said that the job is idle.
abbrev pub said_idle : Option WorkerStats → Bool
said_idle none = false
said_idle (some (cpu, mem, idle)) = idle

abbrev pub all_said_idle : Map String WorkerStats → List String → Bool
all_said_idle heard [] = true
all_said_idle heard (w ∷ ws) = said_idle (get w heard) && all_said_idle heard ws

-- A report on a job, in a heartbeat of a worker at some time
pub record Report : Type 0 where
  pub now : ℕ
  pub worker : String
  pub stats : JobStats

module _ (f : Floats) where
  add_report-said_idle :
      (o : Option WorkerStats) (t : Total)
      → ((add_report f o t).all_idle ≡ t.all_idle && said_idle o)
        × (said_idle o ≡ true → (add_report f o t).reports_count ≡ t.reports_count + 1)
  unfolding add_report
  add_report-said_idle none t = (ground arith, λ h. ground (arith, h))
  add_report-said_idle (some (cpu, mem, idle)) t = (refl, λ h. refl)

  add_reports-all_said_idle :
      (heard : Map String WorkerStats) (ws : List String) (t : Total)
      → ((add_reports f heard ws t).all_idle ≡ t.all_idle && all_said_idle heard ws)
        × (all_said_idle heard ws ≡ true
            → (add_reports f heard ws t).reports_count ≡ t.reports_count + length ws)
  unfolding add_reports
  add_reports-all_said_idle heard [] t = (ground arith, λ h. omega arith)
  add_reports-all_said_idle heard (w ∷ ws) t =
      let first = add_report-said_idle (get w heard) t in
      let rest = add_reports-all_said_idle heard ws (add_report f (get w heard) t) in
      (
        rest.0 ∙ ground (arith, first.0),
        λ h. rest.1 (ground (arith, h)) ∙ ground (arith, first.1, h),
      )

  pub globally_idle-all_said_idle :
      (heard : Map String WorkerStats) (job : JobInfo)
      → globally_idle (total_of f job.assigned_workers (some heard)) job
        ≡ all_said_idle heard job.assigned_workers
  unfolding total_of
  globally_idle-all_said_idle heard job =
      let t =
        add_reports-all_said_idle heard job.assigned_workers
          (record { total_cpu = zero_float; total_mem = 0; all_idle = true; reports_count = 0 }) in
      elim (Bool-cases (all_said_idle heard job.assigned_workers)) [
        | inl every ↦
            let count : (total_of f job.assigned_workers (some heard)).reports_count
                ≡ length job.assigned_workers =
              t.1 every ∙ omega arith in
            let same : nat_beq (total_of f job.assigned_workers (some heard)).reports_count
                  (length job.assigned_workers)
                ≡ true =
              (nat_beq_iff _ _).1 count in
            rw (t.0, every, same) refl
        | inr some_busy ↦ rw (t.0, some_busy) refl
      ]

  -- The map of what the workers have said of the job of the report
  abbrev pub heard_of : ℕ → Monitor → Map String WorkerStats
  heard_of id m = get_or [] id m.job_worker_stats

  abbrev pub stats_of : JobStats → WorkerStats
  stats_of stats = (stats.cpu_usage_percent, stats.memory_usage_bytes, stats.is_idle)

  pub note_stats_heard :
      (now timeout : ℕ) (w : String) (stats : JobStats) (m : Monitor)
      → (note_stats f now timeout w stats m).job_worker_stats
        ≡ note_worker w stats m.job_worker_stats
  unfolding note_stats
  note_stats_heard now timeout w stats m = elim (Option-cases (get stats.job_id m.state.jobs)) [
    | inl e ↦ rw (e, note_stats) refl
    | inr (job, e) ↦ rw (e, note_stats) refl
  ]

  pub heard_of-note_stats :
      (now timeout : ℕ) (w : String) (stats : JobStats) (m : Monitor) (id : ℕ)
      → heard_of id (note_stats f now timeout w stats m) ≡ (
          if stats.job_id == id
          then insert w (stats_of stats) (heard_of stats.job_id m)
          else heard_of id m)
  unfolding note_worker
  heard_of-note_stats now timeout w stats m id =
      ap (get_or [] id) (note_stats_heard now timeout w stats m)
      ∙ ground (
        arith,
        get-insert stats.job_id id (insert w (stats_of stats) (heard_of stats.job_id m))
            m.job_worker_stats,
      )

  -- What a report makes of the job that it is on
  abbrev pub noted : ℕ → ℕ → String → JobStats → Monitor → JobInfo → JobInfo
  noted now timeout w stats m job =
      let heard = insert w (stats_of stats) (heard_of stats.job_id m) in
      note_job now timeout stats (total_of f job.assigned_workers (some heard)) m.global_idle_start
        job

  pub get-note_stats_same :
      (now timeout : ℕ) (w : String) (stats : JobStats) (m : Monitor) (job : JobInfo)
      → get stats.job_id m.state.jobs ≡ some job
      → get stats.job_id (note_stats f now timeout w stats m).state.jobs
        ≡ some (noted now timeout w stats m job)
  unfolding note_stats note_worker
  get-note_stats_same now timeout w stats m job stored =
      let heard = insert w (stats_of stats) (heard_of stats.job_id m) in
      let said : get stats.job_id (note_worker w stats m.job_worker_stats) ≡ some heard =
        get-insert stats.job_id stats.job_id heard m.job_worker_stats
        ∙ rw (beq_refl stats.job_id) refl in
      let t =
        total_of f job.assigned_workers
          (get stats.job_id (note_worker w stats m.job_worker_stats)) in
      let changed : get stats.job_id
            (adjust stats.job_id (note_job now timeout stats t m.global_idle_start) m.state.jobs)
          ≡ some (note_job now timeout stats t m.global_idle_start job) =
        get-adjust stats.job_id stats.job_id _ m.state.jobs
        ∙ rw (beq_refl stats.job_id, stored) refl in
      rw (stored, note_stats) (changed ∙ rw (said) refl)

  pub get-note_stats_other :
      (now timeout : ℕ) (w : String) (stats : JobStats) (m : Monitor) (id : ℕ)
      → (stats.job_id == id) ≡ false
      → get id (note_stats f now timeout w stats m).state.jobs ≡ get id m.state.jobs
  unfolding note_stats
  get-note_stats_other now timeout w stats m id other =
      elim (Option-cases (get stats.job_id m.state.jobs)) [
        | inl e ↦ rw (e, note_stats) refl
        | inr (job, e) ↦
            rw (e, note_stats) (get-adjust stats.job_id id _ m.state.jobs ∙ rw (other) refl)
      ]

  pub note_stats_start :
      (now timeout : ℕ) (w : String) (stats : JobStats) (m : Monitor) (job : JobInfo)
      → get stats.job_id m.state.jobs ≡ some job
      → let heard = insert w (stats_of stats) (heard_of stats.job_id m) in
        (note_stats f now timeout w stats m).global_idle_start
        ≡ set_start now (all_said_idle heard job.assigned_workers) job m.global_idle_start
  unfolding note_stats note_worker
  note_stats_start now timeout w stats m job stored =
      let heard = insert w (stats_of stats) (heard_of stats.job_id m) in
      let said : get stats.job_id (note_worker w stats m.job_worker_stats) ≡ some heard =
        get-insert stats.job_id stats.job_id heard m.job_worker_stats
        ∙ rw (beq_refl stats.job_id) refl in
      rw (stored, note_stats, said)
        (ap (λ idle. set_start now idle job m.global_idle_start)
          (globally_idle-all_said_idle heard job))

  abbrev pub note_each : ℕ → List Report → Monitor → Monitor
  note_each timeout [] m = m
  note_each timeout (r ∷ rs) m =
      note_each timeout rs (note_stats f r.now timeout r.worker r.stats m)
