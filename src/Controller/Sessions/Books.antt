-- ===== src/Controller/Sessions/Books.antt =====
-- The books of the workers over heartbeats and ends of connections.
use veloce_ce.Base.{
  ℕ, String, Bool, true, false, ◌&&◌, some, List, [], ◌∷◌, map, Map, get, string_eq, nat_eq,
  nat_beq, leb, Bool-cases, Option-cases, inl, inr, ◌≡◌, refl, sym, ap, ◌∙◌,
}
use veloce_ce.Types.Floats.{Floats}
use veloce_ce.Types.Cluster.{Resources}
use veloce_ce.Types.Job.{JobInfo, is_running}
use veloce_ce.Controller.State.{GlobalState, WorkerHandle, is_leader}
use veloce_ce.Controller.Worker.Owned.{WorkerOk, below}
use veloce_ce.Controller.Worker.{gres_limit}
use veloce_ce.Controller.Finalize.Books.{StateOk}
use veloce_ce.Controller.Finalize.Closed.{adjust_job-BooksOk, adjust_worker-BooksOk}
use veloce_ce.Controller.Reconcile.Reaped.{reconcile_missing_worker_jobs-StateOk}
use veloce_ce.Controller.Sessions.{
  JobStats, Monitor, Total, above_preemptible, degrade, set_idle, note_job, note_worker, total_of,
  note_stats, note_seen, note_all, beat, beat_on_leader, heartbeat, globally_idle,
}

-- A machine of the same cores and resources
abbrev pub SameMachine : Resources → Resources → Type 0
SameMachine a b = (a.cpu_cores ≡ b.cpu_cores) × (a.gres ≡ b.gres)

degrade_keeps :
    (timeout : ℕ) (job : JobInfo)
    → ((degrade timeout job).status ≡ job.status)
      × ((degrade timeout job).assigned_workers ≡ job.assigned_workers)
unfolding degrade
degrade_keeps timeout job =
    elim (Bool-cases (job.is_idle && leb timeout job.idle_duration && above_preemptible job.qos)) [
      | inl e ↦ (rw (e, degrade) refl, rw (e, degrade) refl)
      | inr e ↦ (rw (e, degrade) refl, rw (e, degrade) refl)
    ]

set_idle_keeps :
    (now : ℕ) (idle : Bool) (starts : Map ℕ ℕ) (job : JobInfo)
    → ((set_idle now idle starts job).status ≡ job.status)
      × ((set_idle now idle starts job).assigned_workers ≡ job.assigned_workers)
unfolding set_idle
set_idle_keeps now false starts job = (refl, refl)
set_idle_keeps now true starts job = elim (Bool-cases job.is_idle) [
  | inl e ↦ elim (Option-cases (get job.id starts)) [
    | inl q ↦ (rw (e, q, set_idle) refl, rw (e, q, set_idle) refl)
    | inr (t, q) ↦ (rw (e, q, set_idle) refl, rw (e, q, set_idle) refl)
  ]
  | inr e ↦ (rw (e, set_idle) refl, rw (e, set_idle) refl)
]

moved :
    (now : ℕ) (resources : Resources) (w : WorkerHandle)
    → SameMachine resources w.resources
    → WorkerOk w
    → WorkerOk (record w { resources = resources; last_seen = now })
moved now resources w (cores, gres) k = record {
  cores_exact = λ c. k.cores_exact c ∙ ap (below c) (sym cores);
  gres_exact = λ name i. k.gres_exact name i ∙ ap (λ g. below i (gres_limit g name)) (sym gres);
  cores_tracked = k.cores_tracked;
  gres_tracked = k.gres_tracked;
  cores_distinct = k.cores_distinct;
  gres_distinct = k.gres_distinct;
  names_distinct = k.names_distinct;
}

note_job_keeps :
    (now timeout : ℕ) (stats : JobStats) (t : Total) (starts : Map ℕ ℕ) (job : JobInfo)
    → let after = note_job now timeout stats t starts job in
      (after.status ≡ job.status) × (after.assigned_workers ≡ job.assigned_workers)
unfolding note_job
note_job_keeps now timeout stats t starts job =
    let heard = record job {
      current_cpu_usage = t.total_cpu;
      current_memory_usage = t.total_mem;
      cgroup_active = stats.cgroup_active;
    } in
    let idle = globally_idle t job in
    let set = set_idle_keeps now idle starts heard in
    let low = degrade_keeps timeout (set_idle now idle starts heard) in
    (low.0 ∙ set.0, low.1 ∙ set.1)

module _ (f : Floats) (now timeout : ℕ) where
  note_stats-StateOk :
      (worker_id : String) (stats : JobStats) (m : Monitor)
      → StateOk m.state
      → StateOk (note_stats f now timeout worker_id stats m).state
  unfolding note_stats
  note_stats-StateOk worker_id stats m ok = elim (Option-cases (get stats.job_id m.state.jobs)) [
    | inl e ↦ rw (e, note_stats) ok
    | inr (job, e) ↦
        let t =
          total_of f job.assigned_workers
            (get stats.job_id (note_worker worker_id stats m.job_worker_stats)) in
        let g = note_job now timeout stats t m.global_idle_start in
        let keeps = note_job_keeps now timeout stats t m.global_idle_start in
        rw (e, note_stats)
          (adjust_job-BooksOk stats.job_id g m.state.workers m.state.jobs
            (λ j h. ap is_running (keeps j).0 ∙ h) (λ j. (keeps j).1) ok)
  ]

  note_all-StateOk :
      (worker_id : String) (all : List JobStats) (m : Monitor)
      → StateOk m.state
      → StateOk (note_all f now timeout worker_id all m).state
  unfolding note_all
  note_all-StateOk worker_id [] m ok = ok
  note_all-StateOk worker_id (stats ∷ all) m ok =
      note_all-StateOk worker_id all (note_stats f now timeout worker_id stats m)
        (note_stats-StateOk worker_id stats m ok)

  note_seen-StateOk :
      (worker_id : String) (resources : Resources) (s : GlobalState)
      → ((w : WorkerHandle) → get worker_id s.workers ≡ some w → SameMachine resources w.resources)
      → StateOk s
      → StateOk (note_seen f now timeout worker_id resources s)
  unfolding note_seen
  note_seen-StateOk worker_id resources s machine ok =
      adjust_worker-BooksOk worker_id (λ w. record w { resources = resources; last_seen = now })
        s.workers s.jobs (λ w there k. moved now resources w (machine w there) k) (λ w. refl) ok

  beat-StateOk :
      (worker_id : String) (resources : Resources) (job_stats : List JobStats) (m : Monitor)
      → ((w : WorkerHandle)
          → get worker_id m.state.workers ≡ some w
          → SameMachine resources w.resources)
      → StateOk m.state
      → StateOk (beat f now timeout worker_id resources job_stats m).state
  unfolding beat
  beat-StateOk worker_id resources job_stats m machine ok =
      let seen = note_seen-StateOk worker_id resources m.state machine ok in
      let active = map (λ (s : JobStats). s.job_id) job_stats in
      note_all-StateOk worker_id job_stats _
        (reconcile_missing_worker_jobs-StateOk f now worker_id active m.missing_jobs _ seen)

  beat_on_leader-StateOk :
      (worker_id : String) (connection_id : ℕ) (resources : Resources) (job_stats : List JobStats)
      (m : Monitor)
      → ((w : WorkerHandle)
          → get worker_id m.state.workers ≡ some w
          → SameMachine resources w.resources)
      → StateOk m.state
      → StateOk (beat_on_leader f now timeout worker_id connection_id resources job_stats m).state
  unfolding beat_on_leader
  beat_on_leader-StateOk worker_id connection_id resources job_stats m machine ok =
      elim (Option-cases (get worker_id m.state.workers)) [
        | inl e ↦ rw (e, beat_on_leader) ok
        | inr (w, e) ↦ elim (Bool-cases (nat_beq w.connection_id connection_id)) [
          | inl same ↦
              rw (e, beat_on_leader, same) (beat-StateOk worker_id resources job_stats m machine ok)
          | inr other ↦ rw (e, beat_on_leader, other) ok
        ]
      ]

  -- If the books are exact, and a heartbeat comes from a worker that still has the cores and the
  -- resources it had, they are exact after it, whatever it says of jobs, and on whatever connection.
  pub heartbeat-StateOk :
      (worker_id : String) (connection_id : ℕ) (resources : Resources) (job_stats : List JobStats)
      (m : Monitor)
      → ((w : WorkerHandle)
          → get worker_id m.state.workers ≡ some w
          → SameMachine resources w.resources)
      → StateOk m.state
      → StateOk (heartbeat f now timeout worker_id connection_id resources job_stats m).state
  unfolding heartbeat
  heartbeat-StateOk worker_id connection_id resources job_stats m machine ok =
      elim (Bool-cases (is_leader m.state.role)) [
        | inl leads ↦
            rw (leads, heartbeat)
              (beat_on_leader-StateOk worker_id connection_id resources job_stats m machine ok)
        | inr follows ↦
            rw (follows, heartbeat) (note_seen-StateOk worker_id resources m.state machine ok)
      ]
