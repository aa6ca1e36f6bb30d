-- ===== src/Scheduler/Launch/Runs.antt =====
-- Jobs in the launching part of `schedule_jobs` (controller/src/scheduler/mod.rs).
use veloce_ce.Base.{
  ℕ, ◌+◌, String, ◌≡◌, refl, ap, ◌∙◌, true, none, some, List, [], ◌∷◌, get, adjust, contains_key,
  get-adjust, nat_eq, string_eq, nat_beq_iff, arith, Option-cases, inl, inr, Bool-cases,
}
use veloce_ce.Types.Job.{JobInfo, is_running, running}
use veloce_ce.Controller.State.{GlobalState, send}
use veloce_ce.Controller.Finalize.{preempt_job, reset_pending}
use veloce_ce.Controller.Finalize.Outcome.{
  send_effects, preempt_job_unknown, preempt_job_skips, preempt_job_frame,
}
use veloce_ce.Scheduler.Launch.{
  Allocation, preempt_all, allocate_all, write_hostfile, send_runs, dispatched, run_message,
  record_dispatched_workers, launch, set_running,
}

-- Preempting a job forgets no job.
preempt_job_stores :
    (id j : ℕ) (s : GlobalState) → contains_key j (preempt_job id s).jobs ≡ contains_key j s.jobs
preempt_job_stores id j s = elim (Option-cases (get id s.jobs)) [
  | inl e ↦ rw (preempt_job_unknown id s e) refl
  | inr (job, e) ↦ elim (Bool-cases (is_running job.status)) [
    | inr idle ↦ rw (preempt_job_skips id s job e idle) refl
    | inl runs ↦
        ground (arith, preempt_job_frame id s job e runs, get-adjust id j reset_pending s.jobs)
  ]
]

pub preempt_all_stores :
    (ids : List ℕ) (j : ℕ) (s : GlobalState)
    → contains_key j (preempt_all ids s).jobs ≡ contains_key j s.jobs
unfolding preempt_all
preempt_all_stores [] j s = refl
preempt_all_stores (id ∷ ids) j s =
    preempt_all_stores ids j (preempt_job id s) ∙ preempt_job_stores id j s

-- Sending the messages changes neither jobs nor workers.
pub send_runs_frame :
    (job_id : ℕ) (job : JobInfo) (selected : List String) (a : Allocation) (i : ℕ)
    (ids : List String) (s : GlobalState)
    → let t = send_runs job_id job selected a i ids s in (t.jobs ≡ s.jobs) × (t.workers ≡ s.workers)
unfolding send_runs
send_runs_frame job_id job selected a i [] s = (refl, refl)
send_runs_frame job_id job selected a i (id ∷ ids) s = elim (Option-cases (get id s.workers)) [
  | inl e ↦ rw (e, send_runs) (send_runs_frame job_id job selected a (i + 1) ids s)
  | inr (w, e) ↦
      let msg = run_message job_id job selected a i id w s in
      let f = send_effects s id msg in
      let (js, ws) = send_runs_frame job_id job selected a (i + 1) ids (send id msg s) in
      rw (e, send_runs)
        (js ∙ ap (λ (t : GlobalState). t.jobs) f, ws ∙ ap (λ (t : GlobalState). t.workers) f)
]

-- What a launch that does not panic does to jobs and workers.
pub launch_frame :
    (started job_id : ℕ) (job : JobInfo) (selected : List String) (evict : List ℕ)
    (s t : GlobalState)
    → launch started job_id job selected evict s ≡ some t
    → (a : Allocation) × (allocate_all job_id job.spec selected (record {
      workers = (preempt_all evict s).workers;
      all_cores = [];
      all_gres = [];
      node_list_ips = [];
    })
        ≡ some a)
      × (t.workers ≡ a.workers)
      × (t.jobs ≡ adjust job_id (set_running started selected a) (preempt_all evict s).jobs)
unfolding launch write_hostfile record_dispatched_workers
launch_frame started job_id job selected evict s t done =
    elim (Option-cases (
      allocate_all job_id job.spec selected (record {
        workers = (preempt_all evict s).workers;
        all_cores = [];
        all_gres = [];
        node_list_ips = [];
      }))) [
        | inl e ↦ absurd (ground arith)
        | inr (a, e) ↦
            let u =
              write_hostfile job_id job selected
                (record (preempt_all evict s) { workers = a.workers }) in
            (
              a,
              e,
              ground (arith, send_runs_frame job_id job selected a 0 (dispatched job selected) u),
              ground (arith, send_runs_frame job_id job selected a 0 (dispatched job selected) u),
            )
      ]

-- If the job is stored and the launch does not panic, the stored job then runs on the selected
-- workers, and has no reason to wait.
pub launch_runs :
    (started job_id : ℕ) (job : JobInfo) (selected : List String) (evict : List ℕ)
    (s t : GlobalState)
    → contains_key job_id s.jobs ≡ true
    → launch started job_id job selected evict s ≡ some t
    → (job' : JobInfo) × (get job_id t.jobs ≡ some job')
      × (job'.status ≡ running)
      × (job'.assigned_workers ≡ selected)
      × (job'.reason ≡ none)
launch_runs started job_id job selected evict s t there done =
    let (a, _, _, js) = launch_frame started job_id job selected evict s t done in
    elim (Option-cases (get job_id (preempt_all evict s).jobs)) [
      | inl e ↦ absurd (ground (arith, preempt_all_stores evict job_id s))
      | inr (old, e) ↦ (
        set_running started selected a old,
        ground (
          arith,
          js,
          get-adjust job_id job_id (set_running started selected a) (preempt_all evict s).jobs,
          nat_beq_iff job_id job_id,
        ),
        refl,
        refl,
        refl,
      )
    ]
