-- ===== src/Controller/Finalize/Outcome.antt =====
-- The handlers of controller/src/scheduler/finalize.rs and the books of the controller.
use mathlib.Core.Option
use veloce_ce.Base.{
  ℕ, String, ◌≡◌, refl, ap, ◌∙◌, inl, inr, Bool-cases, Option-cases, true, false, Option, none,
  some, List, [], ◌∷◌, Map, get, remove, adjust, contains, Distinct, nat_eq, string_eq,
  if◌then◌else◌, arith, get-adjust, get-remove, nat_beq_iff, head?, ◌&&◌,
}
use veloce_ce.Types.Floats.{Floats, zero_float}
use veloce_ce.Types.Job.{JobInfo, JobStatus, is_running}
use veloce_ce.Controller.Messages.{Message, preempt_job as preempt_message}
use veloce_ce.Controller.State.{GlobalState, WorkerHandle, is_leader, send, send_to_worker}
use veloce_ce.Controller.Finalize.{
  release_workers, release_job_resources, preempt_job, preempt_running, finalize_job, reset_pending,
  finished, accrue_job, notify_head, enqueue, old_jobs, remove_all, prune_jobs, is_old,
}
use veloce_ce.Controller.Finalize.Books.{
  BooksOk, StateOk, Unheld, BooksOk-other, Holds-other, idle-Unheld, released-Unheld,
  released-BooksOk,
}

-- A message changes only the log of effects.
pub send_effects :
    (s : GlobalState) (id : String) (msg : Message)
    → send id msg s ≡ record s { effects = (send id msg s).effects }
unfolding send_to_worker
send_effects s id msg = ground arith

-- The workers after a job's resources are released
abbrev freed : ℕ → GlobalState → Map String WorkerHandle
freed job_id s = elim (get job_id s.jobs) [
  | none ↦ s.workers
  | some job ↦ release_workers job.assigned_workers job_id job s.workers
]

module _ (s : GlobalState) (ok : StateOk s) (job_id : ℕ) where
  freed-ok : BooksOk (freed job_id s) s.jobs × Unheld job_id (freed job_id s)
  freed-ok = elim (Option-cases (get job_id s.jobs)) [
    | inl e ↦ rw (e, freed) (ok, idle-Unheld s ok job_id (λ job h. ground arith))
    | inr (job, e) ↦
        rw (e, freed) (released-BooksOk s ok job_id job e, released-Unheld s ok job_id job e)
  ]

-- The frame of the two handlers: what they do to workers, jobs and queue.
pub finalize_job_frame :
    (f : Floats) (now job_id : ℕ) (status : JobStatus) (s : GlobalState)
    → let t = (finalize_job f now job_id status s).0 in
      (t.workers ≡ freed job_id s)
      × (t.jobs ≡ adjust job_id (finished now status) s.jobs)
      × (t.queue ≡ s.queue)
unfolding finalize_job release_job_resources accrue_job
finalize_job_frame f now job_id status s = ground arith

-- If the books are exact, then after any job is finished they are exact, no worker holds the job,
-- and the stored job, if there is one, is as before but for the given status, the end time `now`, no
-- usage and no reason.
pub finalize_job-StateOk :
    (f : Floats) (now job_id : ℕ) (status : JobStatus) (s : GlobalState)
    → StateOk s
    → let t = (finalize_job f now job_id status s).0 in
      StateOk t
      × Unheld job_id t.workers
      × (get job_id t.jobs
          ≡ Option.map
              (λ (job : JobInfo). record job {
                status = status;
                current_cpu_usage = zero_float;
                current_memory_usage = 0;
                end_time = some now;
                reason = none;
              })
              (get job_id s.jobs))
finalize_job-StateOk f now job_id status s ok =
    let (ws, js, _) = finalize_job_frame f now job_id status s in
    let (books, free) = freed-ok s ok job_id in
    rw (ws, js)
      (
        BooksOk-other (freed job_id s) s.jobs (adjust job_id (finished now status) s.jobs) job_id
            books free (λ j h. get-adjust job_id j (finished now status) s.jobs ∙ rw h refl),
        free,
        get-adjust job_id job_id (finished now status) s.jobs
            ∙ ground (arith, nat_beq_iff job_id job_id),
      )

notify_head_frame :
    (o : Option String) (job_id : ℕ) (s : GlobalState)
    → let t = notify_head o job_id s in
      (t.workers ≡ s.workers) × (t.jobs ≡ s.jobs) × (t.queue ≡ s.queue)
notify_head_frame none job_id s = (refl, refl, refl)
notify_head_frame (some id) job_id s =
    let e = send_effects s id (preempt_message job_id) in
    (
      ap (λ (t : GlobalState). t.workers) e,
      ap (λ (t : GlobalState). t.jobs) e,
      ap (λ (t : GlobalState). t.queue) e,
    )

-- A job that is not stored is not preempted.
pub preempt_job_unknown :
    (job_id : ℕ) (s : GlobalState) → get job_id s.jobs ≡ none → preempt_job job_id s ≡ s
unfolding preempt_job
preempt_job_unknown job_id s h = ground arith

module _ (job_id : ℕ) (s : GlobalState) (job : JobInfo)
    (stored : get job_id s.jobs ≡ some job) where
  -- Only a running job is preempted.
  pub preempt_job_skips : is_running job.status ≡ false → preempt_job job_id s ≡ s
  unfolding preempt_job
  preempt_job_skips idle = ground arith

  pub preempt_job_frame :
      is_running job.status ≡ true
      → let t = preempt_job job_id s in
        (t.workers ≡ freed job_id s)
        × (t.jobs ≡ adjust job_id reset_pending s.jobs)
        × (t.queue ≡ enqueue job_id s.queue)
  unfolding preempt_job preempt_running release_job_resources
  preempt_job_frame runs = ground (arith, notify_head_frame (head? job.assigned_workers) job_id s)

-- If the books are exact, they are exact after the preemption of any job.
pub preempt_job-StateOk :
    (job_id : ℕ) (s : GlobalState) → StateOk s → StateOk (preempt_job job_id s)
unfolding preempt_job
preempt_job-StateOk job_id s ok = elim (Option-cases (get job_id s.jobs)) [
  | inl e ↦ rw (e, preempt_job) ok
  | inr (job, e) ↦ elim (Bool-cases (is_running job.status)) [
    | inr idle ↦ rw (preempt_job_skips job_id s job e idle) ok
    | inl runs ↦
        let (ws, js, _) = preempt_job_frame job_id s job e runs in
        let (books, free) = freed-ok s ok job_id in
        rw (ws, js)
          (BooksOk-other (freed job_id s) s.jobs (adjust job_id reset_pending s.jobs) job_id books
            free (λ j h. get-adjust job_id j reset_pending s.jobs ∙ rw h refl))
  ]
]

-- Which jobs go at a pruning
get-remove_all :
    (ids : List ℕ) (j : ℕ) (jobs : Map ℕ JobInfo)
    → get j (remove_all ids jobs) ≡ (if contains j ids then none else get j jobs)
unfolding remove_all
get-remove_all [] j jobs = refl
get-remove_all (id ∷ ids) j jobs =
    ground (arith, get-remove_all ids j (remove id jobs), get-remove id j jobs)

contains-old_jobs :
    (now retention j : ℕ) (jobs : Map ℕ JobInfo)
    → Distinct jobs
    → contains j (old_jobs now retention jobs)
      ≡ (elim (get j jobs) [ none ↦ false | some job ↦ is_old now retention job ])
unfolding old_jobs
contains-old_jobs now retention j [] d = refl
contains-old_jobs now retention j ((id, job) ∷ jobs) d =
    ground (arith, contains-old_jobs now retention j jobs d.1, nat_beq_iff id j)

-- Which stored jobs are left
pub prune_jobs-is_old :
    (now retention : ℕ) (s : GlobalState)
    → Distinct s.jobs
    → (j : ℕ)
    → get j (prune_jobs now retention s).jobs ≡ (elim (get j s.jobs) [
      | none ↦ none
      | some job ↦ if is_leader s.role && is_old now retention job then none else some job
    ])
unfolding prune_jobs
prune_jobs-is_old now retention s d j = ground (
  arith,
  get-remove_all (old_jobs now retention s.jobs) j s.jobs,
  contains-old_jobs now retention j s.jobs d,
)

prune_jobs_frame :
    (now retention : ℕ) (s : GlobalState) → (prune_jobs now retention s).workers ≡ s.workers
unfolding prune_jobs
prune_jobs_frame now retention s = ground arith

running_not_old :
    (now retention : ℕ) (job : JobInfo)
    → is_running job.status ≡ true
    → is_old now retention job ≡ false
unfolding is_old
running_not_old now retention job h = ground arith

-- If each job is stored once and the books are exact, they are exact after pruning.
pub prune_jobs-StateOk :
    (now retention : ℕ) (s : GlobalState)
    → Distinct s.jobs
    → StateOk s
    → StateOk (prune_jobs now retention s)
prune_jobs-StateOk now retention s d ok = rw (prune_jobs_frame now retention s) (record {
  workers_distinct = ok.workers_distinct;
  exact = ok.exact;
  held = λ id w e j c.
      let h = ok.held id w e j c in
      Holds-other s.jobs (prune_jobs now retention s).jobs id j
        (ground (
          arith,
          prune_jobs-is_old now retention s d j,
          h.stored,
          running_not_old now retention h.job h.runs,
        ))
        h;
})
