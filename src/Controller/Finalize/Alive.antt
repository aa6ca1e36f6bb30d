-- ===== src/Controller/Finalize/Alive.antt =====
-- A worker that is not dead stays so when jobs end.
use veloce_ce.Base.{
  ℕ, ◌-◌, String, Bool, true, false, not, ◌&&◌, ltb, Option, none, some, List, [], ◌∷◌, Map, get,
  adjust, get-adjust, Distinct, Distinct-adjust, nat_eq, string_eq, Option-cases, inl, inr, ◌≡◌,
  sym, ap, subst, ◌∙◌, arith,
}
use veloce_ce.Types.Floats.{Floats}
use veloce_ce.Types.Job.{JobInfo, JobStatus}
use veloce_ce.Controller.State.{GlobalState, WorkerHandle}
use veloce_ce.Controller.Worker.{release_on, take_back, reset_if_idle}
use veloce_ce.Controller.Finalize.{
  release_workers, release_job_resources, accrue_job, finalize_job, close_job, record_job,
}

-- The worker has been away for longer than its grace period.
abbrev pub is_dead : ℕ → WorkerHandle → Bool
is_dead now w = not w.connected && ltb 60 (now - w.last_seen)

abbrev pub here : ℕ → Option WorkerHandle → Bool
here now none = false
here now (some w) = not (is_dead now w)

-- The worker is stored, once, and is not dead.
abbrev pub Alive : ℕ → String → Map String WorkerHandle → Type 0
Alive now id ws = Distinct ws × (here now (get id ws) ≡ true)

adjust-Alive :
    (now : ℕ) (id k : String) (g : WorkerHandle → WorkerHandle) (ws : Map String WorkerHandle)
    → ((w : WorkerHandle) → is_dead now (g w) ≡ is_dead now w)
    → Alive now id ws
    → Alive now id (adjust k g ws)
adjust-Alive now id k g ws same (once, alive) = (
  Distinct-adjust k g ws once,
  ap (here now) (get-adjust k id g ws) ∙ (elim (Option-cases (get id ws)) [
    | inl e ↦ ground (arith, alive, e)
    | inr (w, e) ↦ ground (arith, alive, e, same w)
  ]),
)

is_dead-release_on :
    (now : ℕ) (id : String) (job_id : ℕ) (job : JobInfo) (w : WorkerHandle)
    → is_dead now (release_on id job_id job w) ≡ is_dead now w
unfolding release_on take_back reset_if_idle
is_dead-release_on now id job_id job w = ground arith

release_workers-Alive :
    (now : ℕ) (id : String) (assigned : List String) (job_id : ℕ) (job : JobInfo)
    (ws : Map String WorkerHandle)
    → Alive now id ws
    → Alive now id (release_workers assigned job_id job ws)
unfolding release_workers
release_workers-Alive now id [] job_id job ws alive = alive
release_workers-Alive now id (k ∷ assigned) job_id job ws alive =
    release_workers-Alive now id assigned job_id job (adjust k (release_on k job_id job) ws) (
      adjust-Alive now id k (release_on k job_id job) ws (is_dead-release_on now k job_id job)
        alive)

finalize_job-Alive :
    (f : Floats) (now job_id : ℕ) (status : JobStatus) (s : GlobalState) (id : String)
    → Alive now id s.workers
    → Alive now id (finalize_job f now job_id status s).0.workers
unfolding finalize_job release_job_resources accrue_job
finalize_job-Alive f now job_id status s id alive = elim (Option-cases (get job_id s.jobs)) [
  | inl e ↦
      let same : (finalize_job f now job_id status s).0.workers ≡ s.workers = ground (arith, e) in
      subst (Alive now id) (sym same) alive
  | inr (job, e) ↦
      let same : (finalize_job f now job_id status s).0.workers
          ≡ release_workers job.assigned_workers job_id job s.workers =
        ground (arith, e) in
      subst (Alive now id) (sym same)
        (release_workers-Alive now id job.assigned_workers job_id job s.workers alive)
]

pub close_job-Alive :
    (f : Floats) (now job_id : ℕ) (status : JobStatus) (s : GlobalState) (id : String)
    → Alive now id s.workers
    → Alive now id (close_job f now job_id status s).workers
unfolding close_job record_job
close_job-Alive f now job_id status s id alive =
    let t = (finalize_job f now job_id status s).0 in
    let kept = finalize_job-Alive f now job_id status s id alive in
    elim (Option-cases (get job_id t.jobs)) [
      | inl e ↦ rw (e, record_job) kept
      | inr (job, e) ↦ rw (e, record_job) kept
    ]
