-- ===== src/Controller/Finalize/Books.antt =====
-- The books of the whole controller: each worker's are exact, and a job that a worker holds is a
-- running job that names the worker.
use veloce_ce.Base.{
  ℕ, String, ◌≡◌, ◌∙◌, inl, inr, Bool-cases, nat_beq, true, false, some, List, [], ◌∷◌, Map, get,
  adjust, contains, Distinct, nat_eq, string_eq, eq_iff, arith, get-adjust-some, adjust_inv,
  nat_beq_iff, Distinct-adjust,
}
use veloce_ce.Types.Job.{JobInfo, is_running}
use veloce_ce.Controller.State.{GlobalState, WorkerHandle}
use veloce_ce.Controller.Worker.{release_on}
use veloce_ce.Controller.Worker.Owned.{WorkerOk}
use veloce_ce.Controller.Worker.Release.{release_on-WorkerOk, contains-release_on}
use veloce_ce.Controller.Finalize.{release_workers}

-- The job is stored, runs, and names the worker.
pub record Holds (jobs : Map ℕ JobInfo) (worker_id : String) (job_id : ℕ) : Type 0 where
  pub job : JobInfo
  pub stored : get job_id jobs ≡ some job
  pub runs : is_running job.status ≡ true
  pub named : contains worker_id job.assigned_workers ≡ true

pub record BooksOk (ws : Map String WorkerHandle) (jobs : Map ℕ JobInfo) : Type 0 where
  pub workers_distinct : Distinct ws
  pub exact : (id : String) (w : WorkerHandle) → get id ws ≡ some w → WorkerOk w
  pub held :
      (id : String) (w : WorkerHandle)
      → get id ws ≡ some w
      → (j : ℕ) → contains j w.assigned_jobs ≡ true
      → Holds jobs id j

-- The books of a state
abbrev pub StateOk : GlobalState → Type 0
StateOk s = BooksOk s.workers s.jobs

-- No worker holds the job.
abbrev pub Unheld : ℕ → Map String WorkerHandle → Type 0
Unheld job_id ws =
    (id : String) (w : WorkerHandle) → get id ws ≡ some w → contains job_id w.assigned_jobs ≡ false

pub Holds-other :
    (jobs jobs' : Map ℕ JobInfo) (id : String) (j : ℕ)
    → get j jobs' ≡ get j jobs
    → Holds jobs id j
    → Holds jobs' id j
Holds-other jobs jobs' id j e h = record {
  job = h.job;
  stored = e ∙ h.stored;
  runs = h.runs;
  named = h.named;
}

-- Changing a job that no worker holds keeps the books.
pub BooksOk-other :
    (ws : Map String WorkerHandle) (jobs jobs' : Map ℕ JobInfo) (job_id : ℕ)
    → BooksOk ws jobs
    → Unheld job_id ws
    → ((j : ℕ) → nat_beq job_id j ≡ false → get j jobs' ≡ get j jobs)
    → BooksOk ws jobs'
BooksOk-other ws jobs jobs' job_id ok free same = record {
  workers_distinct = ok.workers_distinct;
  exact = ok.exact;
  held = λ id w e j c.
      Holds-other jobs jobs' id j (same j (ground (arith, c, free id w e, nat_beq_iff job_id j)))
        (ok.held id w e j c);
}

module _ (job_id : ℕ) (job : JobInfo) where
  -- What a release keeps on each worker holds of all workers after the loop.
  release_workers_inv :
      (P : String → WorkerHandle → Type 0)
      → ((id : String) (w : WorkerHandle) → P id w → P id (release_on id job_id job w))
      → (ids : List String) (ws : Map String WorkerHandle)
      → ((id : String) (w : WorkerHandle) → get id ws ≡ some w → P id w)
      → (id : String) (w : WorkerHandle) → get id (release_workers ids job_id job ws) ≡ some w
      → P id w
  unfolding release_workers
  release_workers_inv P keep [] ws h id w e = h id w e
  release_workers_inv P keep (i ∷ ids) ws h id w e =
      release_workers_inv P keep ids (adjust i (release_on i job_id job) ws)
        (adjust_inv P i (release_on i job_id job) ws (λ v _ p. keep i v p) h) id w e

  Distinct-release_workers :
      (ids : List String) (ws : Map String WorkerHandle)
      → Distinct ws
      → Distinct (release_workers ids job_id job ws)
  unfolding release_workers
  Distinct-release_workers [] ws d = d
  Distinct-release_workers (i ∷ ids) ws d =
      Distinct-release_workers ids (adjust i (release_on i job_id job) ws)
        (Distinct-adjust i (release_on i job_id job) ws d)

  -- No worker of the loop holds the job after it.
  release_workers_frees :
      (ids : List String) (ws : Map String WorkerHandle) (id : String) (w : WorkerHandle)
      → contains id ids ≡ true
      → get id (release_workers ids job_id job ws) ≡ some w
      → contains job_id w.assigned_jobs ≡ false
  unfolding release_workers
  release_workers_frees [] ws id w c e = cc
  release_workers_frees (i ∷ ids) ws id w c e = elim (Bool-cases (contains id ids)) [
    | inl later ↦ release_workers_frees ids (adjust i (release_on i job_id job) ws) id w later e
    | inr last ↦
        release_workers_inv (λ k v. (i ≡ k) → contains job_id v.assigned_jobs ≡ false)
          (λ k v p q. ground (arith, p q, contains-release_on k job_id job_id job v)) ids
          (adjust i (release_on i job_id job) ws)
          (λ k v q same.
            let (u, stored, result) = get-adjust-some i k (release_on i job_id job) ws q in
            ground (
              arith,
              same,
              result,
              contains-release_on i job_id job_id job u,
              eq_iff i k,
              nat_beq_iff job_id job_id,
            ))
          id w e (ground (arith, eq_iff i id))
  ]

module _ (s : GlobalState) (ok : StateOk s) (job_id : ℕ) where
  -- Nobody holds a job that is not stored, or does not run.
  pub idle-Unheld :
      ((job : JobInfo) → get job_id s.jobs ≡ some job → is_running job.status ≡ false)
      → Unheld job_id s.workers
  idle-Unheld idle id w e = elim (Bool-cases (contains job_id w.assigned_jobs)) [
    | inr free ↦ free
    | inl c ↦
        let h = ok.held id w e job_id c in absurd (ground (arith, h.runs, idle h.job h.stored))
  ]

  module _ (job : JobInfo) (stored : get job_id s.jobs ≡ some job) where
    abbrev pub released : Map String WorkerHandle
    released = release_workers job.assigned_workers job_id job s.workers

    pub released-Unheld : Unheld job_id released
    released-Unheld id w e = elim (Bool-cases (contains id job.assigned_workers)) [
      | inl named ↦ release_workers_frees job_id job job.assigned_workers s.workers id w named e
      | inr other ↦ elim (Bool-cases (contains job_id w.assigned_jobs)) [
        | inr free ↦ free
        | inl c ↦
            let h =
              release_workers_inv job_id job
                (λ k v. (j : ℕ) → contains j v.assigned_jobs ≡ true → Holds s.jobs k j)
                (λ k v p j q. p j (ground (arith, contains-release_on k job_id j job v)))
                job.assigned_workers s.workers ok.held id w e job_id c in
            absurd (ground (arith, h.named, h.stored))
      ]
    ]

    pub released-BooksOk : BooksOk released s.jobs
    released-BooksOk = record {
      workers_distinct =
          Distinct-release_workers job_id job job.assigned_workers s.workers ok.workers_distinct;
      exact =
          release_workers_inv job_id job (λ k v. WorkerOk v)
            (λ k v p. release_on-WorkerOk k job_id job v p) job.assigned_workers s.workers ok.exact;
      held =
          release_workers_inv job_id job
            (λ k v. (j : ℕ) → contains j v.assigned_jobs ≡ true → Holds s.jobs k j)
            (λ k v p j q. p j (ground (arith, contains-release_on k job_id j job v)))
            job.assigned_workers s.workers ok.held;
    }
