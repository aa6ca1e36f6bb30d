-- ===== src/Scheduler/Launch/Books.antt =====
-- The launching part of `schedule_jobs` and the books (controller/src/scheduler/mod.rs).
use mathlib.Core.Path.{subst}
use veloce_ce.Base.{
  ℕ, ◌≤◌, String, ◌≡◌, refl, sym, ap, ◌∙◌, ◌⊎◌, inl, inr, true, false, some, List, [], ◌∷◌, Map,
  get, adjust, insert, contains_key, contains, count, contains-count, contains-adjoin, get-insert,
  get-adjust, nat_eq, string_eq, ◌==◌, eq_iff, nat_beq_iff, nat_beq, arith, Option-cases,
  Bool-cases, Distinct, Distinct-insert, beq-cases, get-adjust-some, adjust_inv,
}
use veloce_ce.Types.Job.{JobInfo, JobSpec, is_running}
use veloce_ce.Controller.State.{GlobalState, WorkerHandle}
use veloce_ce.Controller.Worker.{allocate_on}
use veloce_ce.Controller.Worker.Owned.{WorkerOk}
use veloce_ce.Controller.Worker.Allocate.{allocate_on-WorkerOk, allocate_on-Allocated}
use veloce_ce.Controller.Finalize.{preempt_job, reset_pending}
use veloce_ce.Controller.Finalize.Books.{Holds, BooksOk, StateOk, Holds-other, idle-Unheld}
use veloce_ce.Controller.Finalize.Outcome.{
  preempt_job-StateOk, preempt_job_frame, preempt_job_skips, preempt_job_unknown,
}
use veloce_ce.Scheduler.Launch.{
  Allocation, allocated, preempt_all, allocate_all, launch, set_running,
}
use veloce_ce.Scheduler.Launch.Runs.{launch_frame, preempt_all_stores}

-- Every stored job asks for each resource once, as any map of the source does.
abbrev pub RequestsOk : Map ℕ JobInfo → Type 0
RequestsOk jobs = (j : ℕ) (job : JobInfo) → get j jobs ≡ some job → Distinct job.gres_req

-- The job is not running, if it is stored at all.
abbrev pub Idle : ℕ → Map ℕ JobInfo → Type 0
Idle id jobs = (job : JobInfo) → get id jobs ≡ some job → is_running job.status ≡ false

-- The workers while the job is being allocated
record Partly (job_id : ℕ) (selected : List String) (jobs : Map ℕ JobInfo)
    (ws : Map String WorkerHandle) : Type 0 where
  pub workers_distinct : Distinct ws
  pub exact : (id : String) (w : WorkerHandle) → get id ws ≡ some w → WorkerOk w
  pub held :
      (id : String) (w : WorkerHandle)
      → get id ws ≡ some w
      → (j : ℕ) → contains j w.assigned_jobs ≡ true
      → ((job_id ≡ j) × (contains id selected ≡ true)) ⊎ Holds jobs id j

module _ (job_id : ℕ) (spec : JobSpec) (requests : Distinct spec.gres_req) (selected : List String)
    (jobs : Map ℕ JobInfo) where
  abbrev Free : List String → Map String WorkerHandle → Type 0
  Free ids ws =
      (id : String) (w : WorkerHandle)
      → get id ws ≡ some w
      → contains id ids ≡ true
      → contains job_id w.assigned_jobs ≡ false

  get-insert-some :
      (id k : String) (w v : WorkerHandle) (ws : Map String WorkerHandle)
      → get k (insert id w ws) ≡ some v
      → ((id ≡ k) × (w ≡ v)) ⊎ (((id == k) ≡ false) × (get k ws ≡ some v))
  get-insert-some id k w v ws h = elim (beq-cases id k) [
    | inl e ↦ inl (e, ground (arith, get-insert id k w ws, eq_iff id k))
    | inr e ↦ inr (e, ground (arith, get-insert id k w ws))
  ]

  step-Partly :
      (id : String) (ids : List String) (w w' : WorkerHandle) (ws : Map String WorkerHandle)
      → Partly job_id selected jobs ws
      → Free (id ∷ ids) ws
      → contains id selected ≡ true
      → get id ws ≡ some w
      → allocate_on job_id spec w ≡ some w'
      → Partly job_id selected jobs (insert id w' ws)
  step-Partly id ids w w' ws ok free there stored done = record {
    workers_distinct = Distinct-insert id w' ws ok.workers_distinct;
    exact = λ k v e. elim (get-insert-some id k w' v ws e) [
      | inl (same, q) ↦ subst WorkerOk q (
          allocate_on-WorkerOk job_id spec w w' (ok.exact id w stored)
            (free id w stored (ground (arith, eq_iff id id))) requests done)
      | inr (other, q) ↦ ok.exact k v q
    ];
    held = λ k v e j c. elim (get-insert-some id k w' v ws e) [
      | inr (other, q) ↦ ok.held k v q j c
      | inl (same, q) ↦ elim (Bool-cases (nat_beq job_id j)) [
        | inl mine ↦
            inl (
              ground (arith, nat_beq_iff job_id j),
              ap (λ i. contains i selected) (sym same) ∙ there,
            )
        | inr others ↦
            let al = allocate_on-Allocated job_id spec w w' done in
            elim (ok.held id w stored j (
              ground (
                arith,
                al.result,
                contains-adjoin job_id j w.assigned_jobs,
                ap (λ (u : WorkerHandle). contains j u.assigned_jobs) q,
                ap (λ (u : WorkerHandle). contains j u.assigned_jobs) al.result,
              ))) [
                | inl (mine, _) ↦ absurd (ground (arith, nat_beq_iff job_id j))
                | inr h ↦ inr (subst (λ i. Holds jobs i j) same h)
              ]
      ]
    ];
  }

  step-Free :
      (id : String) (ids : List String) (w' : WorkerHandle) (ws : Map String WorkerHandle)
      → Free (id ∷ ids) ws
      → contains id ids ≡ false
      → Free ids (insert id w' ws)
  step-Free id ids w' ws free last k v e c = elim (get-insert-some id k w' v ws e) [
    | inl (same, _) ↦ absurd (ground (arith, ap (λ i. contains i ids) same))
    | inr (other, q) ↦ free k v q (ground arith)
  ]

  allocate_all-Partly :
      (ids : List String) (a a' : Allocation)
      → ((x : String) → count x ids ≤ 1)
      → ((x : String) → contains x ids ≡ true → contains x selected ≡ true)
      → Free ids a.workers
      → Partly job_id selected jobs a.workers
      → allocate_all job_id spec ids a ≡ some a'
      → Partly job_id selected jobs a'.workers
  unfolding allocate_all allocated
  allocate_all-Partly [] a a' once sub free ok done =
      let e : a ≡ a' = ground arith in
      subst (λ (b : Allocation). Partly job_id selected jobs b.workers) e ok
  allocate_all-Partly (id ∷ ids) a a' once sub free ok done =
      elim (Option-cases (get id a.workers)) [
        | inl e ↦
            allocate_all-Partly ids a a' (λ x. omega (arith, once x)) (λ x h. sub x (ground arith))
              (λ k v q c. free k v q (ground arith)) ok (ground arith)
        | inr (w, e) ↦ elim (Option-cases (allocate_on job_id spec w)) [
          | inl q ↦ absurd (ground arith)
          | inr (w', q) ↦
              allocate_all-Partly ids (allocated job_id id w' a) a' (λ x. omega (arith, once x))
                (λ x h. sub x (ground arith))
                (step-Free id ids w' a.workers free
                  (ground (arith, once id, contains-count id ids, eq_iff id id)))
                (step-Partly id ids w w' a.workers ok free (sub id (ground (arith, eq_iff id id))) e
                  q)
                (ground arith)
        ]
      ]

-- Preempting a job leaves every stored job's request, and runs no job.
module _ (id : ℕ) (s : GlobalState) where
  preempt_job_jobs :
      (preempt_job id s ≡ s) ⊎ ((preempt_job id s).jobs ≡ adjust id reset_pending s.jobs)
  preempt_job_jobs = elim (Option-cases (get id s.jobs)) [
    | inl e ↦ inl (preempt_job_unknown id s e)
    | inr (job, e) ↦ elim (Bool-cases (is_running job.status)) [
      | inr idle ↦ inl (preempt_job_skips id s job e idle)
      | inl runs ↦ inr (preempt_job_frame id s job e runs).1
    ]
  ]

  preempt_job-RequestsOk : RequestsOk s.jobs → RequestsOk (preempt_job id s).jobs
  preempt_job-RequestsOk ok = elim preempt_job_jobs [
    | inl e ↦ rw e ok
    | inr e ↦ rw e (
        adjust_inv (λ j (job : JobInfo). Distinct job.gres_req) id reset_pending s.jobs (λ v _ d. d)
          ok)
  ]

  preempt_job-Idle : (j : ℕ) → Idle j s.jobs → Idle j (preempt_job id s).jobs
  preempt_job-Idle j ok = elim preempt_job_jobs [
    | inl e ↦ rw e ok
    | inr e ↦ λ job h.
        let (old, stored, result) =
          get-adjust-some id j reset_pending s.jobs (ap (get j) (sym e) ∙ h) in
        ground (arith, ok old stored, result)
  ]

module _ (job_id : ℕ) where
  preempt_all_ok :
      (ids : List ℕ) (s : GlobalState)
      → StateOk s
      → RequestsOk s.jobs
      → Idle job_id s.jobs
      → let t = preempt_all ids s in StateOk t × RequestsOk t.jobs × Idle job_id t.jobs
  unfolding preempt_all
  preempt_all_ok [] s ok requests idle = (ok, requests, idle)
  preempt_all_ok (id ∷ ids) s ok requests idle =
      preempt_all_ok ids (preempt_job id s) (preempt_job-StateOk id s ok)
        (preempt_job-RequestsOk id s requests) (preempt_job-Idle id s job_id idle)

-- The job that is set running names every worker that took it.
set_running-BooksOk :
    (started job_id : ℕ) (selected : List String) (a : Allocation) (jobs : Map ℕ JobInfo)
    → contains_key job_id jobs ≡ true
    → Idle job_id jobs
    → Partly job_id selected jobs a.workers
    → BooksOk a.workers (adjust job_id (set_running started selected a) jobs)
set_running-BooksOk started job_id selected a jobs there waits p = record {
  workers_distinct = p.workers_distinct;
  exact = p.exact;
  held = λ id w e j c. elim (p.held id w e j c) [
    | inl (mine, named) ↦ elim (Option-cases (get job_id jobs)) [
      | inl missing ↦ absurd (ground arith)
      | inr (old, stored) ↦ record {
        job = set_running started selected a old;
        stored =
            get-adjust job_id j (set_running started selected a) jobs
            ∙ ground (arith, nat_beq_iff job_id j, mine, ap (λ i. get i jobs) mine);
        runs = refl;
        named = named;
      }
    ]
    | inr h ↦ elim (beq-cases job_id j) [
      | inl mine ↦
          absurd (ground (arith, h.runs, waits h.job (ap (λ i. get i jobs) mine ∙ h.stored)))
      | inr other ↦
          Holds-other jobs (adjust job_id (set_running started selected a) jobs) id j
            (get-adjust job_id j (set_running started selected a) jobs ∙ rw other refl) h
    ]
  ];
}

-- Launching a job that does not run, on workers of which none is chosen twice, keeps the books.
pub launch-StateOk :
    (started job_id : ℕ) (job : JobInfo) (selected : List String) (evict : List ℕ)
    (s t : GlobalState)
    → StateOk s
    → RequestsOk s.jobs
    → Idle job_id s.jobs
    → contains_key job_id s.jobs ≡ true
    → Distinct job.gres_req
    → ((x : String) → count x selected ≤ 1)
    → launch started job_id job selected evict s ≡ some t
    → StateOk t × RequestsOk t.jobs
launch-StateOk started job_id job selected evict s t ok requests idle there d once done =
    let (a, each, ws, js) = launch_frame started job_id job selected evict s t done in
    let u = preempt_all evict s in
    let (books, asked, waits) = preempt_all_ok job_id evict s ok requests idle in
    let free = idle-Unheld u books job_id waits in
    let p =
      allocate_all-Partly job_id job.spec d selected u.jobs selected
        (record { workers = u.workers; all_cores = []; all_gres = []; node_list_ips = [] }) a once
        (λ x h. h) (λ k v e _. free k v e)
        (record {
          workers_distinct = books.workers_distinct;
          exact = books.exact;
          held = λ k v e j c. inr (books.held k v e j c);
        })
        each in
    (
      rw (ws, js)
          (set_running-BooksOk started job_id selected a u.jobs
            (ground (arith, preempt_all_stores evict job_id s)) waits p),
      rw js (
          adjust_inv (λ j (v : JobInfo). Distinct v.gres_req) job_id
            (set_running started selected a) u.jobs (λ v _ q. q) asked),
    )
