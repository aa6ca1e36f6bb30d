-- ===== src/Controller/Finalize/Closed.antt =====
-- A job that ends and leaves the state, and the books of the controller.
use veloce_ce.Base.{
  Distinct-adjust, adjust_inv, get-adjust-some, ℕ, String, ◌≡◌, refl, ap, ◌∙◌, Option, none, some,
  [], ◌∷◌, ◌++◌, ℤ, true, Map, adjust, contains, nat_beq, if◌then◌else◌, get-adjust, string_eq, get,
  remove, get-remove, nat_eq, arith, nat_beq_iff,
}
use veloce_ce.Types.Floats.{Floats}
use veloce_ce.Types.Job.{JobInfo, JobStatus, is_running, completed}
use veloce_ce.Controller.Messages.{recorded}
use veloce_ce.Controller.State.{GlobalState, WorkerHandle}
use veloce_ce.Controller.Finalize.{
  finalize_job, record_job, close_job, release_job_resources, accrue_job, finished, job_to_usage,
}
use veloce_ce.Controller.Worker.Owned.{WorkerOk}
use veloce_ce.Controller.Finalize.Books.{StateOk, Unheld, BooksOk, BooksOk-other}
use veloce_ce.Controller.Finalize.Outcome.{finalize_job-StateOk, finalize_job_frame}

pub record_job_frame :
    (o : Option JobInfo) (s : GlobalState)
    → ((record_job o s).workers ≡ s.workers) × ((record_job o s).jobs ≡ s.jobs)
unfolding record_job
record_job_frame none s = (refl, refl)
record_job_frame (some job) s = (refl, refl)

-- A job that ends is gone, and the books stay exact.
pub close_job-StateOk :
    (f : Floats) (now job_id : ℕ) (status : JobStatus) (s : GlobalState)
    → StateOk s
    → let t = close_job f now job_id status s in
      StateOk t × Unheld job_id t.workers × (get job_id t.jobs ≡ none)
unfolding close_job
close_job-StateOk f now job_id status s ok =
    let t = (finalize_job f now job_id status s).0 in
    let (books, free, _) = finalize_job-StateOk f now job_id status s ok in
    let (ws, js) =
      record_job_frame (get job_id t.jobs) (record t { jobs = remove job_id t.jobs }) in
    rw (ws, js)
      (
        BooksOk-other t.workers t.jobs (remove job_id t.jobs) job_id books free
            (λ j h. get-remove job_id j t.jobs ∙ rw h refl),
        free,
        get-remove job_id job_id t.jobs ∙ ground (arith, nat_beq_iff job_id job_id),
      )

-- A change of a worker that keeps its books and its jobs keeps the books.
pub adjust_worker-BooksOk :
    (id : String) (g : WorkerHandle → WorkerHandle) (ws : Map String WorkerHandle)
    (jobs : Map ℕ JobInfo)
    → ((w : WorkerHandle) → get id ws ≡ some w → WorkerOk w → WorkerOk (g w))
    → ((w : WorkerHandle) → (g w).assigned_jobs ≡ w.assigned_jobs)
    → BooksOk ws jobs
    → BooksOk (adjust id g ws) jobs
adjust_worker-BooksOk id g ws jobs keeps same ok = record {
  workers_distinct = Distinct-adjust id g ws ok.workers_distinct;
  exact = adjust_inv (λ i w. WorkerOk w) id g ws keeps ok.exact;
  held = λ i w e j c.
      let (v, there, made) = get-adjust-some id i g ws e in
      ok.held i v there j (
        ground (
          arith,
          c,
          ap (λ (u : WorkerHandle). contains j u.assigned_jobs) made,
          ap (contains j) (same v),
        ));
}

-- A change that lets a running job run on the same workers keeps the books.
pub adjust_job-BooksOk :
    (id : ℕ) (g : JobInfo → JobInfo) (ws : Map String WorkerHandle) (jobs : Map ℕ JobInfo)
    → ((job : JobInfo) → is_running job.status ≡ true → is_running (g job).status ≡ true)
    → ((job : JobInfo) → (g job).assigned_workers ≡ job.assigned_workers)
    → BooksOk ws jobs
    → BooksOk ws (adjust id g jobs)
adjust_job-BooksOk id g ws jobs runs same ok = record {
  workers_distinct = ok.workers_distinct;
  exact = ok.exact;
  held = λ worker_id w e j c.
      let h = ok.held worker_id w e j c in
      record {
        job = if nat_beq id j then g h.job else h.job;
        stored = get-adjust id j g jobs ∙ ground (arith, h.stored);
        runs = ground (arith, h.runs, runs h.job h.runs);
        named = ground (arith, h.named, ap (contains worker_id) (same h.job));
      };
}

finalize_job_effects :
    (f : Floats) (now job_id : ℕ) (status : JobStatus) (s : GlobalState)
    → (finalize_job f now job_id status s).0.effects ≡ s.effects
unfolding finalize_job release_job_resources accrue_job
finalize_job_effects f now job_id status s = ground arith

-- The end of a stored job is recorded, and nothing else is sent.
pub close_job_effects :
    (f : Floats) (now job_id : ℕ) (status : JobStatus) (s : GlobalState) (job : JobInfo)
    → get job_id s.jobs ≡ some job
    → (close_job f now job_id status s).effects
      ≡ s.effects ++ recorded (job_to_usage (finished now status job)) ∷ []
unfolding close_job record_job
close_job_effects f now job_id status s job there =
    let (_, js, _) = finalize_job_frame f now job_id status s in
    ground (
      arith,
      finalize_job_effects f now job_id status s,
      js,
      get-adjust job_id job_id (finished now status) s.jobs,
      nat_beq_iff job_id job_id,
    )

pub job_to_usage_exit :
    (now : ℕ) (code : ℤ) (job : JobInfo)
    → (job_to_usage (finished now (completed code) job)).exit_code ≡ some code
unfolding job_to_usage
job_to_usage_exit now code job = refl

-- A closed job is not stored, and what is tracked of others stays.
pub close_job_gone :
    (f : Floats) (now job_id : ℕ) (status : JobStatus) (s : GlobalState)
    → get job_id (close_job f now job_id status s).jobs ≡ none
unfolding close_job
close_job_gone f now job_id status s =
    let t = (finalize_job f now job_id status s).0 in
    ap (get job_id)
      (record_job_frame (get job_id t.jobs) (record t { jobs = remove job_id t.jobs })).1
    ∙ get-remove job_id job_id t.jobs
    ∙ ground (arith, nat_beq_iff job_id job_id)
