-- ===== src/Controller/Timeouts/Effect.antt =====
-- `check_timeouts` of controller/src/scheduler/finalize.rs and the books of the controller.
use veloce_ce.Base.{
  ℕ, String, ◌≡◌, refl, inl, inr, Bool, true, false, not, ◌||◌, none, some, List, [], ◌∷◌, Map, get,
  remove, adjust, get-remove-some, Distinct-remove, nat_eq, string_eq, head?, is_empty, arith,
  Option-cases,
}
use veloce_ce.Types.Floats.{Floats}
use veloce_ce.Types.Job.{JobInfo, failed}
use veloce_ce.Controller.Messages.{terminate_job}
use veloce_ce.Controller.State.{GlobalState, WorkerHandle, leader, follower}
use veloce_ce.Controller.Finalize.Closed.{close_job-StateOk, adjust_job-BooksOk}
use veloce_ce.Controller.Finalize.Books.{BooksOk, StateOk, Unheld}
use veloce_ce.Controller.Finalize.Outcome.{send_effects}
use veloce_ce.Controller.Timeouts.{
  Context, timed_out_jobs, dead_workers, terminate_head, no_usage, fail_and_drop, fail_job,
  time_out, fail_on_worker, bury, bury_all, notify, check_all, check_timeouts,
}

-- A job that fails is gone, and the books stay exact.
pub fail_and_drop-StateOk :
    (f : Floats) (now job_id : ℕ) (why : String) (s : GlobalState)
    → StateOk s
    → let t = fail_and_drop f now job_id why s in
      StateOk t × Unheld job_id t.workers × (get job_id t.jobs ≡ none)
unfolding fail_and_drop
fail_and_drop-StateOk f now job_id why s ok = close_job-StateOk f now job_id (failed why) s ok

pub terminate_head_frame :
    (job_id : ℕ) (s : GlobalState)
    → ((terminate_head job_id s).workers ≡ s.workers) × ((terminate_head job_id s).jobs ≡ s.jobs)
unfolding terminate_head
terminate_head_frame job_id s = elim (Option-cases (get job_id s.jobs)) [
  | inl e ↦ ground arith
  | inr (job, e) ↦ elim (Option-cases (head? job.assigned_workers)) [
    | inl h ↦ ground arith
    | inr (id, h) ↦ ground (arith, send_effects s id (terminate_job job_id))
  ]
]

-- Taking a worker out of the state
remove_worker-BooksOk :
    (id : String) (ws : Map String WorkerHandle) (jobs : Map ℕ JobInfo)
    → BooksOk ws jobs
    → BooksOk (remove id ws) jobs
remove_worker-BooksOk id ws jobs ok = record {
  workers_distinct = Distinct-remove id ws ok.workers_distinct;
  exact = λ k w e. ok.exact k w (get-remove-some id k ws e).1;
  held = λ k w e j c. ok.held k w (get-remove-some id k ws e).1 j c;
}

-- A change of what a job uses now
no_usage-BooksOk :
    (id : ℕ) (ws : Map String WorkerHandle) (jobs : Map ℕ JobInfo)
    → BooksOk ws jobs
    → BooksOk ws (adjust id no_usage jobs)
no_usage-BooksOk id ws jobs ok =
    adjust_job-BooksOk id no_usage ws jobs (λ job h. h) (λ job. refl) ok

module _ {Metrics : Type 0} (f : Floats) (now : ℕ) where
  time_out-StateOk :
      (ids : List ℕ) (c : Context Metrics) → StateOk c.state → StateOk (time_out f now ids c).state
  unfolding time_out fail_job
  time_out-StateOk [] c ok = ok
  time_out-StateOk (id ∷ ids) c ok =
      let s = terminate_head id c.state in
      let (ws, js) = terminate_head_frame id c.state in
      let d = record c { state = s } in
      time_out-StateOk ids (fail_job f now id "Timeout" d)
        (fail_and_drop-StateOk f now id "Timeout" s (rw (ws, js) ok)).0

  fail_on_worker-StateOk :
      (ids : List ℕ) (c : Context Metrics)
      → StateOk c.state
      → StateOk (fail_on_worker f now ids c).state
  unfolding fail_on_worker fail_job
  fail_on_worker-StateOk [] c ok = ok
  fail_on_worker-StateOk (id ∷ ids) c ok =
      let s = record c.state { jobs = adjust id no_usage c.state.jobs } in
      fail_on_worker-StateOk ids (fail_job f now id "Worker timeout" (record c { state = s }))
        (fail_and_drop-StateOk f now id "Worker timeout" s
          (no_usage-BooksOk id c.state.workers c.state.jobs ok)).0

  bury_all-StateOk :
      (ids : List String) (c : Context Metrics)
      → StateOk c.state
      → StateOk (bury_all f now ids c).state
  unfolding bury_all bury
  bury_all-StateOk [] c ok = ok
  bury_all-StateOk (id ∷ ids) c ok = bury_all-StateOk ids (bury f now id c) (
      fail_on_worker-StateOk
        (elim (get id c.state.workers) [ none ↦ [] | some w ↦ w.assigned_jobs ])
        (record c {
          state = record c.state { workers = remove id c.state.workers };
          metrics_store = remove id c.metrics_store;
        })
        (remove_worker-BooksOk id c.state.workers c.state.jobs ok))

  notify-StateOk :
      (b : Bool) (c : Context Metrics) → StateOk c.state → StateOk (notify f now b c).state
  unfolding notify
  notify-StateOk true c ok = ok
  notify-StateOk false c ok = ok

  check_all-StateOk : (c : Context Metrics) → StateOk c.state → StateOk (check_all f now c).state
  unfolding check_all
  check_all-StateOk c ok =
      let late = timed_out_jobs now c.state.jobs in
      let d = time_out f now late c in
      let dead = dead_workers now d.state.workers in
      notify-StateOk (not (is_empty late) || not (is_empty dead)) (bury_all f now dead d)
        (bury_all-StateOk dead d (time_out-StateOk late c ok))

  -- If the books are exact, they are exact after the check of timeouts, on a leader or a follower.
  pub check_timeouts-StateOk :
      (c : Context Metrics) → StateOk c.state → StateOk (check_timeouts f now c).state
  unfolding check_timeouts
  check_timeouts-StateOk c ok =
      elim c.state.role
        as (λ r.
          StateOk
            (elim r as (λ _. Context Metrics) [
              | follower ↦ c
              | leader ↦ check_all f now c
            ]).state) [ follower ↦ ok | leader ↦ check_all-StateOk c ok ]
