-- ===== src/Scheduler/Pass/Books.antt =====
-- A scheduling pass and the books of the controller (controller/src/scheduler/mod.rs).
use veloce_ce.Base.{
  ℕ, String, ◌≡◌, refl, ◌∙◌, inl, inr, true, none, some, List, [], ◌∷◌, adjust, contains_key,
  get-adjust, nat_eq, string_eq, nat_beq_iff, nat_beq, arith, format, decimal, Option-cases,
  if◌then◌else◌, Distinct, adjust_inv,
}
use veloce_ce.Types.Job.{JobInfo}
use veloce_ce.Controller.State.{GlobalState}
use veloce_ce.Controller.Finalize.Books.{StateOk}
use veloce_ce.Scheduler.Selection.{sort_available}
use veloce_ce.Scheduler.Selection.Once.{choose-once}
use veloce_ce.Scheduler.Projection.{earliest_start_time}
use veloce_ce.Scheduler.Launch.Books.{RequestsOk, Idle, launch-StateOk}
use veloce_ce.Scheduler.Pass.{
  Env, Pass, keep, set_reason, clear_waiting, relieved, waiting_reason, stay, place, schedule_one,
  schedule_each, schedule_jobs, opened, queue_order,
}
use veloce_ce.Scheduler.Pass.Outcome.{
  place_cases, schedule_pending_cases, schedule_one_cases, schedule_each_cases, schedule_jobs_cases,
  found,
}

-- The books are exact, and every request names a resource once.
pub record PassOk (s : GlobalState) : Type 0 where
  pub books : StateOk s
  pub requests : RequestsOk s.jobs

-- A change of a job that keeps what it holds, and what it asks for
record Keeps (f : JobInfo → JobInfo) : Type 0 where
  pub status : (job : JobInfo) → (f job).status ≡ job.status
  pub workers : (job : JobInfo) → (f job).assigned_workers ≡ job.assigned_workers
  pub request : (job : JobInfo) → (f job).gres_req ≡ job.gres_req

module _ (f : JobInfo → JobInfo) (k : Keeps f) (id : ℕ) (s : GlobalState) (ok : PassOk s) where
  adjust-StateOk : StateOk (record s { jobs = adjust id f s.jobs })
  adjust-StateOk = record {
    workers_distinct = ok.books.workers_distinct;
    exact = ok.books.exact;
    held = λ worker_id w e j c.
        let h = ok.books.held worker_id w e j c in
        record {
          job = if nat_beq id j then f h.job else h.job;
          stored = get-adjust id j f s.jobs ∙ ground (arith, h.stored);
          runs = ground (arith, h.runs, k.status h.job);
          named = ground (arith, h.named, k.workers h.job);
        };
  }

  adjust-PassOk : PassOk (record s { jobs = adjust id f s.jobs })
  adjust-PassOk = record {
    books = adjust-StateOk;
    requests =
        adjust_inv (λ j (job : JobInfo). Distinct job.gres_req) id f s.jobs
          (λ v _ d. rw (k.request v) d) ok.requests;
  }

module _ (env : Env) (id : ℕ) where
  relieved-Keeps : Keeps (relieved env)
  relieved-Keeps = record {
    status = λ job. ground arith;
    workers = λ job. ground arith;
    request = λ job. ground arith;
  }

  pub clear_waiting-PassOk : (s : GlobalState) → PassOk s → PassOk (clear_waiting env id s)
  unfolding clear_waiting
  clear_waiting-PassOk s ok = adjust-PassOk (relieved env) relieved-Keeps id s ok

  keep-PassOk : (reason : String) (p : Pass) → PassOk p.state → PassOk (keep env reason id p).state
  unfolding keep set_reason
  keep-PassOk reason p ok =
      adjust-PassOk (λ (job : JobInfo). record job { reason = some reason })
        (record { status = λ job. refl; workers = λ job. refl; request = λ job. refl }) id p.state
        ok

  stay-PassOk :
      (job : JobInfo) (available fails : List String) (p : Pass)
      → PassOk p.state
      → PassOk (stay env id job available fails p).state
  unfolding stay
  stay-PassOk job available fails p ok = elim (Option-cases p.top_job) [
    | inl e ↦
        let r = waiting_reason env job available fails in
        let est = earliest_start_time job p.state env.now in
        rw (e, stay) (keep-PassOk (format (r ∷ " (Earliest start: " ∷ decimal est ∷ ")" ∷ [])) p ok)
    | inr (top, e) ↦ rw (e, stay) (keep-PassOk (waiting_reason env job available fails) p ok)
  ]

  place-PassOk :
      (job : JobInfo) (p p' : Pass)
      → PassOk p.state
      → contains_key id p.state.jobs ≡ true
      → Idle id p.state.jobs
      → Distinct job.gres_req
      → place env id job p ≡ some p'
      → PassOk p'.state
  place-PassOk job p p' ok there idle d done = elim (place_cases env id job p p' done) [
    | inl e ↦ rw e (
        stay-PassOk job (sort_available p.state.workers (found env id job p).0)
          (found env id job p).1 p ok)
    | inr (c, s, e, l, q) ↦
        let (books, requests) =
          launch-StateOk env.started id job c.selected_ids c.jobs_to_preempt p.state s ok.books
            ok.requests idle there d
            (λ x.
              choose-once x env.now job p.state.reservations p.state.jobs p.state.workers c
                ok.books.workers_distinct e)
            l in
        rw q (record { books = books; requests = requests })
  ]

  pub schedule_one-PassOk :
      (p p' : Pass) → PassOk p.state → schedule_one env id p ≡ some p' → PassOk p'.state
  unfolding keep set_reason clear_waiting
  schedule_one-PassOk p p' ok done = elim (schedule_one_cases env id p p' done) [
    | inl e ↦ rw e ok
    | inr (job, stored, waits, e) ↦ elim (schedule_pending_cases env id job p p' e) [
      | inl (q, reason, _, inl same, r) ↦ rw r (keep-PassOk reason q (rw same ok))
      | inl (q, reason, _, inr cleared, r) ↦
          rw r (keep-PassOk reason q (rw cleared (clear_waiting-PassOk p.state ok)))
      | inr r ↦
          place-PassOk job (record p { state = clear_waiting env id p.state }) p'
            (clear_waiting-PassOk p.state ok)
            (ground (arith, get-adjust id id (relieved env) p.state.jobs, nat_beq_iff id id))
            (λ j h. ground (
              arith,
              h,
              get-adjust id id (relieved env) p.state.jobs,
              nat_beq_iff id id,
              relieved-Keeps.status job,
            ))
            (ok.requests id job stored) r
    ]
  ]

module _ (env : Env) where
  schedule_each-PassOk :
      (ids : List ℕ) (p p' : Pass)
      → PassOk p.state
      → schedule_each env ids p ≡ some p'
      → PassOk p'.state
  unfolding schedule_each
  schedule_each-PassOk [] p p' ok done = let e : p ≡ p' = ground arith in rw (← e) ok
  schedule_each-PassOk (id ∷ ids) p p' ok done =
      let (q, first, rest) = schedule_each_cases env id ids p p' done in
      schedule_each-PassOk ids q p' (schedule_one-PassOk env id p q ok first) rest

  pub opened-PassOk : (s : GlobalState) → PassOk s → PassOk (opened env s)
  unfolding opened
  opened-PassOk s ok = record { books = ok.books; requests = ok.requests }

  -- If the books are exact and every request names a resource once, both hold after a scheduling pass
  -- that does not panic.
  pub schedule_jobs-PassOk :
      (s t : GlobalState) → PassOk s → schedule_jobs env s ≡ some t → PassOk t
  schedule_jobs-PassOk s t ok done =
      let (p, each, e) = schedule_jobs_cases env s t done in
      let kept =
        schedule_each-PassOk (queue_order env (opened env s) s.queue)
          (record { state = opened env s; still_pending = []; top_job = none }) p
          (opened-PassOk s ok) each in
      rw e (record { books = kept.books; requests = kept.requests })
