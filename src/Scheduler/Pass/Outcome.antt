-- ===== src/Scheduler/Pass/Outcome.antt =====
-- A scheduling pass and the queue (controller/src/scheduler/mod.rs).
use veloce_ce.Base.{
  ℕ, String, ◌≡◌, refl, ◌⊎◌, inl, inr, true, false, ◌||◌, Option, none, some, List, [], ◌∷◌, ◌++◌,
  get, contains_key, contains, get-adjust, nat_eq, string_eq, nat_beq_iff, nat_beq, arith,
  Option-cases, Bool-cases, contains-append, Result-cases, ltb, add64, format, decimal,
}
use veloce_ce.Types.Job.{JobInfo, is_pending, running}
use veloce_ce.Controller.State.{GlobalState}
use veloce_ce.Scheduler.Selection.{Choice, choose, sort_available}
use veloce_ce.Scheduler.Selection.Sorting.{contains-sort_by}
use veloce_ce.Scheduler.Fits.{find_available}
use veloce_ce.Scheduler.Projection.{duration}
use veloce_ce.Scheduler.Dependencies.{dependencies_satisfied}
use veloce_ce.Scheduler.Launch.{launch}
use veloce_ce.Scheduler.Launch.Runs.{launch_runs}
use veloce_ce.Scheduler.Pass.{
  Env, Pass, queue_order, comes_after, relieved, keep, clear_waiting, stay, place, backfill,
  schedule_pending, schedule_one, schedule_each, opened, schedule_jobs,
}

-- A job at its turn
pub data Outcome (id : ℕ) (p p' : Pass) : Type 0 where
  -- it stays in the queue
  stays : p'.still_pending ≡ p.still_pending ++ id ∷ [] → Outcome id p p'
  -- it leaves the queue, and runs
  runs :
      (job : JobInfo)
      → p'.still_pending ≡ p.still_pending
      → get id p'.state.jobs ≡ some job
      → job.status ≡ running
      → Outcome id p p'

module _ (env : Env) (id : ℕ) (job : JobInfo) where
  stay-Outcome :
      (available fails : List String) (p : Pass) → Outcome id p (stay env id job available fails p)
  unfolding stay keep
  stay-Outcome available fails p = stays (ground arith)

  abbrev pub found : Pass → List String × List String
  found p = find_available env.now job p.state.reservations p.state.workers

  -- The workers that are chosen at this point, if any
  abbrev pub choice : Pass → Option (Option Choice)
  choice p =
      choose env.now job p.state.reservations p.state.jobs p.state.workers
        (sort_available p.state.workers (found p).0)

  -- A search that does not panic keeps the job, or launches it on the chosen workers.
  pub place_cases :
      (p p' : Pass)
      → place env id job p ≡ some p'
      → (p' ≡ stay env id job (sort_available p.state.workers (found p).0) (found p).1 p)
        ⊎ ((c : Choice) × (s : GlobalState) × (choice p ≡ some (some c))
            × (launch env.started id job c.selected_ids c.jobs_to_preempt p.state ≡ some s)
            × (p' ≡ record p { state = s }))
  unfolding place
  place_cases p p' done = elim (Option-cases (choice p)) [
    | inl e ↦ absurd (ground arith)
    | inr (none, e) ↦ inl (ground arith)
    | inr (some c, e) ↦
        elim (Option-cases (launch env.started id job c.selected_ids c.jobs_to_preempt p.state)) [
          | inl l ↦ absurd (ground arith)
          | inr (s, l) ↦ inr (c, s, e, l, ground arith)
        ]
  ]

  place-Outcome :
      (p p' : Pass)
      → contains_key id p.state.jobs ≡ true
      → place env id job p ≡ some p'
      → Outcome id p p'
  place-Outcome p p' there done = elim (place_cases p p' done) [
    | inl e ↦ rw e (stay-Outcome (sort_available p.state.workers (found p).0) (found p).1 p)
    | inr (c, s, e, l, q) ↦
        let (job', stored, runs_now, _, _) =
          launch_runs env.started id job c.selected_ids c.jobs_to_preempt p.state s there l in
        rw q (runs job' refl stored runs_now)
  ]

  -- What follows the dependencies: the test for backfilling, and the search
  pub backfill_cases :
      (p p' : Pass)
      → backfill env id job p ≡ some p'
      → ((reason : String) × (p' ≡ keep env reason id p)) ⊎ (place env id job p ≡ some p')
  unfolding backfill
  backfill_cases p p' done = elim (Option-cases p.top_job) [
    | inl e ↦ inr (ground arith)
    | inr ((top_id, top_est), e) ↦ elim (Bool-cases (ltb top_est (add64 env.now (duration job)))) [
      | inl late ↦ inl (
        format (
            "Backfill denied: would delay top job "
            ∷ decimal top_id
            ∷ " (earliest start: "
            ∷ decimal top_est
            ∷ ")"
            ∷ []),
        ground arith,
      )
      | inr early ↦ inr (ground arith)
    ]
  ]

  -- A pending job at its turn is kept with a reason, or the search for workers decides.
  pub schedule_pending_cases :
      (p p' : Pass)
      → schedule_pending env id job p ≡ some p'
      → ((q : Pass) × (reason : String) × (q.still_pending ≡ p.still_pending)
          × ((q.state ≡ p.state) ⊎ (q.state ≡ clear_waiting env id p.state))
          × (p' ≡ keep env reason id q))
        ⊎ (place env id job (record p { state = clear_waiting env id p.state }) ≡ some p')
  unfolding schedule_pending
  schedule_pending_cases p p' done =
      elim (Result-cases (dependencies_satisfied env.lower p.state.jobs env.db_cache job)) [
        | inl (true, e) ↦
            elim (backfill_cases (record p { state = clear_waiting env id p.state }) p'
              (ground arith)) [
                | inl (reason, q) ↦
                    inl
                      (record p { state = clear_waiting env id p.state }, reason, refl, inr refl, q)
                | inr q ↦ inr q
              ]
        | inl (false, e) ↦ inl (p, "Waiting for dependencies", refl, inl refl, ground arith)
        | inr (why, e) ↦ inl (p, why, refl, inl refl, ground arith)
      ]

  schedule_pending-Outcome :
      (p p' : Pass)
      → contains_key id p.state.jobs ≡ true
      → schedule_pending env id job p ≡ some p'
      → Outcome id p p'
  unfolding keep clear_waiting
  schedule_pending-Outcome p p' there done = elim (schedule_pending_cases p p' done) [
    | inl (q, reason, e, _, r) ↦ stays (ground arith)
    | inr r ↦
        elim (place-Outcome (record p { state = clear_waiting env id p.state }) p'
          (ground (arith, get-adjust id id (relieved env) p.state.jobs, nat_beq_iff id id)) r) [
            | stays e ↦ stays e
            | runs job' e stored now ↦ runs job' e stored now
          ]
  ]

module _ (env : Env) (id : ℕ) (p p' : Pass) where
  -- If the job is stored and pending and its turn does not panic, then it is appended to the jobs that
  -- stay in the queue, or those are unchanged and it runs.
  pub schedule_one-Outcome :
      (job : JobInfo)
      → get id p.state.jobs ≡ some job
      → is_pending job.status ≡ true
      → schedule_one env id p ≡ some p'
      → Outcome id p p'
  unfolding schedule_one
  schedule_one-Outcome job stored waits done =
      schedule_pending-Outcome env id job p p' (ground arith) (ground arith)

  -- The turn of a job that is not stored, or not pending, changes nothing.
  pub schedule_one_cases :
      schedule_one env id p ≡ some p'
      → (p' ≡ p)
        ⊎ ((job : JobInfo) × (get id p.state.jobs ≡ some job)
            × (is_pending job.status ≡ true)
            × (schedule_pending env id job p ≡ some p'))
  unfolding schedule_one
  schedule_one_cases done = elim (Option-cases (get id p.state.jobs)) [
    | inl e ↦ inl (ground arith)
    | inr (job, e) ↦ elim (Bool-cases (is_pending job.status)) [
      | inl waits ↦ inr (job, e, waits, ground arith)
      | inr other ↦ inl (ground arith)
    ]
  ]

  schedule_one_still :
      (x : ℕ)
      → schedule_one env id p ≡ some p'
      → contains x p'.still_pending ≡ true
      → (contains x p.still_pending || nat_beq id x) ≡ true
  schedule_one_still x done h = elim (schedule_one_cases done) [
    | inl e ↦ ground arith
    | inr (job, stored, waits, _) ↦ elim (schedule_one-Outcome job stored waits done) [
      | stays e ↦ ground (arith, contains-append x p.still_pending (id ∷ []))
      | runs job' e _ _ ↦ ground arith
    ]
  ]

module _ (env : Env) where
  pub schedule_each_cases :
      (id : ℕ) (ids : List ℕ) (p p' : Pass)
      → schedule_each env (id ∷ ids) p ≡ some p'
      → (q : Pass) × (schedule_one env id p ≡ some q) × (schedule_each env ids q ≡ some p')
  unfolding schedule_each
  schedule_each_cases id ids p p' done = elim (Option-cases (schedule_one env id p)) [
    | inl e ↦ absurd (ground arith)
    | inr (q, e) ↦ (q, e, ground arith)
  ]

  schedule_each_still :
      (x : ℕ) (ids : List ℕ) (p p' : Pass)
      → schedule_each env ids p ≡ some p'
      → contains x p'.still_pending ≡ true
      → (contains x p.still_pending || contains x ids) ≡ true
  unfolding schedule_each
  schedule_each_still x [] p p' done h = ground arith
  schedule_each_still x (id ∷ ids) p p' done h =
      let (q, first, rest) = schedule_each_cases id ids p p' done in
      ground (arith, schedule_each_still x ids q p' rest h, schedule_one_still env id p q x first)

  pub schedule_jobs_cases :
      (s t : GlobalState)
      → schedule_jobs env s ≡ some t
      → (p : Pass) × (schedule_each env
            (queue_order env (opened env s) s.queue)
            (record { state = opened env s; still_pending = []; top_job = none })
          ≡ some p)
        × (t ≡ record p.state { queue = p.still_pending })
  unfolding schedule_jobs
  schedule_jobs_cases s t done =
      elim (Option-cases (
        schedule_each env (queue_order env (opened env s) s.queue)
          (record { state = opened env s; still_pending = []; top_job = none }))) [
            | inl e ↦ absurd (ground arith)
            | inr (p, e) ↦ (p, e, ground arith)
          ]

  contains-queue_order :
      (x : ℕ) (s : GlobalState) (ids : List ℕ) → contains x (queue_order env s ids) ≡ contains x ids
  unfolding queue_order
  contains-queue_order x s ids = contains-sort_by x (comes_after env s) ids

  -- A job that is not queued before a pass that does not panic is not queued after it.
  pub schedule_jobs_queue :
      (s t : GlobalState) (x : ℕ)
      → contains x s.queue ≡ false
      → schedule_jobs env s ≡ some t
      → contains x t.queue ≡ false
  schedule_jobs_queue s t x h done =
      let (p, each, e) = schedule_jobs_cases s t done in
      elim (Bool-cases (contains x p.still_pending)) [
        | inr free ↦ ground arith
        | inl c ↦ absurd (
            ground (
              arith,
              schedule_each_still x (queue_order env (opened env s) s.queue)
                  (record { state = opened env s; still_pending = []; top_job = none }) p each c,
              contains-queue_order x (opened env s) s.queue,
            ))
      ]
