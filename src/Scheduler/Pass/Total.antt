-- ===== src/Scheduler/Pass/Total.antt =====
-- A scheduling pass and the panics of its code (controller/src/scheduler/mod.rs).
use veloce_ce.Base.{
  ℕ, ◌<◌, String, ◌≡◌, refl, inl, inr, false, List, [], ◌∷◌, Option, none, some, Option-cases,
  arith, Map, get, adjust, adjust_inv, Distinct, string_eq, nat_eq, format, decimal,
}
use veloce_ce.Types.Job.{JobInfo, is_interactive}
use veloce_ce.Types.Cluster.{Reservation}
use veloce_ce.Controller.State.{GlobalState, WorkerHandle}
use veloce_ce.Scheduler.Projection.{earliest_start_time}
use veloce_ce.Scheduler.Selection.{select_nodes, choose, sort_available, Choice}
use veloce_ce.Scheduler.Selection.Once.{choose-once}
use veloce_ce.Scheduler.Selection.Room.{choose-HasRoom}
use veloce_ce.Scheduler.Launch.{set_running, preempt_all}
use veloce_ce.Scheduler.Launch.Runs.{launch_frame}
use veloce_ce.Scheduler.Launch.Total.{launch_total}
use veloce_ce.Scheduler.Pass.{
  Env, Pass, keep, set_reason, clear_waiting, relieved, waiting_reason, stay, place, backfill,
  schedule_pending, schedule_one, schedule_each, schedule_jobs, opened, queue_order,
}
use veloce_ce.Scheduler.Pass.Outcome.{
  place_cases, schedule_pending_cases, schedule_one_cases, choice, found,
}
use veloce_ce.Scheduler.Pass.Books.{
  PassOk, schedule_one-PassOk, clear_waiting-PassOk, opened-PassOk,
}

-- No stored job is interactive, and each asks for a node at least.
abbrev pub Calm : Map ℕ JobInfo → Type 0
Calm jobs =
    (j : ℕ) (job : JobInfo)
    → get j jobs ≡ some job
    → (is_interactive job.qos ≡ false) × (0 < job.req_nodes)

select_nodes_total :
    {A : Type 0} (ws : Map String WorkerHandle) (id_of : A → String) (n : ℕ) (xs : List A)
    → 0 < n
    → (o : Option (List A)) × (select_nodes ws id_of n xs ≡ some o)
unfolding select_nodes
select_nodes_total ws id_of n [] h = (none, ground arith)
select_nodes_total ws id_of n (x ∷ xs) h = elim (Option-cases (select_nodes ws id_of n (x ∷ xs))) [
  | inr (o, e) ↦ (o, e)
  | inl e ↦ absurd (ground arith)
]

choose_total :
    (now : ℕ) (job : JobInfo) (reservations : Map String Reservation) (jobs : Map ℕ JobInfo)
    (ws : Map String WorkerHandle) (available : List String)
    → is_interactive job.qos ≡ false
    → 0 < job.req_nodes
    → (o : Option Choice) × (choose now job reservations jobs ws available ≡ some o)
unfolding choose
choose_total now job reservations jobs ws available calm asks =
    let (o, e) = select_nodes_total ws (λ (id : String). id) job.req_nodes available asks in
    elim (Option-cases (choose now job reservations jobs ws available)) [
      | inr (c, q) ↦ (c, q)
      | inl q ↦ absurd (ground (arith, e))
    ]

Calm-adjust :
    (f : JobInfo → JobInfo)
    → ((job : JobInfo) → (f job).spec ≡ job.spec)
    → (id : ℕ) (jobs : Map ℕ JobInfo) → Calm jobs
    → Calm (adjust id f jobs)
Calm-adjust f same id jobs all =
    adjust_inv (λ j (job : JobInfo). (is_interactive job.qos ≡ false) × (0 < job.req_nodes)) id f
      jobs (λ v _ h. rw (same v) h) all

module _ (env : Env) (id : ℕ) where
  clear_waiting-Calm : (s : GlobalState) → Calm s.jobs → Calm (clear_waiting env id s).jobs
  unfolding clear_waiting
  clear_waiting-Calm s all = Calm-adjust (relieved env) (λ job. ground arith) id s.jobs all

  keep-Calm :
      (reason : String) (p : Pass) → Calm p.state.jobs → Calm (keep env reason id p).state.jobs
  unfolding keep set_reason
  keep-Calm reason p all =
      Calm-adjust (λ (job : JobInfo). record job { reason = some reason }) (λ job. refl) id
        p.state.jobs all

  stay-Calm :
      (job : JobInfo) (available fails : List String) (p : Pass)
      → Calm p.state.jobs
      → Calm (stay env id job available fails p).state.jobs
  unfolding stay
  stay-Calm job available fails p all = elim (Option-cases p.top_job) [
    | inl e ↦
        let r = waiting_reason env job available fails in
        let est = earliest_start_time job p.state env.now in
        rw (e, stay) (keep-Calm (format (r ∷ " (Earliest start: " ∷ decimal est ∷ ")" ∷ [])) p all)
    | inr (top, e) ↦ rw (e, stay) (keep-Calm (waiting_reason env job available fails) p all)
  ]

module _ (env : Env) (id : ℕ) (job : JobInfo) (calm : is_interactive job.qos ≡ false)
    (d : Distinct job.gres_req) where
  module _ (p : Pass) (ok : PassOk p.state) where
    place_total : 0 < job.req_nodes → (p' : Pass) × (place env id job p ≡ some p')
    unfolding place
    place_total asks =
        let ws = p.state.workers in
        let (o, e) =
          choose_total env.now job p.state.reservations p.state.jobs ws
            (sort_available ws (found env id job p).0) calm asks in
        go o e
      where
        go :
            (o : Option Choice)
            → choice env id job p ≡ some o
            → (p' : Pass) × (place env id job p ≡ some p')
        go none e = (
          stay env id job (sort_available p.state.workers (found env id job p).0)
              (found env id job p).1 p,
          ground (arith, e),
        )
        go (some c) e =
            let distinct = ok.books.workers_distinct in
            let (evicts, room) =
              choose-HasRoom env.now job p.state.reservations p.state.jobs p.state.workers c
                distinct calm e in
            let (t, done) =
              launch_total id job d env.started c.selected_ids p.state
                (λ x.
                  choose-once x env.now job p.state.reservations p.state.jobs p.state.workers c
                    distinct e)
                room in
            (record p { state = t }, ground (arith, e, done, evicts))

    -- After the search the other jobs are as before, and this one asks for the same.
    place-Calm : (p' : Pass) → Calm p.state.jobs → place env id job p ≡ some p' → Calm p'.state.jobs
    unfolding preempt_all
    place-Calm p' all done = elim (place_cases env id job p p' done) [
      | inl e ↦ rw e (
          stay-Calm env id job (sort_available p.state.workers (found env id job p).0)
            (found env id job p).1 p all)
      | inr (c, s, e, l, q) ↦
          let (evicts, _) =
            choose-HasRoom env.now job p.state.reservations p.state.jobs p.state.workers c
              ok.books.workers_distinct calm e in
          let (a, _, _, js) =
            launch_frame env.started id job c.selected_ids c.jobs_to_preempt p.state s l in
          rw (q, js, evicts)
            (Calm-adjust (set_running env.started c.selected_ids a) (λ v. refl) id p.state.jobs all)
    ]

module _ (env : Env) (id : ℕ) where
  schedule_one-Calm :
      (p p' : Pass)
      → PassOk p.state
      → Calm p.state.jobs
      → schedule_one env id p ≡ some p'
      → Calm p'.state.jobs
  unfolding keep set_reason clear_waiting
  schedule_one-Calm p p' ok all done = elim (schedule_one_cases env id p p' done) [
    | inl e ↦ rw e all
    | inr (job, stored, waits, e) ↦ elim (schedule_pending_cases env id job p p' e) [
      | inl (q, reason, _, inl same, r) ↦ rw r (keep-Calm env id reason q (rw same all))
      | inl (q, reason, _, inr cleared, r) ↦
          rw r (keep-Calm env id reason q (rw cleared (clear_waiting-Calm env id p.state all)))
      | inr r ↦
          place-Calm env id job (all id job stored).0 (ok.requests id job stored)
            (record p { state = clear_waiting env id p.state })
            (clear_waiting-PassOk env id p.state ok) p' (clear_waiting-Calm env id p.state all) r
    ]
  ]

  -- A turn does not panic.
  schedule_one_total :
      (p : Pass)
      → PassOk p.state
      → Calm p.state.jobs
      → (p' : Pass) × (schedule_one env id p ≡ some p')
  unfolding schedule_one schedule_pending backfill
  schedule_one_total p ok all = elim (Option-cases (get id p.state.jobs)) [
    | inl e ↦ (p, ground arith)
    | inr (job, e) ↦
        let (p', placed) =
          place_total env id job (all id job e).0 (ok.requests id job e)
            (record p { state = clear_waiting env id p.state })
            (clear_waiting-PassOk env id p.state ok) (all id job e).1 in
        elim (Option-cases (schedule_one env id p)) [
          | inr (q, done) ↦ (q, done)
          | inl panics ↦ absurd (ground (arith, placed))
        ]
  ]

module _ (env : Env) where
  schedule_each_total :
      (ids : List ℕ) (p : Pass)
      → PassOk p.state
      → Calm p.state.jobs
      → (p' : Pass) × (schedule_each env ids p ≡ some p')
  unfolding schedule_each
  schedule_each_total [] p ok all = (p, refl)
  schedule_each_total (id ∷ ids) p ok all =
      let (q, first) = schedule_one_total env id p ok all in
      let (p', rest) =
        schedule_each_total ids q (schedule_one-PassOk env id p q ok first)
          (schedule_one-Calm env id p q ok all first) in
      (p', ground (arith, first, rest))

  -- If the books are exact, every request names a resource once, no stored job is interactive, and
  -- each asks for a node at least, then a scheduling pass does not panic.
  pub schedule_jobs_total :
      (s : GlobalState)
      → PassOk s
      → Calm s.jobs
      → (t : GlobalState) × (schedule_jobs env s ≡ some t)
  unfolding schedule_jobs opened
  schedule_jobs_total s ok all =
      let (p, each) =
        schedule_each_total (queue_order env (opened env s) s.queue)
          (record { state = opened env s; still_pending = []; top_job = none })
          (opened-PassOk env s ok) all in
      (record p.state { queue = p.still_pending }, ground (arith, each))
