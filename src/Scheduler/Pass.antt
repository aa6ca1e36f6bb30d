-- ===== src/Scheduler/Pass.antt =====
-- `schedule_jobs` of controller/src/scheduler/mod.rs: one pass over the queue.
pub mod Outcome
pub mod Books
pub mod Total
use veloce_ce.Base.{
  ℕ, zero, ◌-◌, ◌+◌, String, Bool, true, false, not, ◌&&◌, ◌||◌, Option, none, some, List, [], ◌∷◌,
  ◌++◌, Map, get, get_or, insert, adjust, retain, string_eq, nat_eq, ◌==◌, if◌then◌else◌, ltb,
  length, take, add64, format, decimal, join, Result, ok, err, is_empty,
}
use veloce_ce.Types.Floats.{Floats, F64, zero_float}
use veloce_ce.Types.Cluster.{Reservation}
use veloce_ce.Types.Job.{JobInfo, JobStatus, is_pending}
use veloce_ce.Controller.State.{GlobalState, WorkerHandle}
use veloce_ce.Controller.Usage.{apply_decay, effective_priority, qos_boost}
use veloce_ce.Scheduler.Dependencies.{dependencies_satisfied}
use veloce_ce.Scheduler.Fits.{find_available}
use veloce_ce.Scheduler.Selection.{sort_by, sort_available, choose, Choice}
use veloce_ce.Scheduler.Projection.{duration, earliest_start_time}
use veloce_ce.Scheduler.Launch.{launch}

-- What the pass reads that is not state: two readings of the clock, two environment variables, the
-- arithmetic of f64, `str::to_lowercase`, and the statuses found in the accounting store.
pub record Env : Type 0 where
  pub floats : Floats
  pub now : ℕ
  pub started : ℕ
  pub starvation_threshold : ℕ
  pub boost_rate : F64
  pub lower : String → String
  pub db_cache : Map ℕ JobStatus

-- What the loop carries: the state, the jobs that stay, and the first of them with its estimate.
pub record Pass : Type 0 where
  pub state : GlobalState
  pub still_pending : List ℕ
  pub top_job : Option (ℕ × ℕ)

module _ (env : Env) where
  unfoldable pub score : GlobalState → ℕ → F64
  score s id = elim (get id s.jobs) [
    | none ↦ zero_float
    | some job ↦
        env.floats.add
          (effective_priority env.floats env.now env.starvation_threshold env.boost_rate job
            s.usage_tracker)
          (qos_boost job.qos)
  ]

  -- Higher score first, then the lower id
  abbrev pub comes_after : GlobalState → ℕ → ℕ → Bool
  comes_after s a b =
      env.floats.gt (score s b) (score s a)
      || (not (env.floats.gt (score s a) (score s b)) && ltb b a)

  unfoldable pub queue_order : GlobalState → List ℕ → List ℕ
  queue_order s = sort_by (comes_after s)

  unfoldable pub set_reason : Option String → ℕ → GlobalState → GlobalState
  set_reason reason id s = record s {
    jobs = adjust id (λ (job : JobInfo). record job { reason = reason }) s.jobs;
  }

  unfoldable pub keep : String → ℕ → Pass → Pass
  keep reason id p = record p {
    state = set_reason (some reason) id p.state;
    still_pending = p.still_pending ++ id ∷ [];
  }

  -- The dependencies are met, so the reason that said otherwise goes.
  abbrev pub relieved : JobInfo → JobInfo
  relieved job = elim job.reason [
    | none ↦ job
    | some r ↦ if r == "Waiting for dependencies" then record job { reason = none } else job
  ]

  unfoldable pub clear_waiting : ℕ → GlobalState → GlobalState
  clear_waiting id s = record s { jobs = adjust id relieved s.jobs }

  pub waiting_reason : JobInfo → List String → List String → String
  waiting_reason job available fail_reasons =
      if ltb (length available) job.req_nodes
      then format (
          "Waiting for resources (CPU/Mem/GRES). Nodes: "
          ∷ decimal (length available)
          ∷ "/"
          ∷ decimal job.req_nodes
          ∷ (if is_empty fail_reasons
              then []
              else ". Detail: " ∷ join "; " (take 3 fail_reasons) ∷ []))
      else format ("Waiting for " ∷ decimal job.req_nodes ∷ " homogeneous nodes" ∷ [])

  -- No workers: the job stays, and the first one that does gets an estimate.
  pub stay : ℕ → JobInfo → List String → List String → Pass → Pass
  stay id job available fail_reasons p =
      let r = waiting_reason job available fail_reasons in
      elim p.top_job [
        | some _ ↦ keep r id p
        | none ↦
            let est = earliest_start_time job p.state env.now in
            record (keep (format (r ∷ " (Earliest start: " ∷ decimal est ∷ ")" ∷ [])) id p) {
              top_job = some (id, est);
            }
      ]

  -- The search for workers, and what follows from it; `none` is a panic.
  unfoldable pub place : ℕ → JobInfo → Pass → Option Pass
  place id job p =
      let (found, fail_reasons) = find_available env.now job p.state.reservations p.state.workers in
      let available = sort_available p.state.workers found in
      elim (choose env.now job p.state.reservations p.state.jobs p.state.workers available) [
        | none ↦ none
        | some none ↦ some (stay id job available fail_reasons p)
        | some (some c) ↦
            elim (launch env.started id job c.selected_ids c.jobs_to_preempt p.state) [
              | none ↦ none
              | some s ↦ some (record p { state = s })
            ]
      ]

  -- A job that would run past the start of the first waiting job stays.
  unfoldable pub backfill : ℕ → JobInfo → Pass → Option Pass
  backfill id job p = elim p.top_job [
    | none ↦ place id job p
    | some (top_id, top_est) ↦
        let placed = place id job p in
        if ltb top_est (add64 env.now (duration job))
        then some (
            keep
              (format (
                "Backfill denied: would delay top job "
                ∷ decimal top_id
                ∷ " (earliest start: "
                ∷ decimal top_est
                ∷ ")"
                ∷ []))
              id p)
        else placed
  ]

  unfoldable pub schedule_pending : ℕ → JobInfo → Pass → Option Pass
  schedule_pending id job p =
      elim (dependencies_satisfied env.lower p.state.jobs env.db_cache job) [
        | ok false ↦ some (keep "Waiting for dependencies" id p)
        | err e ↦ some (keep e id p)
        | ok true ↦ backfill id job (record p { state = clear_waiting id p.state })
      ]

  unfoldable pub schedule_one : ℕ → Pass → Option Pass
  schedule_one id p = elim (get id p.state.jobs) [
    | none ↦ some p
    | some job ↦ if is_pending job.status then schedule_pending id job p else some p
  ]

  unfoldable pub schedule_each : List ℕ → Pass → Option Pass
  schedule_each [] p = some p
  schedule_each (id ∷ ids) p = elim (schedule_one id p) [
    | none ↦ none
    | some p' ↦ schedule_each ids p'
  ]

  -- The state that the loop starts from: no reservation that has ended, the usage decayed.
  unfoldable pub opened : GlobalState → GlobalState
  opened s = record s {
    reservations = retain (λ (r : Reservation). ltb env.now r.end_time) s.reservations;
    usage_tracker = apply_decay env.floats env.now s.usage_tracker;
    queue = [];
  }

  unfoldable pub schedule_jobs : GlobalState → Option GlobalState
  schedule_jobs s =
      let start = opened s in
      elim (schedule_each (queue_order start s.queue)
        (record { state = start; still_pending = []; top_job = none })) [
          | none ↦ none
          | some p ↦ some (record p.state { queue = p.still_pending })
        ]
