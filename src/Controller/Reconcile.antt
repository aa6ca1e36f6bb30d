-- ===== src/Controller/Reconcile.antt =====
-- `reconcile_missing_worker_jobs` of controller/src/state.rs: jobs that a worker should run and does
-- not report.
pub mod Reaped
use veloce_ce.Base.{
  ℕ, ◌-◌, String, Bool, true, false, not, ◌&&◌, Option, none, some, List, [], ◌∷◌, ◌++◌, Map,
  get_or, insert, remove, contains, nat_eq, string_eq, ltb, if◌then◌else◌,
}
use veloce_ce.Types.Floats.{Floats}
use veloce_ce.Types.Job.{JobInfo, failed, is_running}
use veloce_ce.Controller.State.{GlobalState}
use veloce_ce.Controller.Finalize.{finalize_job}

-- A job is given five seconds to appear.
abbrev pub is_after_spawn : ℕ → JobInfo → Bool
is_after_spawn now job = elim job.start_time [ none ↦ true | some start ↦ ltb 5 (now - start) ]

abbrev pub runs_on : String → JobInfo → Bool
runs_on worker_id job = is_running job.status && contains worker_id job.assigned_workers

-- When the jobs were first missed, and the jobs to reap, after one of the worker's jobs is looked at
pub look : ℕ → ℕ → JobInfo → List ℕ → Map ℕ ℕ × List ℕ → Map ℕ ℕ × List ℕ
look now id job active (missing, reap) =
    if contains id active
    then (remove id missing, reap)
    else if is_after_spawn now job
    then (
      insert id (get_or now id missing) missing,
      (if ltb 10 (now - get_or now id missing) then reap ++ id ∷ [] else reap),
    )
    else (missing, reap)

pub look_all : ℕ → String → Map ℕ JobInfo → List ℕ → Map ℕ ℕ × List ℕ → Map ℕ ℕ × List ℕ
look_all now worker_id [] active seen = seen
look_all now worker_id ((id, job) ∷ jobs) active seen =
    look_all now worker_id jobs active
      (if runs_on worker_id job then look now id job active seen else seen)

module _ (f : Floats) (now : ℕ) where
  pub reap_all : List ℕ → Map ℕ ℕ × GlobalState → Map ℕ ℕ × GlobalState
  reap_all [] ms = ms
  reap_all (id ∷ ids) (missing, s) =
      reap_all ids (
        remove id missing,
        (finalize_job f now id (failed "Process exited or failed to start") s).0,
      )

  pub reconcile_missing_worker_jobs :
      String → List ℕ → Map ℕ ℕ × GlobalState → Map ℕ ℕ × GlobalState
  reconcile_missing_worker_jobs worker_id active (missing, s) =
      let (missing', reap) = look_all now worker_id s.jobs active (missing, []) in
      reap_all reap (missing', s)
