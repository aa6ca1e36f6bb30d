-- ===== src/Controller/Reconcile/Reaped.antt =====
-- `reconcile_missing_worker_jobs` of controller/src/state.rs and the books of the controller.
use veloce_ce.Base.{
  ℕ, String, ◌≡◌, refl, true, false, List, [], ◌∷◌, Map, get, remove, contains, nat_eq, string_eq,
  arith, nat_beq_iff, Bool-cases, inl, inr, contains-append, get-adjust, ◌∙◌,
}
use veloce_ce.Types.Floats.{Floats}
use veloce_ce.Types.Job.{JobInfo, failed}
use veloce_ce.Controller.State.{GlobalState}
use veloce_ce.Controller.Finalize.{finalize_job, finished}
use veloce_ce.Controller.Finalize.Books.{StateOk}
use veloce_ce.Controller.Finalize.Outcome.{finalize_job-StateOk, finalize_job_frame}
use veloce_ce.Controller.Reconcile.{
  look, look_all, reap_all, reconcile_missing_worker_jobs, runs_on,
}

module _ (f : Floats) (now : ℕ) where
  reap_all-StateOk :
      (ids : List ℕ) (missing : Map ℕ ℕ) (s : GlobalState)
      → StateOk s
      → StateOk (reap_all f now ids (missing, s)).1
  unfolding reap_all
  reap_all-StateOk [] missing s ok = ok
  reap_all-StateOk (id ∷ ids) missing s ok =
      let why = failed "Process exited or failed to start" in
      reap_all-StateOk ids (remove id missing) (finalize_job f now id why s).0
        (finalize_job-StateOk f now id why s ok).0

  -- If the books are exact, they are exact after the reconciliation with what a worker reports.
  pub reconcile_missing_worker_jobs-StateOk :
      (worker_id : String) (active : List ℕ) (missing : Map ℕ ℕ) (s : GlobalState)
      → StateOk s
      → StateOk (reconcile_missing_worker_jobs f now worker_id active (missing, s)).1
  unfolding reconcile_missing_worker_jobs
  reconcile_missing_worker_jobs-StateOk worker_id active missing s ok =
      let (missing', reap) = look_all now worker_id s.jobs active (missing, []) in
      reap_all-StateOk reap missing' s ok

module _ (now : ℕ) (worker_id : String) (active : List ℕ) (j : ℕ)
    (there : contains j active ≡ true) where
  look_reported :
      (id : ℕ) (job : JobInfo) (missing : Map ℕ ℕ) (reap : List ℕ)
      → contains j reap ≡ false
      → contains j (look now id job active (missing, reap)).1 ≡ false
  unfolding look
  look_reported id job missing reap h =
      ground (arith, contains-append j reap (id ∷ []), nat_beq_iff id j)

  look_all_reported :
      (jobs : Map ℕ JobInfo) (missing : Map ℕ ℕ) (reap : List ℕ)
      → contains j reap ≡ false
      → contains j (look_all now worker_id jobs active (missing, reap)).1 ≡ false
  unfolding look_all
  look_all_reported [] missing reap h = h
  look_all_reported ((id, job) ∷ jobs) missing reap h = elim (Bool-cases (runs_on worker_id job)) [
    | inr other ↦ rw (other, look_all) (look_all_reported jobs missing reap h)
    | inl mine ↦
        let (missing', reap') = look now id job active (missing, reap) in
        rw (mine, look_all)
          (look_all_reported jobs missing' reap' (look_reported id job missing reap h))
  ]

reap_all-get :
    (f : Floats) (now : ℕ) (ids : List ℕ) (missing : Map ℕ ℕ) (s : GlobalState) (j : ℕ)
    → contains j ids ≡ false
    → get j (reap_all f now ids (missing, s)).1.jobs ≡ get j s.jobs
unfolding reap_all
reap_all-get f now [] missing s j h = refl
reap_all-get f now (id ∷ ids) missing s j h =
    let why = failed "Process exited or failed to start" in
    let t = (finalize_job f now id why s).0 in
    reap_all-get f now ids (remove id missing) t j (ground arith)
    ∙ ground (arith, finalize_job_frame f now id why s, get-adjust id j (finished now why) s.jobs)

-- A job that the worker reports is left as it is.
pub reconcile_missing_worker_jobs_reported :
    (f : Floats) (now : ℕ) (worker_id : String) (active : List ℕ) (missing : Map ℕ ℕ)
    (s : GlobalState) (j : ℕ)
    → contains j active ≡ true
    → get j (reconcile_missing_worker_jobs f now worker_id active (missing, s)).1.jobs
      ≡ get j s.jobs
unfolding reconcile_missing_worker_jobs
reconcile_missing_worker_jobs_reported f now worker_id active missing s j there =
    let (missing', reap) = look_all now worker_id s.jobs active (missing, []) in
    reap_all-get f now reap missing' s j
      (look_all_reported now worker_id active j there s.jobs missing [] refl)
