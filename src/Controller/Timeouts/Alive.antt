-- ===== src/Controller/Timeouts/Alive.antt =====
-- The workers that `check_timeouts` of controller/src/scheduler/finalize.rs keeps.
use veloce_ce.Base.{
  ℕ, String, false, not, ◌||◌, none, List, [], ◌∷◌, Map, get, adjust, get-remove, contains,
  Distinct-remove, nat_eq, string_eq, eq_iff, ◌==◌, is_empty, Bool-cases, inl, inr, ◌≡◌, refl, sym,
  ap, subst, ◌∙◌, arith,
}
use veloce_ce.Types.Floats.{Floats}
use veloce_ce.Types.Job.{failed}
use veloce_ce.Controller.State.{WorkerHandle, ControllerRole, leader, follower}
use veloce_ce.Controller.Finalize.Alive.{here, Alive, close_job-Alive}
use veloce_ce.Controller.Timeouts.{
  Context, timed_out_jobs, dead_workers, terminate_head, no_usage, fail_and_drop, fail_job,
  time_out, fail_on_worker, bury, bury_all, notify, check_all, check_timeouts,
}
use veloce_ce.Controller.Timeouts.Effect.{terminate_head_frame}

dead_workers-missing :
    (now : ℕ) (id : String) (ws : Map String WorkerHandle)
    → get id ws ≡ none
    → contains id (dead_workers now ws) ≡ false
unfolding dead_workers
dead_workers-missing now id [] h = refl
dead_workers-missing now id ((k, w) ∷ ws) h = ground (arith, h, dead_workers-missing now id ws)

dead_workers-Alive :
    (now : ℕ) (id : String) (ws : Map String WorkerHandle)
    → Alive now id ws
    → contains id (dead_workers now ws) ≡ false
unfolding dead_workers
dead_workers-Alive now id [] (once, alive) = refl
dead_workers-Alive now id ((k, w) ∷ ws) ((first, once), alive) = elim (Bool-cases (k == id)) [
  | inl e ↦
      let same : k ≡ id = (eq_iff k id).0 e in
      let rest = dead_workers-missing now id ws (subst (λ i. get i ws ≡ none) same first) in
      ground (arith, e, alive, rest)
  | inr e ↦ ground (arith, e, alive, dead_workers-Alive now id ws (once, ground (arith, e, alive)))
]

module _ {Metrics : Type 0} (f : Floats) (now : ℕ) (id : String) where
  time_out-Alive :
      (late : List ℕ) (c : Context Metrics)
      → Alive now id c.state.workers
      → Alive now id (time_out f now late c).state.workers
  unfolding time_out fail_job fail_and_drop
  time_out-Alive [] c alive = alive
  time_out-Alive (j ∷ late) c alive =
      let s = terminate_head j c.state in
      time_out-Alive late (fail_job f now j "Timeout" (record c { state = s })) (
        close_job-Alive f now j (failed "Timeout") s id
          (subst (Alive now id) (sym (terminate_head_frame j c.state).0) alive))

  fail_on_worker-Alive :
      (js : List ℕ) (c : Context Metrics)
      → Alive now id c.state.workers
      → Alive now id (fail_on_worker f now js c).state.workers
  unfolding fail_on_worker fail_job fail_and_drop
  fail_on_worker-Alive [] c alive = alive
  fail_on_worker-Alive (j ∷ js) c alive =
      let s = record c.state { jobs = adjust j no_usage c.state.jobs } in
      fail_on_worker-Alive js (fail_job f now j "Worker timeout" (record c { state = s }))
        (close_job-Alive f now j (failed "Worker timeout") s id alive)

  bury_all-Alive :
      (dead : List String) (c : Context Metrics)
      → contains id dead ≡ false
      → Alive now id c.state.workers
      → Alive now id (bury_all f now dead c).state.workers
  unfolding bury_all bury
  bury_all-Alive [] c other alive = alive
  bury_all-Alive (k ∷ dead) c other (once, alive) =
      bury_all-Alive dead (bury f now k c) (ground (arith, other)) (
        fail_on_worker-Alive _ _ (
          Distinct-remove k c.state.workers once,
          ap (here now) (get-remove k id c.state.workers) ∙ ground (arith, other, alive),
        ))

  -- If every worker is stored once, then a worker that is connected, or was seen in the last minute, is
  -- so after a check of timeouts, whatever jobs and other workers the check gives up.
  pub check_timeouts-Alive :
      (c : Context Metrics)
      → Alive now id c.state.workers
      → Alive now id (check_timeouts f now c).state.workers
  unfolding check_timeouts check_all notify
  check_timeouts-Alive c alive = go c.state.role refl
    where
      go :
          (role : ControllerRole)
          → c.state.role ≡ role
          → Alive now id (check_timeouts f now c).state.workers
      go follower e = rw (e, check_timeouts) alive
      go leader e =
          let late = timed_out_jobs now c.state.jobs in
          let d = time_out f now late c in
          let timed = time_out-Alive late c alive in
          let dead = dead_workers now d.state.workers in
          let buried =
            bury_all-Alive dead d (dead_workers-Alive now id d.state.workers timed) timed in
          rw (e, check_timeouts, check_all)
            (elim (Bool-cases (not (is_empty late) || not (is_empty dead))) [
              | inl q ↦ rw (q, notify) buried
              | inr q ↦ rw (q, notify) buried
            ])
