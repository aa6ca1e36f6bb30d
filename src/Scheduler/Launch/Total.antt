-- ===== src/Scheduler/Launch/Total.antt =====
-- The launching part of `schedule_jobs` and its panics (controller/src/scheduler/mod.rs).
use veloce_ce.Base.{
  ℕ, ◌≤◌, String, ◌≡◌, refl, ap, ◌∙◌, inl, inr, true, List, [], ◌∷◌, some, Option-cases, contains,
  count, arith, Map, get, insert, get-insert, Distinct, string_eq, nat_eq, eq_iff, contains-count,
  beq-cases,
}
use veloce_ce.Types.Job.{JobInfo}
use veloce_ce.Controller.State.{GlobalState, WorkerHandle}
use veloce_ce.Controller.Worker.Allocate.{allocate_on_total}
use veloce_ce.Scheduler.Selection.Room.{HasRoom}
use veloce_ce.Scheduler.Launch.{Allocation, allocated, allocate_all, preempt_all, launch}

module _ (job_id : ℕ) (job : JobInfo) (requests : Distinct job.gres_req) where
  -- Every worker of the list is there, and has room.
  abbrev pub AllRoom : List String → Map String WorkerHandle → Type 0
  AllRoom ids ws =
      (x : String)
      → contains x ids ≡ true
      → (w : WorkerHandle) × (get x ws ≡ some w) × HasRoom job w

  AllRoom-insert :
      (id : String) (ids : List String) (w : WorkerHandle) (ws : Map String WorkerHandle)
      → count id (id ∷ ids) ≤ 1
      → AllRoom (id ∷ ids) ws
      → AllRoom ids (insert id w ws)
  AllRoom-insert id ids w ws once room x there =
      let (v, stored, fits) = room x (ground arith) in
      elim (beq-cases id x) [
        | inl same ↦ absurd (
            ground (
              arith,
              once,
              contains-count id ids (ap (λ k. contains k ids) same ∙ there),
              eq_iff id id,
            ))
        | inr other ↦ (v, ground (arith, get-insert id x w ws, stored), fits)
      ]

  allocate_all_total :
      (ids : List String) (a : Allocation)
      → ((x : String) → count x ids ≤ 1)
      → AllRoom ids a.workers
      → (a' : Allocation) × (allocate_all job_id job.spec ids a ≡ some a')
  unfolding allocate_all allocated
  allocate_all_total [] a once room = (a, refl)
  allocate_all_total (id ∷ ids) a once room =
      let (w, stored, fits) = room id (ground (arith, eq_iff id id)) in
      let (w', taken) = allocate_on_total job_id job.spec w requests fits.cores fits.gres in
      let (a', done) =
        allocate_all_total ids (allocated job_id id w' a) (λ x. omega (arith, once x))
          (AllRoom-insert id ids w' a.workers (once id) room) in
      (a', ground (arith, stored, taken, done))

  pub launch_total :
      (started : ℕ) (ids : List String) (s : GlobalState)
      → ((x : String) → count x ids ≤ 1)
      → AllRoom ids s.workers
      → (t : GlobalState) × (launch started job_id job ids [] s ≡ some t)
  unfolding launch preempt_all
  launch_total started ids s once room =
      let (a, done) =
        allocate_all_total ids
          (record { workers = s.workers; all_cores = []; all_gres = []; node_list_ips = [] }) once
          room in
      elim (Option-cases (launch started job_id job ids [] s)) [
        | inr (t, e) ↦ (t, e)
        | inl e ↦ absurd (ground (arith, done))
      ]
