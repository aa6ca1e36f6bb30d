-- ===== src/Scheduler/Selection/Room.antt =====
-- Room on the workers that `schedule_jobs` chooses (controller/src/scheduler/mod.rs).
use native.Mathlib.Nat.{mod-le}
use veloce_ce.Base.{
  ℕ, ◌^◌, ◌≤◌, String, ◌≡◌, refl, ap, ◌∙◌, inl, inr, true, false, List, [], ◌∷◌, some, Bool-cases,
  contains, count, arith, Map, get, Distinct, string_eq, nat_eq, length, ltb, eq_iff, as_u32,
  contains-count, not-contains-count,
}
use veloce_ce.Types.Job.{JobInfo, is_interactive}
use veloce_ce.Types.Cluster.{Reservation}
use veloce_ce.Controller.State.{WorkerHandle}
use veloce_ce.Controller.Worker.Allocate.{Enough}
use veloce_ce.Scheduler.Fits.{find_available, worker_fail_reasons, gres_reasons}
use veloce_ce.Scheduler.Selection.{sort_available, choose, Choice, cores_at}
use veloce_ce.Scheduler.Selection.Once.{select_nodes-times, choose_cases, map-same}
use veloce_ce.Scheduler.Selection.Sorting.{contains-sort_by}

-- The worker has the cores and the resource ids that the job asks of each node.
pub record HasRoom (job : JobInfo) (w : WorkerHandle) : Type 0 where
  pub cores : job.req_cores ≤ length w.available_core_ids
  pub gres : Enough job.gres_req w.available_gres_ids

gres_reasons-Enough :
    (request : Map String ℕ) (available : Map String (List ℕ))
    → gres_reasons request available ≡ []
    → Enough request available
unfolding gres_reasons
gres_reasons-Enough [] available h = tt
gres_reasons-Enough ((name, n) ∷ request) available h =
    ground (arith, gres_reasons-Enough request available)

module _ (now : ℕ) (job : JobInfo) (reservations : Map String Reservation) where
  no_reason-HasRoom :
      (id : String) (w : WorkerHandle)
      → worker_fail_reasons now job reservations id w ≡ []
      → HasRoom job w
  unfolding worker_fail_reasons as_u32
  no_reason-HasRoom id w h = record {
    cores = ground (arith, mod-le (length w.available_core_ids) (2 ^ 32));
    gres = gres_reasons-Enough job.gres_req w.available_gres_ids (ground arith);
  }

  -- A worker that is found to have room is stored, and has it.
  find_available-HasRoom :
      (x : String) (ws : Map String WorkerHandle)
      → Distinct ws
      → contains x (find_available now job reservations ws).0 ≡ true
      → (w : WorkerHandle) × (get x ws ≡ some w) × HasRoom job w
  unfolding find_available
  find_available-HasRoom x [] d h = absurd (ground arith)
  find_available-HasRoom x ((id, w) ∷ ws) d h =
      elim (Bool-cases (contains x (find_available now job reservations ws).0)) [
        | inl later ↦
            let (v, stored, room) = find_available-HasRoom x ws d.1 later in
            (v, ground (arith, eq_iff id x, stored, d.0), room)
        | inr new ↦
            let (same, none_failed) =
              head (worker_fail_reasons now job reservations id w) refl new h in
            (w, ground (arith, eq_iff id x), no_reason-HasRoom id w none_failed)
      ]
    where
      head :
          (rs : List String)
          → worker_fail_reasons now job reservations id w ≡ rs
          → contains x (find_available now job reservations ws).0 ≡ false
          → contains x (find_available now job reservations ((id, w) ∷ ws)).0 ≡ true
          → (id ≡ x) × (worker_fail_reasons now job reservations id w ≡ [])
      head [] q new c = (ground (arith, eq_iff id x), q)
      head (r ∷ rs) q new c = absurd (ground arith)

  -- Every worker of a choice that evicts nothing has room.
  pub choose-HasRoom :
      (jobs : Map ℕ JobInfo) (ws : Map String WorkerHandle) (c : Choice)
      → Distinct ws
      → is_interactive job.qos ≡ false
      → choose now job reservations jobs ws
          (sort_available ws (find_available now job reservations ws).0)
        ≡ some (some c)
      → (c.jobs_to_preempt ≡ [])
        × ((x : String)
            → contains x c.selected_ids ≡ true
            → (w : WorkerHandle) × (get x ws ≡ some w) × HasRoom job w)
  unfolding sort_available
  choose-HasRoom jobs ws c d calm h =
      let found = (find_available now job reservations ws).0 in
      elim (choose_cases now job reservations jobs ws (sort_available ws found) c h) [
        | inr (eager, _) ↦ absurd (ground arith)
        | inl (e, evicts) ↦ (
          evicts,
          λ x there.
              let gt = λ (a : String) (b : String). ltb (cores_at ws a) (cores_at ws b) in
              let less =
                select_nodes-times ws (λ (id : String). id) x job.req_nodes
                  (sort_available ws found) c.selected_ids e in
              let some_selected = contains-count x c.selected_ids there in
              elim (Bool-cases (contains x found)) [
                | inl q ↦ find_available-HasRoom x ws d q
                | inr q ↦
                    let absent =
                      not-contains-count x (sort_available ws found)
                        (contains-sort_by x gt found ∙ q) in
                    absurd (
                      omega (
                        arith,
                        less,
                        some_selected,
                        absent,
                        ap (count x) (map-same c.selected_ids),
                        ap (count x) (map-same (sort_available ws found)),
                      ))
              ],
        )
      ]
