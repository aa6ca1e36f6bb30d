-- ===== src/Scheduler/Projection.antt =====
-- `calculate_earliest_start_time` of controller/src/scheduler/mod.rs: when a waiting job would fit if
-- the running jobs ended as estimated.
use veloce_ce.Base.{
  dedup, ℕ, ◌*◌, max, String, Bool, true, false, not, ◌&&◌, Option, none, some, List, [], ◌∷◌, Map,
  map, get, get_or, insert, adjust, string_eq, nat_eq, if◌then◌else◌, ltb, leb, length, add64, sort,
  values,
}
use veloce_ce.Types.Job.{JobInfo, is_running}
use veloce_ce.Types.Cluster.{Reservation}
use veloce_ce.Controller.State.{GlobalState, WorkerHandle}
use veloce_ce.Scheduler.Fits.{is_reserved, free_mb, is_open}
use veloce_ce.Scheduler.Selection.{group, first_large}

pub record ProjectedWorkerResources : Type 0 where
  pub cores_available : ℕ
  pub memory_available_mb : ℕ
  pub gres_available : Map String ℕ

-- An hour if there is no estimate and no limit
pub duration : JobInfo → ℕ
duration job = elim job.estimated_walltime [
  | some d ↦ d
  | none ↦ if ltb 0 job.walltime then job.walltime else 3600
]

pub end_time_est : ℕ → JobInfo → ℕ
end_time_est now job =
    max (add64 (elim job.start_time [ none ↦ now | some t ↦ t ]) (duration job)) (add64 now 1)

pub running_jobs : List JobInfo → List JobInfo
running_jobs [] = []
running_jobs (job ∷ jobs) =
    let rest = running_jobs jobs in if is_running job.status then job ∷ rest else rest

pub candidate_times : ℕ → List JobInfo → List ℕ
candidate_times now running = dedup (sort (now ∷ map (end_time_est now) running))

abbrev gres_lengths : Map String (List ℕ) → Map String ℕ
gres_lengths [] = []
gres_lengths ((name, ids) ∷ rest) = (name, length ids) ∷ gres_lengths rest

pub initial_projection : Map String WorkerHandle → Map String ProjectedWorkerResources
initial_projection [] = []
initial_projection ((id, w) ∷ ws) =
    let rest = initial_projection ws in
    if is_open w
    then (
      id,
      record {
        cores_available = length w.available_core_ids;
        memory_available_mb = free_mb w;
        gres_available = gres_lengths w.available_gres_ids;
      },
    )
      ∷ rest
    else rest

pub cores_freed : Option WorkerHandle → JobInfo → ℕ
cores_freed none job = job.req_cores
cores_freed (some w) job = elim (get job.id w.job_core_assignments) [
  | none ↦ job.req_cores
  | some cores ↦ length cores
]

pub gres_freed : Option WorkerHandle → JobInfo → String → ℕ → ℕ
gres_freed none job name n = n
gres_freed (some w) job name n = elim (get job.id w.job_gres_assignments) [
  | none ↦ n
  | some g ↦ elim (get name g) [ none ↦ n | some ids ↦ length ids ]
]

pub free_gres : Option WorkerHandle → JobInfo → Map String ℕ → Map String ℕ → Map String ℕ
free_gres w job [] available = available
free_gres w job ((name, n) ∷ request) available =
    free_gres w job request
      (insert name (add64 (get_or 0 name available) (gres_freed w job name n)) available)

pub free_on : Option WorkerHandle → JobInfo → ProjectedWorkerResources → ProjectedWorkerResources
free_on w job p = record {
  cores_available = add64 p.cores_available (cores_freed w job);
  memory_available_mb = add64 p.memory_available_mb job.req_memory;
  gres_available = free_gres w job job.gres_req p.gres_available;
}

pub free_job :
    Map String WorkerHandle
    → JobInfo
    → List String
    → Map String ProjectedWorkerResources
    → Map String ProjectedWorkerResources
free_job ws job [] projections = projections
free_job ws job (id ∷ ids) projections =
    free_job ws job ids (adjust id (free_on (get id ws) job) projections)

-- The workers at `t` with what the jobs that end by then give back
pub project :
    Map String WorkerHandle
    → ℕ
    → ℕ
    → List JobInfo
    → Map String ProjectedWorkerResources
    → Map String ProjectedWorkerResources
project ws now t [] projections = projections
project ws now t (job ∷ jobs) projections = project ws now t jobs (
    if leb (end_time_est now job) t
    then free_job ws job job.assigned_workers projections
    else projections)

pub enough_gres : Map String ℕ → Map String ℕ → Bool
enough_gres [] available = true
enough_gres ((name, n) ∷ request) available =
    leb n (get_or 0 name available) && enough_gres request available

pub fits_projected : ℕ → JobInfo → Map String Reservation → String → ProjectedWorkerResources → Bool
fits_projected t job reservations id p =
    not (is_reserved t job id reservations)
    && leb job.req_cores p.cores_available
    && leb job.req_memory p.memory_available_mb
    && enough_gres job.gres_req p.gres_available

pub candidate_workers :
    ℕ → JobInfo → Map String Reservation → Map String ProjectedWorkerResources → List String
candidate_workers t job reservations [] = []
candidate_workers t job reservations ((id, p) ∷ ps) =
    let rest = candidate_workers t job reservations ps in
    if fits_projected t job reservations id p then id ∷ rest else rest

pub enough_nodes : Map String WorkerHandle → ℕ → List String → Bool
enough_nodes ws n ids =
    leb n (length ids)
    && (if ltb 1 n
        then elim (first_large ws (λ (id : String). id) n (group ws (λ (id : String). id) ids [])) [
          | none ↦ false
          | some _ ↦ true
        ]
        else true)

pub fits_at : GlobalState → ℕ → List JobInfo → JobInfo → ℕ → Bool
fits_at s now running job t = enough_nodes s.workers job.req_nodes (
    candidate_workers t job s.reservations
      (project s.workers now t running (initial_projection s.workers)))

-- The first candidate time at which the job fits, or a year from now
pub first_fit : GlobalState → ℕ → List JobInfo → JobInfo → List ℕ → ℕ
first_fit s now running job [] = add64 now (365 * 24 * 3600)
first_fit s now running job (t ∷ ts) =
    let rest = first_fit s now running job ts in if fits_at s now running job t then t else rest

pub earliest_start_time : JobInfo → GlobalState → ℕ → ℕ
earliest_start_time job s now =
    let running = running_jobs (values s.jobs) in
    first_fit s now running job (candidate_times now running)
