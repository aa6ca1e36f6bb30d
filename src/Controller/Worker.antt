-- ===== src/Controller/Worker.antt =====
-- What one worker's books go through: the body of the loop of `release_job_resources_internal` in
-- controller/src/scheduler/finalize.rs and the allocation in `schedule_jobs` of
-- controller/src/scheduler/mod.rs.
pub mod Owned
pub mod Release
pub mod Allocate
use veloce_ce.Base.{
  ℕ, ◌-◌, String, Bool, true, false, not, ◌&&◌, Option, none, some, List, [], ◌∷◌, ◌++◌, Map, get,
  get_or, insert, remove, contains, without, adjoin, nat_eq, string_eq, if◌then◌else◌, ltb, leb,
  length, take, drop, range, sort, is_empty, as_u32, add64,
}
use veloce_ce.Types.Job.{JobInfo, JobSpec}
use veloce_ce.Controller.State.{WorkerHandle}

-- GRES ids by name
abbrev pub Gres : Type 0
Gres = Map String (List ℕ)

-- Ids come back if they are in range and not there already.
unfoldable pub give_back : ℕ → List ℕ → List ℕ → List ℕ
give_back limit [] available = available
give_back limit (i ∷ ids) available =
    give_back limit ids
      (if ltb i limit && not (contains i available) then available ++ i ∷ [] else available)

-- The count of a resource as the source casts it.
abbrev pub gres_limit : Map String ℕ → String → ℕ
gres_limit totals name = as_u32 (get_or 0 name totals)

-- The ids of one name
unfoldable pub put_back : Map String ℕ → String → List ℕ → Gres → Gres
put_back totals name ids available =
    insert name (sort (give_back (gres_limit totals name) ids (get_or [] name available))) available

unfoldable pub give_back_gres : Map String ℕ → Gres → Gres → Gres
give_back_gres totals [] available = available
give_back_gres totals ((name, ids) ∷ rest) available =
    give_back_gres totals rest (put_back totals name ids available)

unfoldable pub all_gres : Map String ℕ → Gres
all_gres [] = []
all_gres ((name, n) ∷ totals) = (name, range (as_u32 n)) ∷ all_gres totals

unfoldable pub released_cores : String → ℕ → JobInfo → WorkerHandle → List ℕ
released_cores worker_id job_id job w = elim (get job_id w.job_core_assignments) [
  | some cores ↦ cores
  | none ↦ get_or [] worker_id job.allocated_cores
]

unfoldable pub released_gres : String → ℕ → JobInfo → WorkerHandle → Gres
released_gres worker_id job_id job w = elim (get job_id w.job_gres_assignments) [
  | some ids ↦ ids
  | none ↦ get_or [] worker_id job.allocated_gres
]

-- The last job to leave a worker resets what is available there.
unfoldable pub reset_if_idle : WorkerHandle → WorkerHandle
reset_if_idle w =
    if is_empty w.assigned_jobs
    then record w {
      available_core_ids = range w.resources.cpu_cores;
      available_gres_ids = all_gres w.resources.gres;
    }
    else w

unfoldable pub take_back : String → ℕ → JobInfo → WorkerHandle → WorkerHandle
take_back worker_id job_id job w = record w {
  assigned_jobs = without job_id w.assigned_jobs;
  job_core_assignments = remove job_id w.job_core_assignments;
  available_core_ids = sort (
      give_back w.resources.cpu_cores (released_cores worker_id job_id job w) w.available_core_ids);
  allocated_memory = w.allocated_memory - job.req_memory;
  job_gres_assignments = remove job_id w.job_gres_assignments;
  available_gres_ids =
      give_back_gres w.resources.gres (released_gres worker_id job_id job w) w.available_gres_ids;
}

-- `if worker.assigned_jobs.remove(&job_id) { … }`
unfoldable pub release_on : String → ℕ → JobInfo → WorkerHandle → WorkerHandle
release_on worker_id job_id job w =
    if contains job_id w.assigned_jobs then reset_if_idle (take_back worker_id job_id job w) else w

-- `drain(0..n)`: what is taken and what stays; it panics past the end.
unfoldable pub drain {ℓ} : {A : Type ℓ} → ℕ → List A → Option (List A × List A)
drain n xs = if leb n (length xs) then some (take n xs, drop n xs) else none

-- One name of the request: a name that the worker lacks is passed over.
unfoldable pub allocate_name : String → ℕ → Gres → Gres → Option (Gres × Gres)
unfolding drain
allocate_name name n available taken = elim (get name available) [
  | none ↦ some (available, taken)
  | some ids ↦ elim (drain n ids) [
    | none ↦ none
    | some (mine, others) ↦ some (insert name others available, insert name mine taken)
  ]
]

unfoldable pub allocate_gres : Map String ℕ → Gres → Gres → Option (Gres × Gres)
allocate_gres [] available taken = some (available, taken)
allocate_gres ((name, n) ∷ request) available taken = elim (allocate_name name n available taken) [
  | none ↦ none
  | some (available', taken') ↦ allocate_gres request available' taken'
]

-- The books of a worker that takes the job; `none` is a panic of `drain`.
unfoldable pub allocate_on : ℕ → JobSpec → WorkerHandle → Option WorkerHandle
unfolding drain
allocate_on job_id spec w = elim (drain spec.req_cores w.available_core_ids) [
  | none ↦ none
  | some (cores, others) ↦ elim (allocate_gres spec.gres_req w.available_gres_ids []) [
    | none ↦ none
    | some (available, taken) ↦ some (record w {
      assigned_jobs = adjoin job_id w.assigned_jobs;
      available_core_ids = others;
      job_core_assignments = insert job_id cores w.job_core_assignments;
      allocated_memory = add64 w.allocated_memory spec.req_memory;
      available_gres_ids = available;
      job_gres_assignments = insert job_id taken w.job_gres_assignments;
    })
  ]
]
