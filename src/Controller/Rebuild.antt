-- ===== src/Controller/Rebuild.antt =====
-- `rebuild_worker_allocations` of controller/src/state.rs: the books of a worker that registers, from
-- the stored jobs.
pub mod Free
use veloce_ce.Base.{
  ℕ, String, Bool, not, ◌&&◌, none, some, List, [], ◌∷◌, Map, get, insert, adjust, contains, adjoin,
  select, nat_eq, string_eq, if◌then◌else◌, range, as_u32, add64,
}
use veloce_ce.Types.Cluster.{Resources}
use veloce_ce.Controller.Worker.{all_gres}
use veloce_ce.Types.Job.{JobInfo, is_running}

pub record RebuiltWorkerAllocations : Type 0 where
  pub assigned_jobs : List ℕ  -- a set
  pub allocated_memory : ℕ
  pub available_core_ids : List ℕ
  pub job_core_assignments : Map ℕ (List ℕ)
  pub available_gres_ids : Map String (List ℕ)
  pub job_gres_assignments : Map ℕ (Map String (List ℕ))

-- `retain(|id| !ids.contains(id))`
pub keep_out : List ℕ → List ℕ → List ℕ
keep_out ids = select (λ i. not (contains i ids))

pub keep_out_gres : Map String (List ℕ) → Map String (List ℕ) → Map String (List ℕ)
unfolding keep_out
keep_out_gres [] available = available
keep_out_gres ((name, ids) ∷ gres) available =
    keep_out_gres gres (adjust name (keep_out ids) available)

pub take_cores : String → JobInfo → RebuiltWorkerAllocations → RebuiltWorkerAllocations
unfolding keep_out
take_cores worker_id job r = elim (get worker_id job.allocated_cores) [
  | none ↦ r
  | some cores ↦ record r {
    job_core_assignments = insert job.id cores r.job_core_assignments;
    available_core_ids = keep_out cores r.available_core_ids;
  }
]

pub take_gres : String → JobInfo → RebuiltWorkerAllocations → RebuiltWorkerAllocations
take_gres worker_id job r = elim (get worker_id job.allocated_gres) [
  | none ↦ r
  | some gres ↦ record r {
    job_gres_assignments = insert job.id gres r.job_gres_assignments;
    available_gres_ids = keep_out_gres gres r.available_gres_ids;
  }
]

abbrev pub runs_here : String → JobInfo → Bool
runs_here worker_id job = is_running job.status && contains worker_id job.assigned_workers

pub take_job : String → JobInfo → RebuiltWorkerAllocations → RebuiltWorkerAllocations
unfolding take_cores take_gres
take_job worker_id job r =
    if runs_here worker_id job
    then take_gres worker_id job (
        take_cores worker_id job (record r {
          assigned_jobs = adjoin job.id r.assigned_jobs;
          allocated_memory = add64 r.allocated_memory job.req_memory;
        }))
    else r

pub rebuild_from : String → Map ℕ JobInfo → RebuiltWorkerAllocations → RebuiltWorkerAllocations
rebuild_from worker_id [] r = r
rebuild_from worker_id ((id, job) ∷ jobs) r = rebuild_from worker_id jobs (take_job worker_id job r)

pub rebuild_worker_allocations : String → Resources → Map ℕ JobInfo → RebuiltWorkerAllocations
unfolding all_gres
rebuild_worker_allocations worker_id resources jobs = rebuild_from worker_id jobs (record {
  assigned_jobs = [];
  allocated_memory = 0;
  available_core_ids = range resources.cpu_cores;
  job_core_assignments = [];
  available_gres_ids = all_gres resources.gres;
  job_gres_assignments = [];
})
