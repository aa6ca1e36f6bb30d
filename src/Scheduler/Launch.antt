-- ===== src/Scheduler/Launch.antt =====
-- `schedule_jobs` of controller/src/scheduler/mod.rs: what happens to a job whose workers are chosen.
pub mod Runs
pub mod Books
pub mod Total
use veloce_ce.Base.{
  ℕ, zero, ◌-◌, ◌+◌, String, Bool, true, false, not, ◌&&◌, ◌||◌, Option, none, some, List, [], ◌∷◌,
  ◌++◌, Map, get, get_or, insert, adjust, string_eq, nat_eq, ◌==◌, if◌then◌else◌, ltb, length,
  format, decimal,
}
use veloce_ce.Types.Job.{JobInfo, JobSpec, running}
use veloce_ce.Controller.Messages.{Message, RunJob, run_job, written}
use veloce_ce.Controller.State.{GlobalState, WorkerHandle, show_addr, send, log_effect}
use veloce_ce.Controller.Worker.{Gres, allocate_on}
use veloce_ce.Controller.Finalize.{preempt_job}

unfoldable pub preempt_all : List ℕ → GlobalState → GlobalState
preempt_all [] s = s
preempt_all (id ∷ ids) s = preempt_all ids (preempt_job id s)

-- What the loop over the selected workers builds
pub record Allocation : Type 0 where
  pub workers : Map String WorkerHandle
  pub all_cores : Map String (List ℕ)
  pub all_gres : Map String Gres
  pub node_list_ips : List String

-- The assignments of the job are those that were just inserted.
unfoldable pub allocated : ℕ → String → WorkerHandle → Allocation → Allocation
allocated job_id id w a = record {
  workers = insert id w a.workers;
  all_cores = insert id (get_or [] job_id w.job_core_assignments) a.all_cores;
  all_gres = insert id (get_or [] job_id w.job_gres_assignments) a.all_gres;
  node_list_ips = a.node_list_ips ++ show_addr w.addr ∷ [];
}

-- `none` is a panic of `drain`; a worker that is not there is passed over.
unfoldable pub allocate_all : ℕ → JobSpec → List String → Allocation → Option Allocation
allocate_all job_id spec [] a = some a
allocate_all job_id spec (id ∷ ids) a = elim (get id a.workers) [
  | none ↦ allocate_all job_id spec ids a
  | some w ↦ elim (allocate_on job_id spec w) [
    | none ↦ none
    | some w' ↦ allocate_all job_id spec ids (allocated job_id id w' a)
  ]
]

abbrev pub is_mpi_launcher : JobInfo → Bool
is_mpi_launcher job = job.binary == "mpirun" || job.binary == "mpiexec"

unfoldable pub hostfile_path : ℕ → String
hostfile_path job_id = format ("/scratch/jobs/" ∷ decimal job_id ∷ "/hostfile" ∷ [])

unfoldable pub controller_url : ℕ → String
controller_url port = format ("https://veloce-controller-ha-1:" ∷ decimal port ∷ [])

unfoldable pub job_args : ℕ → JobInfo → List String
job_args job_id job =
    if ltb 1 job.req_nodes && is_mpi_launcher job
    then "--mca"
      ∷ "plm_rsh_agent"
      ∷ "veloce-exec"
      ∷ "--hostfile"
      ∷ hostfile_path job_id
      ∷ "--mca"
      ∷ "btl"
      ∷ "tcp,self"
      ∷ job.args
    else job.args

unfoldable pub job_env : ℕ → ℕ → JobInfo → List (String × String)
job_env api_port job_id job =
    job.env_vars
    ++ ("OMPI_ALLOW_RUN_AS_ROOT", "1")
      ∷ ("OMPI_ALLOW_RUN_AS_ROOT_CONFIRM", "1")
      ∷ (if ltb 1 job.req_nodes
          then ("OMPI_MCA_plm_rsh_agent", "veloce-exec")
            ∷ ("OMPI_MCA_ras_base_nodefile", hostfile_path job_id)
            ∷ ("VELOCE_CONTROLLER_URL", controller_url api_port)
            ∷ []
          else [])

-- One line for each worker that is there
pub hostfile_content : ℕ → ℕ → List String → Map String WorkerHandle → String
hostfile_content job_id req_cores [] ws = ""
hostfile_content job_id req_cores (id ∷ ids) ws = elim (get id ws) [
  | none ↦ hostfile_content job_id req_cores ids ws
  | some w ↦
      let slots : ℕ = elim (get job_id w.job_core_assignments) [
        | none ↦ req_cores
        | some c ↦ length c
      ] in
      format (
        w.hostname
        ∷ " slots="
        ∷ decimal slots
        ∷ "\n"
        ∷ hostfile_content job_id req_cores ids ws
        ∷ [])
]

unfoldable pub write_hostfile : ℕ → JobInfo → List String → GlobalState → GlobalState
write_hostfile job_id job selected s =
    if ltb 1 job.req_nodes
    then log_effect
        (written (hostfile_path job_id) (hostfile_content job_id job.req_cores selected s.workers))
        s
    else s

unfoldable pub run_message :
    ℕ → JobInfo → List String → Allocation → ℕ → String → WorkerHandle → GlobalState → Message
run_message job_id job selected a i id w s = run_job (record {
  job_id = job_id;
  spec = job.spec;
  args = job_args job_id job;
  node_list = a.node_list_ips;
  assigned_cores = get job_id w.job_core_assignments;
  allocated_gres = get_or [] id a.all_gres;
  controller_url = controller_url s.api_port;
  env_vars =
      job_env s.api_port job_id job
      ++ ("VELOCE_RANK", decimal i) ∷ ("VELOCE_SIZE", decimal (length selected)) ∷ [];
})

-- The workers that are sent the job: of an MPI launcher, only the first
unfoldable pub dispatched : JobInfo → List String → List String
dispatched job [] = []
dispatched job (id ∷ ids) = if is_mpi_launcher job then id ∷ [] else id ∷ ids

unfoldable pub send_runs :
    ℕ → JobInfo → List String → Allocation → ℕ → List String → GlobalState → GlobalState
send_runs job_id job selected a i [] s = s
send_runs job_id job selected a i (id ∷ ids) s = elim (get id s.workers) [
  | none ↦ send_runs job_id job selected a (i + 1) ids s
  | some w ↦
      send_runs job_id job selected a (i + 1) ids
        (send id (run_message job_id job selected a i id w s) s)
]

-- `record_dispatched_workers`
unfoldable pub record_dispatched_workers : ℕ → List String → GlobalState → GlobalState
record_dispatched_workers job_id workers s = record s {
  multinode_job_tracking = record s.multinode_job_tracking {
    dispatched_workers = insert job_id workers s.multinode_job_tracking.dispatched_workers;
  };
}

abbrev pub set_running : ℕ → List String → Allocation → JobInfo → JobInfo
set_running started selected a job = record job {
  status = running;
  assigned_workers = selected;
  allocated_cores = a.all_cores;
  allocated_gres = a.all_gres;
  start_time = some started;
  reason = none;
}

-- From the eviction to the running job; `started` is the second reading of the clock.
unfoldable pub launch : ℕ → ℕ → JobInfo → List String → List ℕ → GlobalState → Option GlobalState
launch started job_id job selected evict s =
    let s = preempt_all evict s in
    elim (allocate_all job_id job.spec selected
      (record { workers = s.workers; all_cores = []; all_gres = []; node_list_ips = [] })) [
        | none ↦ none
        | some a ↦
            let s = write_hostfile job_id job selected (record s { workers = a.workers }) in
            let s = send_runs job_id job selected a 0 (dispatched job selected) s in
            let s = record_dispatched_workers job_id (dispatched job selected) s in
            some (record s { jobs = adjust job_id (set_running started selected a) s.jobs })
      ]
