-- ===== src/Controller/Steps.antt =====
-- controller/src/scheduler/steps.rs: steps of running jobs, their scheduling and their dispatch.
pub mod Ranks
pub mod Capacity
use veloce_ce.Base.{
  ℕ, zero, suc, ◌+◌, ◌-◌, ◌*◌, ◌/◌, ◌%◌, ◌<◌, String, Bool, true, false, not, ◌&&◌, Option, none,
  some, List, [], ◌∷◌, ◌++◌, Map, get, insert, adjust, contains, nat_eq, pair_eq, string_eq,
  nat_beq, ltb, leb, if◌then◌else◌, take, length, range_from, sort, is_empty, format, decimal,
  Result, ok, err, add32, as_u32,
}
use veloce_ce.Types.Job.{JobInfo, FileHandle, is_running}
use veloce_ce.Types.Step.{StepInfo, StepStatus, pending, running, step_is_pending, step_is_running}
use veloce_ce.Controller.Messages.{RunStep, run_step, notified}
use veloce_ce.Controller.State.{GlobalState, WorkerHandle, send, log_effect}

-- The arguments of `submit_step` that are stored; its GRES request is not used.
pub record StepRequest : Type 0 where
  pub binary : String
  pub args : List String
  pub req_nodes : ℕ
  pub req_cores : ℕ
  pub ntasks : ℕ
  pub inputs : List FileHandle
  pub env_vars : List (String × String)

unfoldable pub new_step : ℕ → ℕ → StepRequest → StepInfo
new_step parent_job_id step_id r = record {
  step_id = step_id;
  parent_job_id = parent_job_id;
  binary = r.binary;
  args = r.args;
  status = pending;
  req_nodes = r.req_nodes;
  req_cores = r.req_cores;
  ntasks = r.ntasks;
  assigned_workers = [];
  is_idle = false;
  idle_duration = 0;
  inputs = r.inputs;
  env_vars = r.env_vars;
}

-- `next_step_id` is a u32.
accept_step : ℕ → StepRequest → GlobalState → GlobalState
accept_step parent_job_id r s = log_effect notified (record s {
  next_step_id = add32 s.next_step_id 1;
  steps = insert (parent_job_id, s.next_step_id) (new_step parent_job_id s.next_step_id r) s.steps;
})

pub submit_step : ℕ → StepRequest → GlobalState → GlobalState × Result String ℕ
unfolding accept_step
submit_step parent_job_id r s = elim (get parent_job_id s.jobs) [
  | none ↦ (s, err "Parent job not found")
  | some job ↦
      if not (is_running job.status)
      then (s, err "Parent job is not running")
      else if is_empty job.assigned_workers
      then (s, err "Parent job has no assigned workers")
      else (accept_step parent_job_id r s, ok s.next_step_id)
]

-- The pending steps of a job, as the map iterates
pub pending_ids : ℕ → Map (ℕ × ℕ) StepInfo → List ℕ
pending_ids job_id [] = []
pending_ids job_id (((j, i), step) ∷ m) =
    let rest = pending_ids job_id m in
    if nat_beq j job_id && step_is_pending step.status then i ∷ rest else rest

-- The jobs that have pending steps, each once, in the order of the map
pub pending_jobs : Map (ℕ × ℕ) StepInfo → List ℕ
pending_jobs [] = []
pending_jobs (((j, i), step) ∷ m) =
    let rest = pending_jobs m in
    if step_is_pending step.status && not (contains j rest) then j ∷ rest else rest

-- The cores of the job's running steps; the sum is a u32.
pub cores_in_use : ℕ → Map (ℕ × ℕ) StepInfo → ℕ
cores_in_use job_id [] = 0
cores_in_use job_id (((j, i), step) ∷ m) =
    let rest = cores_in_use job_id m in
    if nat_beq j job_id && step_is_running step.status then add32 step.req_cores rest else rest

-- Steps in the order of submission, each if its cores fit beside those already chosen.
pub choose_steps : ℕ → ℕ → Map (ℕ × ℕ) StepInfo → ℕ → List ℕ → List (ℕ × ℕ)
choose_steps job_id cap steps used [] = []
choose_steps job_id cap steps used (i ∷ ids) = elim (get (job_id, i) steps) [
  | none ↦ choose_steps job_id cap steps used ids
  | some step ↦ elim (leb (add32 used step.req_cores) cap) [
    | true ↦ (job_id, i) ∷ choose_steps job_id cap steps (add32 used step.req_cores) ids
    | false ↦ choose_steps job_id cap steps used ids
  ]
]

pub choose_for_job : GlobalState → ℕ → List (ℕ × ℕ)
choose_for_job s job_id = elim (get job_id s.jobs) [
  | none ↦ []
  | some job ↦
      if is_running job.status
      then choose_steps job_id job.req_cores s.steps (cores_in_use job_id s.steps)
          (sort (pending_ids job_id s.steps))
      else []
]

pub to_dispatch : GlobalState → List ℕ → List (ℕ × ℕ)
to_dispatch s [] = []
to_dispatch s (j ∷ jobs) = choose_for_job s j ++ to_dispatch s jobs

-- Addresses of the workers that are there
pub node_ips : List String → Map String WorkerHandle → List String
node_ips [] ws = []
node_ips (id ∷ ids) ws = elim (get id ws) [
  | none ↦ node_ips ids ws
  | some w ↦ w.addr.ip ∷ node_ips ids ws
]

-- How many ranks the worker at place `i` of `n` is given
pub ranks_to_assign : ℕ → ℕ → ℕ → ℕ
ranks_to_assign ntasks n i = ntasks / n + (if ltb (as_u32 i) (ntasks % n) then 1 else 0)

-- The ranks of each worker in turn: `current` is the next rank, `i` the worker's place.
pub assign_ranks : ℕ → ℕ → ℕ → ℕ → List String → List (String × List ℕ)
assign_ranks ntasks n i current [] = []
assign_ranks ntasks n i current (id ∷ ids) =
    (id, range_from current (ranks_to_assign ntasks n i))
    ∷ assign_ranks ntasks n (i + 1) (current + ranks_to_assign ntasks n i) ids

-- One message to each worker that is there
send_ranks : (List ℕ → RunStep) → List (String × List ℕ) → GlobalState → GlobalState
send_ranks msg [] s = s
send_ranks msg ((id, ranks) ∷ rest) s = elim (get id s.workers) [
  | none ↦ send_ranks msg rest s
  | some w ↦ send_ranks msg rest (send id (run_step (msg ranks)) s)
]

pub step_workers : JobInfo → StepInfo → List String
step_workers job step = take step.req_nodes job.assigned_workers

abbrev started : List String → StepInfo → StepInfo
started workers step = record step { assigned_workers = workers; status = running }

pub dispatch_found : ℕ → ℕ → JobInfo → StepInfo → GlobalState → GlobalState
unfolding send_ranks step_workers
dispatch_found parent_job_id step_id job step s =
    let workers = step_workers job step in
    let msg : List ℕ → RunStep = λ ranks. record {
      parent_job_id = parent_job_id;
      step_id = step_id;
      binary = step.binary;
      args = step.args;
      node_list = node_ips workers s.workers;
      assigned_cores = none;
      working_directory = job.working_directory;
      user_id = job.user_id;
      assigned_ranks = ranks;
      total_ranks = step.ntasks;
      inputs = step.inputs;
      gres_req = [];
      allocated_gres = [];
      secret = job.secret;
      controller_url = format ("https://localhost:" ∷ decimal s.api_port ∷ []);
      env_vars = step.env_vars;
    } in
    send_ranks msg (assign_ranks step.ntasks (as_u32 (length workers)) 0 0 workers)
      (record s { steps = adjust (parent_job_id, step_id) (started workers) s.steps })

-- `perform_step_dispatch`
pub dispatch_step : ℕ → ℕ → GlobalState → GlobalState × Result String (Unit {0})
dispatch_step parent_job_id step_id s = elim (get parent_job_id s.jobs) [
  | none ↦ (s, err "Parent job not found")
  | some job ↦ elim (get (parent_job_id, step_id) s.steps) [
    | none ↦ (s, err "Step not found")
    | some step ↦ (dispatch_found parent_job_id step_id job step s, ok tt)
  ]
]

pub dispatch_all : List (ℕ × ℕ) → GlobalState → GlobalState
dispatch_all [] s = s
dispatch_all ((j, i) ∷ rest) s = dispatch_all rest (dispatch_step j i s).0

pub schedule_steps : GlobalState → GlobalState
schedule_steps s = dispatch_all (to_dispatch s (pending_jobs s.steps)) s
