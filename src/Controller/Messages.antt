-- ===== src/Controller/Messages.antt =====
-- The messages of common/src/message.rs that the scheduler sends to workers, and what a handler does
-- outside its state, as a log of effects.
use veloce_ce.Base.{ℕ, String, List, Map, Option}
use veloce_ce.Types.Job.{JobSpec, JobUsage, FileHandle}

-- The fields that `RunJob` copies from the job are those of its `JobSpec`; `args` and `env_vars`
-- are the ones that the scheduler extends.
pub record RunJob : Type 0 where
  pub job_id : ℕ
  pub spec : JobSpec
  pub args : List String
  pub node_list : List String
  pub assigned_cores : Option (List ℕ)
  pub allocated_gres : Map String (List ℕ)
  pub controller_url : String
  pub env_vars : List (String × String)

pub record RunStep : Type 0 where
  pub parent_job_id : ℕ
  pub step_id : ℕ
  pub binary : String
  pub args : List String
  pub node_list : List String
  pub assigned_cores : Option (List ℕ)
  pub working_directory : String
  pub user_id : String
  pub assigned_ranks : List ℕ
  pub total_ranks : ℕ
  pub inputs : List FileHandle
  pub gres_req : Map String ℕ
  pub allocated_gres : Map String (List ℕ)
  pub secret : String
  pub controller_url : String
  pub env_vars : List (String × String)

-- `StepPMIGetResponse`
pub record PmiValue : Type 0 where
  pub step : ℕ × ℕ
  pub rank : ℕ
  pub request_id : ℕ
  pub key : String
  pub value : Option String

pub data Message : Type 0 where
  run_job : RunJob → Message
  run_step : RunStep → Message
  preempt_job : ℕ → Message
  terminate_job : ℕ → Message
  step_pmi_get_response : PmiValue → Message
  step_pmi_barrier_release : ℕ × ℕ → Message

pub data Effect : Type 0 where
  -- a message put on the channel of that worker, or on the channel of the peer that routes to it
  sent : String → Message → Effect
  forwarded : String → String → Message → Effect
  written : String → String → Effect
  notified : Effect
  recorded : JobUsage → Effect
