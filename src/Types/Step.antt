-- ===== src/Types/Step.antt =====
-- Steps of common/src/types/mod.rs: the parts of a running job.
use veloce_ce.Base.{ℕ, String, Bool, true, false, List, ℤ}
use veloce_ce.Types.Job.{FileHandle}

pub data StepStatus : Type 0 where
  pending running : StepStatus
  completed : ℤ → StepStatus
  failed : String → StepStatus
  killed : StepStatus

abbrev pub step_is_pending : StepStatus → Bool
step_is_pending pending = true
step_is_pending _ = false

abbrev pub step_is_running : StepStatus → Bool
step_is_running running = true
step_is_running _ = false

pub record StepInfo : Type 0 where
  pub step_id : ℕ
  pub parent_job_id : ℕ
  pub binary : String
  pub args : List String
  pub status : StepStatus
  pub req_nodes : ℕ
  pub req_cores : ℕ
  pub ntasks : ℕ
  pub assigned_workers : List String
  pub is_idle : Bool
  pub idle_duration : ℕ
  pub inputs : List FileHandle
  pub env_vars : List (String × String)
