-- ===== src/Types/Job.antt =====
-- Jobs of common/src/types/mod.rs. `JobSpec` holds the fields of `JobInfo` that are fixed when a job
-- is submitted; `JobInfo` opens it, so every field is read as in the source.
use veloce_ce.Base.{ℕ, String, Bool, true, false, Option, List, Map, ℤ}
use veloce_ce.Types.Floats.{F64}
use veloce_ce.Types.Container.{ContainerAsset}

pub data JobStatus : Type 0 where
  pending running : JobStatus
  completed : ℤ → JobStatus
  failed : String → JobStatus
  killed : JobStatus

-- `status == JobStatus::Pending`
abbrev pub is_pending : JobStatus → Bool
is_pending pending = true
is_pending _ = false

-- `status == JobStatus::Running`
abbrev pub is_running : JobStatus → Bool
is_running running = true
is_running _ = false

pub data QosLevel : Type 0 where
  background preemptible production interactive : QosLevel

abbrev pub is_preemptible : QosLevel → Bool
is_preemptible preemptible = true
is_preemptible _ = false

abbrev pub is_interactive : QosLevel → Bool
is_interactive interactive = true
is_interactive _ = false

pub record FileHandle : Type 0 where
  pub file_id : String
  pub original_name : String
  pub is_executable : Bool
  pub is_archive : Bool

pub record MpiStats : Type 0 where
  pub send_calls : ℕ
  pub send_bytes : ℕ
  pub send_time_secs : F64

pub record JobOutputArtifact : Type 0 where
  pub path : String
  pub output_type : String
  pub file_id : Option String
  pub size : Option ℕ
  pub updated_at : Option ℕ

pub record WorkerLogFiles : Type 0 where
  pub stdout_file_id : Option String
  pub stderr_file_id : Option String

pub record JobSpec : Type 0 where
  pub job_name : Option String
  pub job_comment : Option String
  pub binary : String
  pub args : List String
  pub req_nodes : ℕ
  pub req_cores : ℕ  -- u32, of each node
  pub req_memory : ℕ  -- u64, MB of each node
  pub walltime : ℕ  -- seconds, 0 is no limit
  pub priority : ℕ
  pub user_id : String
  pub working_directory : String
  pub queued_time : ℕ
  pub env_vars : List (String × String)
  pub array_id : Option ℕ
  pub array_task_id : Option ℕ
  pub inputs : List FileHandle
  pub gres_req : Map String ℕ
  pub secret : String
  pub wait_for_licenses : Bool
  pub estimated_walltime : Option ℕ
  pub priority_offset : Option ℤ
  pub dependencies : Option (List ℕ)
  pub dependency_specs : Option (List String)
  pub qos : QosLevel
  pub container_asset : Option ContainerAsset
  pub vnc_enabled : Bool
  pub inherit_host_env : Bool
  pub env_allowlist : Option (List String)
  pub job_profile : Option String

pub record JobInfo : Type 0 where
  pub id : ℕ
  pub spec : JobSpec
  pub open spec use *
  pub status : JobStatus
  pub assigned_workers : List String
  pub start_time : Option ℕ
  pub current_cpu_usage : F64
  pub current_memory_usage : ℕ
  pub is_idle : Bool
  pub idle_duration : ℕ
  pub end_time : Option ℕ
  pub reason : Option String
  pub cgroup_active : Bool
  pub allocated_cores : Map String (List ℕ)
  pub allocated_gres : Map String (Map String (List ℕ))
  pub mpi_stats : Option MpiStats
  pub stdout_file_id : Option String
  pub stderr_file_id : Option String
  pub workdir_file_id : Option String
  pub worker_log_files : Map String WorkerLogFiles
  pub output_artifacts : List JobOutputArtifact
  pub interactive_port : Option ℕ

pub record JobUsage : Type 0 where
  pub job_id : ℕ
  pub job_name : Option String
  pub job_comment : Option String
  pub command_line : String
  pub user_id : String
  pub submission_time : ℕ
  pub start_time : Option ℕ
  pub end_time : Option ℕ
  pub exit_code : Option ℤ
  pub status : JobStatus
  pub cpu_time_ms : ℕ
  pub max_memory_bytes : ℕ
  pub req_nodes : ℕ
  pub req_cores : ℕ
  pub req_memory : ℕ
  pub array_id : Option ℕ
  pub array_task_id : Option ℕ
  pub assigned_workers : List String
  pub gres_req : Map String ℕ
  pub cgroup_active : Bool
  pub secret : String
  pub stdout_file_id : Option String
  pub stderr_file_id : Option String
  pub workdir_file_id : Option String
  pub worker_log_files : Map String WorkerLogFiles
  pub output_artifacts : List JobOutputArtifact
  pub wait_for_licenses : Bool
  pub estimated_walltime : Option ℕ
  pub priority_offset : Option ℤ
  pub dependencies : Option (List ℕ)
  pub dependency_specs : Option (List String)
  pub qos : QosLevel
  pub container_asset : Option ContainerAsset
