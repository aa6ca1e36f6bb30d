-- ===== src/Tests/Fixtures.antt =====
-- The cluster of the tests.
use veloce_ce.Base.{
  ℕ, ◌+◌, ◌-◌, ◌*◌, ◌/◌, String, Bool, true, false, ltb, List, [], ◌∷◌, Option, none, some,
}
use veloce_ce.Types.Floats.{F64, bits, Floats, zero_float}
use veloce_ce.Types.Cluster.{Resources}
use veloce_ce.Types.Job.{
  JobSpec, JobInfo, JobStatus, pending, running, QosLevel, preemptible, interactive,
}
use veloce_ce.Controller.State.{direct, WorkerHandle, leader, MultinodeJobTracking, GlobalState}
use veloce_ce.Scheduler.Pass.{Env}

-- Whole numbers in the place of floats
abbrev pub whole : Floats
whole = record {
  of_nat = bits;
  add = λ a b. op (λ x y. x + y) a b;
  sub = λ a b. op (λ x y. x - y) a b;
  mul = λ a b. op (λ x y. x * y) a b;
  div = λ a b. op (λ x y. x / y) a b;
  powf = λ a b. a;
  gt = λ a b. above a b;
}
  where
    op : (ℕ → ℕ → ℕ) → F64 → F64 → F64
    op g (bits x) (bits y) = bits (g x y)

    above : F64 → F64 → Bool
    above (bits x) (bits y) = ltb y x

abbrev pub resources : Resources
resources = record {
  cpu_cores = 2;
  total_memory = 4294967296;
  free_memory = 4294967296;
  cpu_usage = zero_float;
  cpu_model = "epyc";
  arch = "x86_64";
  os_name = "linux";
  os_version = "6";
  kernel_version = "6.1";
  host_name = "node1";
  load_avg = (zero_float, zero_float, zero_float);
  disk_total = 0;
  disk_free = 0;
  uptime = 0;
  boot_time = 0;
  process_count = 0;
  swap_total = 0;
  swap_free = 0;
  version = "1";
  gres = ("gpu", 2) ∷ [];
  cgroup_enabled = false;
}

-- The worker runs job 1 on core 0 and one of its two GPUs.
abbrev pub worker : WorkerHandle
worker = record {
  addr = record { ip = "10.0.0.1"; is_ipv6 = false; port = 7000 };
  hostname = "node1";
  resources = resources;
  routing = direct (record { closed = false });
  assigned_jobs = 1 ∷ [];
  allocated_memory = 100;
  connection_id = 1;
  available_core_ids = 1 ∷ [];
  job_core_assignments = (1, 0 ∷ []) ∷ [];
  available_gres_ids = ("gpu", 1 ∷ []) ∷ [];
  job_gres_assignments = (1, ("gpu", 0 ∷ []) ∷ []) ∷ [];
  connected = true;
  last_seen = 0;
  cgroup_enabled = false;
  draining = false;
  current_pulse_interval = zero_float;
  features = 0;
}

abbrev pub spec : ℕ → QosLevel → JobSpec
spec cores qos = record {
  job_name = none;
  job_comment = none;
  binary = "solve";
  args = [];
  req_nodes = 1;
  req_cores = cores;
  req_memory = 100;
  walltime = 600;
  priority = 1;
  user_id = "ada";
  working_directory = "/work";
  queued_time = 0;
  env_vars = [];
  array_id = none;
  array_task_id = none;
  inputs = [];
  secret = "";
  gres_req = ("gpu", 1) ∷ [];
  wait_for_licenses = false;
  estimated_walltime = none;
  priority_offset = none;
  dependencies = none;
  dependency_specs = none;
  qos = qos;
  container_asset = none;
  vnc_enabled = false;
  inherit_host_env = false;
  env_allowlist = none;
  job_profile = none;
}

abbrev pub job_of : ℕ → JobSpec → JobStatus → List String → Option ℕ → JobInfo
job_of id s status workers start = record {
  id = id;
  spec = s;
  status = status;
  assigned_workers = workers;
  start_time = start;
  current_cpu_usage = zero_float;
  current_memory_usage = 0;
  is_idle = false;
  idle_duration = 0;
  end_time = none;
  reason = none;
  cgroup_active = false;
  allocated_cores = [];
  allocated_gres = [];
  mpi_stats = none;
  stdout_file_id = none;
  stderr_file_id = none;
  workdir_file_id = none;
  worker_log_files = [];
  output_artifacts = [];
  interactive_port = none;
}

abbrev pub first : JobInfo
first = job_of 1 (spec 1 preemptible) running ("n1" ∷ []) (some 0)

abbrev pub second : JobInfo
second = job_of 2 (spec 2 interactive) pending [] none

abbrev pub tracking : MultinodeJobTracking
tracking = record { dispatched_workers = []; worker_log_files = []; done_workers = [] }

-- Job 1 runs, and the other job waits as job 2.
abbrev pub cluster : JobInfo → GlobalState
cluster other = record {
  workers = ("n1", worker) ∷ [];
  jobs = (1, first) ∷ (2, other) ∷ [];
  queue = 2 ∷ [];
  next_job_id = 3;
  usage_tracker = record { usage = []; last_decay = 0 };
  steps = [];
  next_step_id = 1;
  role = leader;
  peers = [];
  multinode_job_tracking = tracking;
  api_port = 8443;
  reservations = [];
  effects = [];
}

abbrev pub start : GlobalState
start = cluster second

abbrev pub env : Env
env = record {
  floats = whole;
  now = 10;
  started = 11;
  starvation_threshold = 1800;
  boost_rate = zero_float;
  lower = λ s. s;
  db_cache = [];
}
