-- ===== src/Controller/Sessions.antt =====
-- The connection of a worker in `handle_worker` of controller/src/handlers/worker.rs: its
-- registration, its heartbeats on the leader and on a follower, and its end. The messages that a follower passes on to
-- its leader, and the copies of the state for readers without the lock, are left out.
pub mod Replaced
pub mod Idle
pub mod Books
pub mod Grace
use veloce_ce.Base.{
  ℕ, ◌+◌, ◌-◌, String, Bool, true, false, ◌&&◌, Option, none, some, List, [], ◌∷◌, ◌++◌, map, Map,
  get, get_or, insert, remove, adjust, drop, length, leb, nat_eq, string_eq, nat_beq, if◌then◌else◌,
  add64, parse_u64,
}
use veloce_ce.Types.Floats.{F64, bits, Floats, zero_float}
use veloce_ce.Types.Cluster.{Resources}
use veloce_ce.Types.Job.{JobInfo, QosLevel, preemptible, production, interactive}
use veloce_ce.Controller.Messages.{notified}
use veloce_ce.Controller.State.{
  GlobalState, WorkerHandle, SocketAddr, Channel, direct, log_effect, is_leader,
}
use veloce_ce.Controller.Rebuild.{rebuild_worker_allocations}
use veloce_ce.Controller.Reconcile.{reconcile_missing_worker_jobs}

pub record JobStats : Type 0 where
  pub job_id : ℕ
  pub cpu_usage_percent : F64
  pub memory_usage_bytes : ℕ
  pub is_idle : Bool
  pub idle_duration : ℕ
  pub cgroup_active : Bool

-- What a worker last said of a job
abbrev pub WorkerStats : Type 0
WorkerStats = F64 × ℕ × Bool

pub record Monitor : Type 0 where
  pub state : GlobalState
  pub missing_jobs : Map ℕ ℕ
  pub job_metrics_history : Map ℕ (List JobStats)
  pub job_worker_stats : Map ℕ (Map String WorkerStats)
  pub global_idle_start : Map ℕ ℕ

-- Who connects, and from where
pub record Connection : Type 0 where
  pub worker_id : String
  pub addr : SocketAddr
  pub hostname : String
  pub initial_resources : Resources
  pub features : ℕ
  pub connection_id : ℕ
  pub channel : Channel

abbrev pulse_of : Option WorkerHandle → F64
pulse_of none = bits 0x40000000  -- 2.0
pulse_of (some w) = w.current_pulse_interval

pub registered : ℕ → Connection → GlobalState → WorkerHandle
registered now c s =
    let rebuilt = rebuild_worker_allocations c.worker_id c.initial_resources s.jobs in
    record {
      addr = c.addr;
      hostname = c.hostname;
      resources = c.initial_resources;
      routing = direct c.channel;
      assigned_jobs = rebuilt.assigned_jobs;
      allocated_memory = rebuilt.allocated_memory;
      connection_id = c.connection_id;
      available_core_ids = rebuilt.available_core_ids;
      job_core_assignments = rebuilt.job_core_assignments;
      available_gres_ids = rebuilt.available_gres_ids;
      job_gres_assignments = rebuilt.job_gres_assignments;
      connected = true;
      last_seen = now;
      cgroup_enabled = c.initial_resources.cgroup_enabled;
      draining = false;
      current_pulse_interval = pulse_of (get c.worker_id s.workers);
      features = c.features;
    }

pub register : ℕ → Connection → GlobalState → GlobalState
unfolding registered
register now c s =
    log_effect notified (record s { workers = insert c.worker_id (registered now c s) s.workers })

pub disconnect : ℕ → String → ℕ → GlobalState → GlobalState
disconnect now worker_id connection_id s = elim (get worker_id s.workers) [
  | none ↦ s
  | some w ↦
      if nat_beq w.connection_id connection_id
      then record s {
        workers = adjust worker_id (λ h. record h { connected = false; last_seen = now }) s.workers;
      }
      else s
]

pub push_history : JobStats → Map ℕ (List JobStats) → Map ℕ (List JobStats)
push_history stats history =
    let q = get_or [] stats.job_id history in
    insert stats.job_id ((if leb 300 (length q) then drop 1 q else q) ++ stats ∷ []) history

pub note_worker :
    String → JobStats → Map ℕ (Map String WorkerStats) → Map ℕ (Map String WorkerStats)
note_worker worker_id stats all =
    let heard : WorkerStats = (stats.cpu_usage_percent, stats.memory_usage_bytes, stats.is_idle) in
    insert stats.job_id (insert worker_id heard (get_or [] stats.job_id all)) all

pub record Total : Type 0 where
  pub total_cpu : F64
  pub total_mem : ℕ
  pub all_idle : Bool
  pub reports_count : ℕ

-- `VELOCE_IDLE_TIMEOUT`
unfoldable pub idle_timeout : Option String → ℕ
unfolding parse_u64
idle_timeout none = 600
idle_timeout (some v) = elim (parse_u64 v) [ none ↦ 600 | some n ↦ n ]

abbrev pub above_preemptible : QosLevel → Bool
above_preemptible production = true
above_preemptible interactive = true
above_preemptible _ = false

pub degrade : ℕ → JobInfo → JobInfo
degrade timeout job =
    if job.is_idle && leb timeout job.idle_duration && above_preemptible job.qos
    then record job { spec = record job.spec { qos = preemptible } }
    else job

module _ (f : Floats) where
  pub add_report : Option WorkerStats → Total → Total
  add_report none t = record t { all_idle = false }
  add_report (some (cpu, mem, idle)) t = record {
    total_cpu = f.add t.total_cpu cpu;
    total_mem = add64 t.total_mem mem;
    all_idle = t.all_idle && idle;
    reports_count = t.reports_count + 1;
  }

  pub add_reports : Map String WorkerStats → List String → Total → Total
  unfolding add_report
  add_reports stats_map [] t = t
  add_reports stats_map (w ∷ ws) t = add_reports stats_map ws (add_report (get w stats_map) t)

  abbrev no_total : Bool → Total
  no_total idle = record {
    total_cpu = zero_float;
    total_mem = 0;
    all_idle = idle;
    reports_count = 0;
  }

  pub total_of : List String → Option (Map String WorkerStats) → Total
  total_of assigned none = no_total false
  total_of assigned (some stats_map) = add_reports stats_map assigned (no_total true)

abbrev pub globally_idle : Total → JobInfo → Bool
globally_idle t job = t.all_idle && nat_beq t.reports_count (length job.assigned_workers)

pub set_idle : ℕ → Bool → Map ℕ ℕ → JobInfo → JobInfo
set_idle now true starts job =
    if job.is_idle
    then elim (get job.id starts) [
      | none ↦ job
      | some start_time ↦ record job { idle_duration = now - start_time }
    ]
    else record job { is_idle = true; idle_duration = 0 }
set_idle now false starts job = record job { is_idle = false; idle_duration = 0 }

pub set_start : ℕ → Bool → JobInfo → Map ℕ ℕ → Map ℕ ℕ
set_start now true job starts = if job.is_idle then starts else insert job.id now starts
set_start now false job starts = remove job.id starts

pub note_job : ℕ → ℕ → JobStats → Total → Map ℕ ℕ → JobInfo → JobInfo
unfolding set_idle degrade
note_job now timeout stats t starts job = degrade timeout (
    set_idle now (globally_idle t job) starts (record job {
      current_cpu_usage = t.total_cpu;
      current_memory_usage = t.total_mem;
      cgroup_active = stats.cgroup_active;
    }))

module _ (f : Floats) (now timeout : ℕ) where
  pub note_stats : String → JobStats → Monitor → Monitor
  unfolding push_history note_worker total_of note_job set_start
  note_stats worker_id stats m =
      let heard = note_worker worker_id stats m.job_worker_stats in
      let noted = record m {
        job_metrics_history = push_history stats m.job_metrics_history;
        job_worker_stats = heard;
      } in
      elim (get stats.job_id m.state.jobs) [
        | none ↦ noted
        | some job ↦
            let t = total_of f job.assigned_workers (get stats.job_id heard) in
            record noted {
              state = record m.state {
                jobs =
                    adjust stats.job_id (note_job now timeout stats t m.global_idle_start)
                      m.state.jobs;
              };
              global_idle_start = set_start now (globally_idle t job) job m.global_idle_start;
            }
      ]

  pub note_all : String → List JobStats → Monitor → Monitor
  unfolding note_stats
  note_all worker_id [] m = m
  note_all worker_id (stats ∷ all) m = note_all worker_id all (note_stats worker_id stats m)

  -- Without a look at the connection
  pub note_seen : String → Resources → GlobalState → GlobalState
  note_seen worker_id resources s = record s {
    workers = adjust worker_id (λ w. record w { resources = resources; last_seen = now }) s.workers;
  }

  pub beat : String → Resources → List JobStats → Monitor → Monitor
  unfolding note_all note_seen
  beat worker_id resources job_stats m =
      -- as a set: it is only asked whether it contains a job
      let active = map (λ (s : JobStats). s.job_id) job_stats in
      let (missing, s) =
        reconcile_missing_worker_jobs f now worker_id active
          (m.missing_jobs, note_seen worker_id resources m.state) in
      let noted = note_all worker_id job_stats (record m { state = s; missing_jobs = missing }) in
      record noted { state = log_effect notified noted.state }

  -- On the leader only the connection that the worker has now counts.
  pub beat_on_leader : String → ℕ → Resources → List JobStats → Monitor → Monitor
  unfolding beat
  beat_on_leader worker_id connection_id resources job_stats m =
      elim (get worker_id m.state.workers) [
        | none ↦ m
        | some w ↦
            if nat_beq w.connection_id connection_id
            then beat worker_id resources job_stats m
            else m
      ]

  pub heartbeat : String → ℕ → Resources → List JobStats → Monitor → Monitor
  unfolding note_seen beat_on_leader
  heartbeat worker_id connection_id resources job_stats m =
      if is_leader m.state.role
      then beat_on_leader worker_id connection_id resources job_stats m
      else record m { state = note_seen worker_id resources m.state }
