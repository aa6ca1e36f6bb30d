-- ===== src/Tests/Sessions.antt =====
-- The theorems on the connections of workers, at the cluster of the tests.
use veloce_ce.Base.{
  contains_key, ℕ, String, Bool, true, false, some, List, [], ◌∷◌, ◌≡◌, refl, get, nat_eq,
  string_eq, arith,
}
use mathlib.Core.Option
use veloce_ce.Types.Floats.{bits}
use veloce_ce.Types.Job.{JobInfo, running, interactive}
use veloce_ce.Controller.State.{GlobalState}
use veloce_ce.Controller.Finalize.Books.{StateOk}
use veloce_ce.Controller.Sessions.{disconnect, JobStats, Monitor, Connection, register, heartbeat}
use veloce_ce.Controller.Sessions.Replaced.{Late, beats, ends, happen_all, happen_all-register}
use veloce_ce.Controller.Sessions.Books.{heartbeat-StateOk}
use veloce_ce.Controller.Sessions.Idle.{Report, note_each}
use veloce_ce.Controller.Sessions.Idle.Busy.{note_each-Busy}
use veloce_ce.Controller.Sessions.Idle.Rests.{qos_above, note_each-all_say_idle}
use veloce_ce.Controller.Timeouts.{Context, check_timeouts}
use veloce_ce.Controller.Sessions.Grace.{check_timeouts-disconnect}
use veloce_ce.Tests.Fixtures.{start, whole, resources, worker, spec, job_of}
use veloce_ce.Tests.Books.{start-StateOk}

abbrev monitor : GlobalState → Monitor
monitor s = record {
  state = s;
  missing_jobs = [];
  job_metrics_history = [];
  job_worker_stats = [];
  global_idle_start = [];
}

abbrev stats : ℕ → Bool → JobStats
stats id idle = record {
  job_id = id;
  cpu_usage_percent = bits 1;
  memory_usage_bytes = 100;
  is_idle = idle;
  idle_duration = 0;
  cgroup_active = false;
}

heartbeat-StateOk_example :
    StateOk (heartbeat whole 20 600 "n1" 1 resources (stats 1 true ∷ []) (monitor start)).state
heartbeat-StateOk_example =
    heartbeat-StateOk whole 20 600 "n1" 1 resources (stats 1 true ∷ []) (monitor start)
      (λ w there. ground (arith, there)) start-StateOk

-- The worker connects again, as connection 7.
abbrev again : Connection
again = record {
  worker_id = "n1";
  addr = worker.addr;
  hostname = "node1";
  initial_resources = resources;
  features = 0;
  connection_id = 7;
  channel = record { closed = false };
}

abbrev late : List Late
late = beats 30 resources (stats 1 true ∷ []) ∷ ends 31 ∷ []

happen_all-register_example :
    let after = monitor (register 20 again start) in happen_all whole 600 "n1" 1 late after ≡ after
happen_all-register_example =
    happen_all-register whole 20 600 again 1 late (monitor start) refl refl

-- An interactive job on two workers
abbrev shell : JobInfo
shell = job_of 5 (spec 1 interactive) running ("n1" ∷ "n2" ∷ []) (some 0)

abbrev with_shell : Monitor
with_shell = monitor (record start { jobs = (5, shell) ∷ [] })

abbrev report : ℕ → String → Bool → Report
report now worker_id idle = record { now = now; worker = worker_id; stats = stats 5 idle }

-- The second worker is at work.
note_each-Busy_example :
    Option.map
      (λ (j : JobInfo). j.spec)
      (get 5
        (note_each whole 600
          (report 10 "n1" true ∷ report 20 "n2" false ∷ report 900 "n1" true ∷ [])
          with_shell).state.jobs)
    ≡ some shell.spec
note_each-Busy_example =
    note_each-Busy whole 600 5 "n2"
      (report 10 "n1" true ∷ report 20 "n2" false ∷ report 900 "n1" true ∷ []) with_shell shell refl
      (record { stored = refl; named = refl; busy = refl })

-- The first worker has said that the job is idle; the second says so at 20.
abbrev half_idle : Monitor
half_idle = record with_shell { job_worker_stats = (5, ("n1", (bits 1, 100, true)) ∷ []) ∷ [] }

note_each-all_say_idle_example :
    qos_above whole 600 5 (
      note_each whole 600
        (report 620 "n2" true ∷ [])
        (note_each whole 600 (report 20 "n2" true ∷ report 30 "n1" true ∷ []) half_idle))
    ≡ some false
note_each-all_say_idle_example =
    note_each-all_say_idle whole 600 (report 20 "n2" true) (report 620 "n2" true)
      (report 30 "n1" true ∷ []) half_idle shell refl refl refl refl refl refl (omega arith)

abbrev context : Context ℕ
context = record { state = start; missing_jobs = []; failed_jobs = 0; metrics_store = [] }

-- A job of the worker times out in the same check.
check_timeouts-disconnect_example :
    let ended = record context { state = disconnect 1000 "n1" 1 context.state } in
    contains_key "n1" (check_timeouts whole 1060 ended).state.workers ≡ true
check_timeouts-disconnect_example =
    check_timeouts-disconnect whole 1000 1060 "n1" 1 context worker (refl, tt) refl refl
      (omega arith)
