-- ===== src/Tests/Passes.antt =====
-- Scheduling passes at the cluster of the tests: the interactive job evicts the one that runs.
use veloce_ce.Base.{
  arith, ◌<◌, ◌≡◌, refl, none, some, [], ◌∷◌, false, contains, get, count, ◌≤◌, nat_eq, string_eq,
  sort, decimal, format, as_u32, add64,
}
use veloce_ce.Controller.State.{GlobalState, send_to_worker, show_addr}
use veloce_ce.Types.Job.{JobInfo, pending, running, production, is_interactive}
use veloce_ce.Controller.Usage.{apply_decay, effective_priority, qos_boost}
use veloce_ce.Controller.Worker.{
  give_back, put_back, give_back_gres, all_gres, released_cores, released_gres, reset_if_idle,
  take_back, release_on, drain, allocate_name, allocate_gres, allocate_on,
}
use veloce_ce.Controller.Finalize.{
  release_workers, release_job_resources, preempt_running, preempt_job,
}
use veloce_ce.Scheduler.Dependencies.{dependencies_satisfied, check_each}
use veloce_ce.Scheduler.Fits.{
  reserved_walltime, blocks, any_blocks, is_reserved, free_mb, gres_reasons, worker_fail_reasons,
  find_available,
}
use veloce_ce.Scheduler.Selection.{
  sort_by, sort_available, group, first_large, select_nodes, tally_gres, add_evictable, evictable,
  gres_within, fits_with_eviction, preempt_candidates, adjoin_all, all_evicted, choose_preempting,
  choose, Choice,
}
use veloce_ce.Scheduler.Launch.{
  preempt_all, allocated, allocate_all, hostfile_path, controller_url, job_args, job_env,
  write_hostfile, run_message, dispatched, send_runs, record_dispatched_workers, launch,
}
use veloce_ce.Scheduler.Pass.{
  score, queue_order, set_reason, keep, clear_waiting, place, backfill, schedule_pending,
  schedule_one, schedule_each, opened, schedule_jobs, Pass,
}
use veloce_ce.Scheduler.Pass.Outcome.{schedule_jobs_queue, Outcome, schedule_one-Outcome}
use veloce_ce.Scheduler.Launch.Runs.{launch_runs}
use veloce_ce.Scheduler.Selection.Once.{choose-once}
use veloce_ce.Scheduler.Pass.Books.{PassOk, schedule_jobs-PassOk}
use veloce_ce.Scheduler.Pass.Total.{schedule_jobs_total}
use veloce_ce.Tests.Fixtures.{env, start, cluster, first, second, spec, job_of}
use veloce_ce.Tests.Books.{start-PassOk, start-StateOk, cluster-PassOk, both}

abbrev after : GlobalState
after = elim (schedule_jobs env start) [ none ↦ start | some t ↦ t ]

abbrev turn : Pass
turn = record { state = start; still_pending = []; top_job = none }

abbrev turned : Pass
turned = elim (schedule_one env 2 turn) [ none ↦ turn | some p ↦ p ]

-- The job is launched on the worker, and job 1 evicted.
abbrev launched : GlobalState
launched = elim (launch 11 2 second ("n1" ∷ []) (1 ∷ []) start) [ none ↦ start | some t ↦ t ]

abbrev chosen : Choice
chosen = record { selected_ids = "n1" ∷ []; jobs_to_preempt = 1 ∷ [] }

-- What the definitions compute here
record Runs : Type 0 where
  ends : schedule_jobs env start ≡ some after
  turns : schedule_one env 2 turn ≡ some turned
  launches : launch 11 2 second ("n1" ∷ []) (1 ∷ []) start ≡ some launched
  chooses :
      choose 10 second [] start.jobs start.workers
        (sort_available start.workers (find_available 10 second [] start.workers).0)
      ≡ some (some chosen)
  -- the evicted job waits, and stands in no queue
  evicted :
      (get 1 after.jobs
        ≡ some (record first {
          status = pending;
          assigned_workers = [];
          start_time = none;
          reason = some "Preempted by higher priority job";
        }))
      × (after.queue ≡ [])

runs : Runs
unfolding apply_decay effective_priority qos_boost decimal format as_u32 add64 sort send_to_worker
    show_addr give_back put_back give_back_gres all_gres released_cores released_gres reset_if_idle
    take_back release_on drain allocate_name allocate_gres allocate_on release_workers
    release_job_resources preempt_running preempt_job dependencies_satisfied check_each
    reserved_walltime blocks any_blocks is_reserved free_mb gres_reasons worker_fail_reasons
    find_available sort_by sort_available group first_large select_nodes tally_gres add_evictable
    evictable gres_within fits_with_eviction preempt_candidates adjoin_all all_evicted
    choose_preempting choose preempt_all allocated allocate_all hostfile_path controller_url
    job_args job_env write_hostfile run_message dispatched send_runs record_dispatched_workers
    launch score queue_order set_reason keep clear_waiting place backfill schedule_pending
    schedule_one schedule_each opened schedule_jobs
runs = record { ends = refl; turns = refl; launches = refl; chooses = refl; evicted = (refl, refl) }

schedule_jobs-PassOk_example : PassOk after
schedule_jobs-PassOk_example = schedule_jobs-PassOk env start after start-PassOk runs.ends

schedule_jobs_queue_example : contains 1 after.queue ≡ false
schedule_jobs_queue_example = schedule_jobs_queue env start after 1 refl runs.ends

schedule_one-Outcome_example : Outcome 2 turn turned
schedule_one-Outcome_example = schedule_one-Outcome env 2 turn turned second refl refl runs.turns

launch_runs_example :
    (job : JobInfo) × (get 2 launched.jobs ≡ some job)
    × (job.status ≡ running)
    × (job.assigned_workers ≡ "n1" ∷ [])
    × (job.reason ≡ none)
launch_runs_example = launch_runs 11 2 second ("n1" ∷ []) (1 ∷ []) start launched refl runs.launches

choose-once_example : count "n1" chosen.selected_ids ≤ 1
choose-once_example =
    choose-once "n1" 10 second [] start.jobs start.workers chosen start-StateOk.workers_distinct
      runs.chooses

-- A job that fits beside the first
abbrev third : JobInfo
third = job_of 2 (spec 1 production) pending [] none

schedule_jobs_total_example : (t : GlobalState) × (schedule_jobs env (cluster third) ≡ some t)
schedule_jobs_total_example =
    schedule_jobs_total env (cluster third) (cluster-PassOk third (refl, tt)) (
      both third (λ job. (is_interactive job.qos ≡ false) × (0 < job.req_nodes)) (refl, omega arith)
        (refl, omega arith))
