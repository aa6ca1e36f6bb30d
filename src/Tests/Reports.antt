-- ===== src/Tests/Reports.antt =====
-- The theorems on the reports of workers at the cluster of the tests.
use veloce_ce.Base.{
  ℕ, String, ◌≡◌, refl, not, ◌&&◌, none, [], ◌∷◌, count, get_or, nat_eq, string_eq, ltb,
  if◌then◌else◌, pos,
}
use veloce_ce.Controller.State.{GlobalState}
use veloce_ce.Controller.Worker.{gres_limit}
use veloce_ce.Controller.Finalize.Books.{StateOk}
use veloce_ce.Controller.Rebuild.{rebuild_worker_allocations}
use veloce_ce.Controller.Rebuild.Free.{has_core, has_id, some_runs, rebuild_worker_allocations_free}
use veloce_ce.Controller.Reports.{Desk, Outside, job_error, handle_report}
use veloce_ce.Controller.Reports.Handled.{KeepsBooks, handle_report-StateOk}
use veloce_ce.Controller.Reports.Last.{IsQuiet, Waiting, Closed, run_done, run_done-Closed}
use veloce_ce.Tests.Fixtures.{start, whole, resources, first}
use veloce_ce.Tests.Books.{start-StateOk}

abbrev outside : Outside
outside = record {
  floats = whole;
  now = 20;
  stdout_id = none;
  stderr_id = none;
  mpi_stats = none;
  until_copy = λ s. s;
  until_upload = λ s. s;
}

outside-KeepsBooks : KeepsBooks outside
outside-KeepsBooks = record { copy_keeps = λ s ok. ok; upload_keeps = λ s ok. ok }

outside-IsQuiet : IsQuiet outside
outside-IsQuiet = record { copy_same = λ s. refl; upload_same = λ s. refl }

abbrev desk : GlobalState → Desk
desk s = record { state = s; missing_jobs = []; completed_jobs = 0; failed_jobs = 0 }

handle_report-StateOk_example :
    StateOk (handle_report outside "n1" (job_error 1 "no disk") (desk start)).state
handle_report-StateOk_example =
    handle_report-StateOk outside "n1" (job_error 1 "no disk") (desk start) outside-KeepsBooks
      start-StateOk

-- Job 1 was dispatched to two workers.
abbrev wide : GlobalState
wide = record start {
  multinode_job_tracking = record {
    dispatched_workers = (1, "n1" ∷ "n2" ∷ []) ∷ [];
    worker_log_files = [];
    done_workers = [];
  };
}

wide-Waiting : Waiting 1 first ("n1" ∷ "n2" ∷ []) [] wide
wide-Waiting = record { stored = refl; runs = refl; dispatched = refl; reported = refl }

-- The first worker exits with 1, and the end is recorded with 0.
run_done-Closed_example :
    Closed 1
      (pos 0)
      wide
      (run_done outside 1 (("n1", pos 1) ∷ ("n2", pos 0) ∷ []) (desk wide)).state
run_done-Closed_example =
    run_done-Closed outside 1 first ("n1" ∷ "n2" ∷ []) [] "n1" (pos 1) (("n2", pos 0) ∷ [])
      (desk wide) outside-IsQuiet wide-Waiting (refl, (refl, tt)) refl

rebuild_worker_allocations_free_example :
    let r = rebuild_worker_allocations "n1" resources start.jobs in
    ((c : ℕ)
      → count c r.available_core_ids ≡ (
          if ltb c resources.cpu_cores && not (some_runs "n1" (has_core "n1" c) start.jobs)
          then 1
          else 0))
    × ((name : String) (i : ℕ)
        → count i (get_or [] name r.available_gres_ids) ≡ (
            if ltb i (gres_limit resources.gres name)
              && not (some_runs "n1" (has_id "n1" name i) start.jobs)
            then 1
            else 0))
rebuild_worker_allocations_free_example = rebuild_worker_allocations_free "n1" resources start.jobs
