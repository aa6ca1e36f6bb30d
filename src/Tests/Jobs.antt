-- ===== src/Tests/Jobs.antt =====
-- The theorems on workers, jobs, steps and dependencies at the cluster of the tests.
use mathlib.Core.Option
use veloce_ce.Base.{
  ◌⊎◌, ℕ, ◌+◌, ◌≤◌, String, ◌≡◌, ◌↔◌, refl, Option, none, some, List, [], ◌∷◌, Bool, true, get,
  nat_eq, string_eq, arith, inl, inr, beq-cases, format, decimal, range, as_u32, pos, Map, pair_eq,
  ok, err,
}
use veloce_ce.Types.Job.{JobInfo, WorkerLogFiles, completed, interactive, preemptible, killed}
use veloce_ce.Types.Step.{StepInfo}
use veloce_ce.Controller.State.{GlobalState, WorkerHandle}
use veloce_ce.Controller.Worker.{drain, allocate_name, allocate_gres, allocate_on}
use veloce_ce.Controller.Finalize.{finalize_job, finished, prune_jobs}
use veloce_ce.Controller.Finalize.Books.{StateOk, Unheld}
use veloce_ce.Controller.Finalize.Outcome.{finalize_job-StateOk}
use veloce_ce.Controller.Finalize.Pruned.{IsDue, prune_jobs-IsDue}
use veloce_ce.Controller.Timeouts.{Context, check_timeouts}
use veloce_ce.Controller.Timeouts.Effect.{check_timeouts-StateOk}
use veloce_ce.Controller.Steps.{assign_ranks, choose_steps, new_step, StepRequest}
use veloce_ce.Controller.Steps.Ranks.{all_ranks, all_ranks-dispatch}
use veloce_ce.Controller.Steps.Capacity.{Modest, cores_asked, choose_steps_fit}
use veloce_ce.Scheduler.Cycle.{has_cycle}
use veloce_ce.Scheduler.Cycle.Found.{Leads}
use veloce_ce.Scheduler.Cycle.Ends.{has_cycle_decides}
use veloce_ce.Scheduler.Dependencies.{
  dependencies_satisfied, check_each, check_parent, status_of, check,
}
use veloce_ce.Scheduler.Dependencies.Verdict.{
  Every, parent_outcome, spec_outcome, dependencies_satisfied_iff,
}
use veloce_ce.Types.Dependency.{after_ok}
use veloce_ce.Tests.Fixtures.{start, worker, first, second, spec, whole, job_of}
use veloce_ce.Tests.Books.{start-StateOk}

abbrev shared : WorkerHandle
shared = elim (allocate_on 2 (spec 1 interactive) worker) [ none ↦ worker | some w ↦ w ]

allocates : allocate_on 2 (spec 1 interactive) worker ≡ some shared
unfolding allocate_on allocate_gres allocate_name drain
allocates = refl

finalize_job-StateOk_example :
    let t = (finalize_job whole 20 1 (completed (pos 0)) start).0 in
    StateOk t
    × Unheld 1 t.workers
    × (get 1 t.jobs ≡ Option.map (finished 20 (completed (pos 0))) (get 1 start.jobs))
finalize_job-StateOk_example =
    finalize_job-StateOk whole 20 1 (completed (pos 0)) start start-StateOk

-- Job 3 ended at 100.
abbrev ended_job : JobInfo
ended_job = record (job_of 3 (spec 1 preemptible) (completed (pos 0)) [] (some 0)) {
  end_time = some 100;
}

abbrev grown : GlobalState
grown = record start { jobs = (3, ended_job) ∷ start.jobs }

prune_jobs-IsDue_example :
    (IsDue 161 60 ended_job × (get 3 (prune_jobs 161 60 grown).jobs ≡ none))
    ⊎ ((¬ IsDue 161 60 ended_job) × (get 3 (prune_jobs 161 60 grown).jobs ≡ some ended_job))
prune_jobs-IsDue_example =
    prune_jobs-IsDue 161 60 (omega arith) grown 3 ended_job refl (refl, (refl, (refl, tt))) refl

-- Job 1 is past its limit by then.
abbrev context : Context ℕ
context = record { state = start; missing_jobs = []; failed_jobs = 0; metrics_store = [] }

check_timeouts-StateOk_example : StateOk (check_timeouts whole 1000 context).state
check_timeouts-StateOk_example = check_timeouts-StateOk whole 1000 context start-StateOk

all_ranks-dispatch_example : all_ranks (assign_ranks 5 (as_u32 2) 0 0 ("n1" ∷ "n2" ∷ [])) ≡ range 5
all_ranks-dispatch_example = all_ranks-dispatch 5 ("n1" ∷ "n2" ∷ []) (omega arith) (omega arith)

abbrev request : ℕ → StepRequest
request cores = record {
  binary = "part";
  args = [];
  req_nodes = 1;
  req_cores = cores;
  ntasks = 1;
  inputs = [];
  env_vars = [];
}

abbrev two_steps : ℕ → Map (ℕ × ℕ) StepInfo
two_steps cores = ((1, 1), new_step 1 1 (request 2)) ∷ ((1, 2), new_step 1 2 (request cores)) ∷ []

modest : Modest 1 (two_steps 1)
unfolding new_step
modest i step e = elim (beq-cases 1 i) [ inl q ↦ ground arith | inr q ↦ ground arith ]

choose_steps_fit_example :
    0 + cores_asked (two_steps 1) (choose_steps 1 3 (two_steps 1) 0 (1 ∷ 2 ∷ [])) ≤ 3
choose_steps_fit_example =
    choose_steps_fit 1 3 (two_steps 1) 0 (1 ∷ 2 ∷ []) modest (omega arith) (omega arith)

abbrev files : Option String → Option String → WorkerLogFiles
files out err_ = record { stdout_file_id = out; stderr_file_id = err_ }

abbrev known : Map String WorkerLogFiles
known = ("n1", files (some "a") none) ∷ []

abbrev reported : Map String WorkerLogFiles
reported = ("n1", files none (some "b")) ∷ []

-- Two jobs that wait for each other
abbrev waits_for : ℕ → JobInfo → JobInfo
waits_for parent job = record job { spec = record job.spec { dependencies = some (parent ∷ []) } }

abbrev loop : Map ℕ JobInfo
loop = (1, waits_for 2 first) ∷ (2, waits_for 1 second) ∷ []

has_cycle_decides_example :
    (found : Bool) × (visited : List ℕ) × (has_cycle (λ s. s) loop 2 3 1 [] ≡ some (found, visited))
    × ((found ≡ true) ↔ Leads (λ s. s) loop 2 1)
has_cycle_decides_example = has_cycle_decides (λ s. s) loop 2 3 1 (omega arith)

dependencies_satisfied_iff_example :
    (dependencies_satisfied (λ s. s) loop [] (waits_for 1 second) ≡ ok true)
    ↔ (Every (parent_outcome loop [] after_ok) (1 ∷ []) × Every (spec_outcome (λ s. s) loop []) [])
dependencies_satisfied_iff_example =
    dependencies_satisfied_iff (λ s. s) loop [] (waits_for 1 second)

abbrev complaint : String
complaint = "DependencyNeverSatisfied: parent job 9 was cancelled"

complains :
    dependencies_satisfied (λ s. s) loop ((9, killed) ∷ []) (waits_for 9 second) ≡ err complaint
unfolding dependencies_satisfied check_each check_parent status_of check format decimal
complains = refl
