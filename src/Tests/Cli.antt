-- ===== src/Tests/Cli.antt =====
-- What the command line sends for `--dependency` and `--array`.
use veloce_ce.Base.{◌≡◌, ◌≢◌, refl, [], ◌∷◌, some, true, ok, Map, ℕ, pos, split, trim, parse_u64}
use veloce_ce.Types.Job.{JobInfo, JobStatus, completed}
use veloce_ce.Types.Dependency.{DependencySpec, after_ok, after_not_ok, after_any, parse}
use veloce_ce.Scheduler.Dependencies.{
  dependencies_satisfied, check_each, check_parent, check_spec, status_of, check,
}
use veloce_ce.Scheduler.Dependencies.Verdict.{parent_outcome}
use veloce_ce.Cli.Dependencies.{read_dependency, read_parts, unless_empty}
use veloce_ce.Cli.Dependencies.Success.{dependencies_satisfied-read_dependency}
use veloce_ce.Cli.ArrayRange.{parse_array_range}
use veloce_ce.Cli.ArrayRange.Answer.{IsAnswer, parse_array_range-IsAnswer}
use veloce_ce.Tests.Fixtures.{second}

read_dependency_runs :
    read_dependency (λ s. s) (some "afternotok:5, afterok:x,,after")
    ≡ (some (5 ∷ []), some ("afternotok:5" ∷ "afterok:x" ∷ "after" ∷ []))
unfolding read_dependency read_parts unless_empty split trim parse parse_u64
read_dependency_runs = refl

abbrev sent : JobInfo
sent = record second {
  spec = record second.spec {
    dependencies = some (7 ∷ []);
    dependency_specs = some ("afterany:7" ∷ []);
  };
}

abbrev done : Map ℕ JobStatus
done = (7, completed (pos 0)) ∷ []

abbrev any : DependencySpec
any = record { parent_id = 7; condition = after_any }

read_ids : sent.dependencies ≡ (read_dependency (λ s. s) (some "afterany:7")).0
unfolding read_dependency read_parts unless_empty split trim parse parse_u64
read_ids = refl

read_specs : sent.dependency_specs ≡ (read_dependency (λ s. s) (some "afterany:7")).1
unfolding read_dependency read_parts unless_empty split trim parse parse_u64
read_specs = refl

met : dependencies_satisfied (λ s. s) [] done sent ≡ ok true
unfolding dependencies_satisfied check_each check_parent check_spec status_of check parse split
    parse_u64
met = refl

dependencies_satisfied-read_dependency_example :
    (parent_outcome [] done after_ok 7 ≡ some true) × (after_any ≢ after_not_ok)
unfolding split trim parse parse_u64
dependencies_satisfied-read_dependency_example =
    dependencies_satisfied-read_dependency (λ s. s) [] done sent "afterany:7" "afterany:7" any
      read_ids read_specs refl refl refl met

parse_array_range-IsAnswer_example : IsAnswer "7,1-5:2,3" (parse_array_range "7,1-5:2,3")
parse_array_range-IsAnswer_example = parse_array_range-IsAnswer "7,1-5:2,3"
