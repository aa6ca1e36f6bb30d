-- ===== src/Tests/Slurm.antt =====
-- What the Slurm-shaped tools read and start.
use veloce_ce.Base.{
  ℕ, pos, String, true, false, none, some, List, [], ◌∷◌, ◌++◌, ok, err, ◌≡◌, refl, arith,
  if◌then◌else◌, contains, string_eq, parse_u64, split, split_once, trim, starts_with, decimal,
  lines, strip_prefix, is_whitespace,
}
use mathlib.Core.Option as Option
use veloce_ce.Types.Floats.{F64, bits}
use veloce_ce.Types.Dependency.{after_not_ok, parse}
use veloce_ce.Slurm.Spec.{empty_batch}
use veloce_ce.Slurm.Values.{Numbers, validate_dependency}
use veloce_ce.Slurm.Values.Several.{on_both, validate_dependency-on_both}
use veloce_ce.Slurm.Script.{shellish_split, sbatch_lines_to_args}
use veloce_ce.Slurm.Script.Words.{quoted_line, shellish_split-quoted_line}
use veloce_ce.Slurm.Parse.{parse_submit_flags, parse_sbatch}
use veloce_ce.Slurm.Parse.Settings.{
  Setting, job_name, comment, nodes, cores, walltime_secs, written_all, effects, AllWritable,
}
use veloce_ce.Slurm.Parse.Precedence.{
  with_command, parse_submit_flags-with_command, parse_sbatch-written,
}
use veloce_ce.Slurm.Invoke.{jobs_kill}
use veloce_ce.Slurm.Time.{parse_slurm_time}
use veloce_ce.Slurm.Tools.Ids.{ArePlain}
use veloce_ce.Slurm.Format.{Json, format_scancel, read_json}
use veloce_ce.Slurm.Facade.{Machine, kill_each}
use veloce_ce.Slurm.Facade.Kills.{Ended, kill_each-Ended}
use veloce_ce.Tests.Fixtures.{whole}

abbrev numbers : Numbers
numbers = record {
  floats = whole;
  parse_f64 = λ s. Option.map bits (parse_u64 s);
  ceil_as_u64 = λ x. whole_part x;
}
  where
    whole_part : F64 → ℕ
    whole_part (bits n) = n

-- A document is a number, and each of its fields is that number.
abbrev numeric : Json
numeric = record {
  Value = ℕ;
  from_str = λ s. elim (parse_u64 s) [ none ↦ err "no number" | some n ↦ ok n ];
  get = λ k v. some v;
  as_u64 = some;
  as_i64 = λ v. some (pos v);
  as_str = λ v. none;
  as_bool = λ v. none;
  as_array = λ v. none;
  as_object = λ v. none;
}

-- The state is what was run; a job 9 cannot be killed.
abbrev machine : Machine
machine = record {
  State = List (List String);
  run = λ w bin args. (
    w ++ args ∷ [],
    ok (record { status = if contains "9" args then pos 1 else pos 0; stdout = "7"; stderr = "" }),
  );
  read_file = λ path. none;
}

kill_each-Ended_example :
    Ended numbers numeric machine "veloce" []
      ("7" ∷ "9" ∷ "8" ∷ [])
      (kill_each numbers numeric machine "veloce" ("7" ∷ "9" ∷ "8" ∷ []) "" "" [])
kill_each-Ended_example =
    kill_each-Ended numbers numeric machine "veloce" ("7" ∷ "9" ∷ "8" ∷ []) "" "" []

stops :
    (kill_each numbers numeric machine "veloce" ("7" ∷ "9" ∷ "8" ∷ []) "" "" []).0
    ≡ ("--json" ∷ "jobs" ∷ "kill" ∷ "7" ∷ []) ∷ ("--json" ∷ "jobs" ∷ "kill" ∷ "9" ∷ []) ∷ []
unfolding kill_each jobs_kill format_scancel read_json trim parse_u64
stops = refl

abbrev settings : List Setting
settings = job_name "demo" ∷ comment "-x" ∷ nodes 2 ∷ walltime_secs "10" 600 ∷ nodes 3 ∷ []

time_of_ten : parse_slurm_time "10" ≡ ok 600
unfolding parse_slurm_time split split_once trim parse_u64
time_of_ten = refl

settings-AllWritable : AllWritable numbers settings
unfolding starts_with
settings-AllWritable = (
  (tt, refl),
  ((tt, refl), ((omega arith, refl), ((time_of_ten, refl), ((omega arith, refl), tt)))),
)

parse_submit_flags-with_command_example :
    parse_submit_flags numbers (written_all settings ++ "--" ∷ "run.sh" ∷ "--fast" ∷ []) true
    ≡ ok (with_command "run.sh" ("--fast" ∷ []) (effects settings empty_batch))
parse_submit_flags-with_command_example =
    parse_submit_flags-with_command numbers settings "run.sh" ("--fast" ∷ []) settings-AllWritable
      (refl, (refl, (refl, (refl, (refl, tt)))))

abbrev script : String
script =
    "#!/bin/sh\n#SBATCH --job-name \"demo\" --comment -x\n#SBATCH --nodes 2 --time 10 --nodes 3\necho"

directives : sbatch_lines_to_args script ≡ written_all settings
unfolding sbatch_lines_to_args shellish_split lines split trim is_whitespace starts_with
    strip_prefix decimal
directives = refl

abbrev on_line : List Setting
on_line = nodes 4 ∷ cores 8 ∷ []

on_line-AllWritable : AllWritable numbers on_line
unfolding starts_with
on_line-AllWritable = ((omega arith, refl), ((omega arith, refl), tt))

parse_sbatch-written_example :
    parse_sbatch numbers (written_all on_line ++ "--" ∷ "run.sh" ∷ "a" ∷ []) (some script)
    ≡ ok (with_command "run.sh" ("a" ∷ []) (effects (settings ++ on_line) empty_batch))
parse_sbatch-written_example =
    parse_sbatch-written numbers settings on_line script "run.sh" ("a" ∷ []) settings-AllWritable
      on_line-AllWritable (refl, (refl, (refl, (refl, (refl, tt))))) (refl, (refl, tt))
      (refl, (refl, tt)) directives

shellish_split-quoted_line_example :
    shellish_split (quoted_line ("a b" ∷ "it's" ∷ [])) ≡ "a b" ∷ "it's" ∷ []
shellish_split-quoted_line_example =
    shellish_split-quoted_line ("a b" ∷ "it's" ∷ []) ((refl, refl), ((refl, refl), tt))

validate_dependency-on_both_example :
    (validate_dependency (on_both after_not_ok 5 6) ≡ ok tt)
    × ((e : String) × (parse (λ s. s) (on_both after_not_ok 5 6) ≡ err e))
validate_dependency-on_both_example =
    validate_dependency-on_both after_not_ok 5 6 (omega arith) (omega arith) (λ s. s)

short_flag : starts_with "-" "-s" ≡ true
unfolding starts_with
short_flag = refl

single_dash : starts_with "--" "-s" ≡ false
unfolding starts_with
single_dash = refl

no_dash : ArePlain ("9" ∷ "123" ∷ [])
unfolding starts_with
no_dash = (refl, (refl, tt))
