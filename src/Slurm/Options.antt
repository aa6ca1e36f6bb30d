-- ===== src/Slurm/Options.antt =====
-- veloce-slurm/src/parse.rs: how one option is read. The argument `a` is `args[i]`, and `rest` are the
-- arguments behind it; a number is how many arguments are consumed.
use veloce_ce.Base.{
  ℕ, String, Bool, not, ◌&&◌, ◌||◌, Option, none, some, List, [], ◌∷◌, if◌then◌else◌, ◌==◌,
  string_eq, contains, Result, ok, err, format, join, split_once, starts_with, strip_prefix,
  single_equals, has, take, nat_beq,
}
use veloce_ce.Slurm.Spec.{Skip}
use Prim.Native.String.{len}

-- `name.len() == 2 && name.starts_with('-') && !name.starts_with("--")`
abbrev pub is_short : String → Bool
is_short name = nat_beq (len name) 2 && starts_with "-" name && not (starts_with "--" name)

-- -N2, -c8, -Jname, -t10
unfoldable pub bundled : String → String → Option String
bundled name a =
    if is_short name
    then (elim (strip_prefix name a) [
      | none ↦ none
      | some rest ↦ if rest == "" || starts_with "-" rest then none else some rest
    ])
    else none

missing : String → Result String (Option (String × ℕ))
missing name = err (format ("missing value for " ∷ name ∷ []))

unfoldable pub value_after : String → List String → Result String (Option (String × ℕ))
unfolding missing
value_after name [] = missing name
value_after name (v ∷ rest) =
    if starts_with "-" v && not (name == "--comment") then missing name else ok (some (v, 2))

unfoldable pub take_opt : String → List String → List String → Result String (Option (String × ℕ))
unfolding bundled value_after
take_opt a rest [] = ok none
take_opt a rest (name ∷ names) =
    let next = take_opt a rest names in
    elim (strip_prefix (format (name ∷ "=" ∷ [])) a) [
      | some v ↦ ok (some (v, 1))
      | none ↦
          if a == name
          then value_after name rest
          else elim (bundled name a) [ some v ↦ ok (some (v, 1)) | none ↦ next ]
    ]

pub take_raw_value : String → List String → String → Result String (String × ℕ)
take_raw_value a rest name = elim (strip_prefix (format (name ∷ "=" ∷ [])) a) [
  | some v ↦ ok (v, 1)
  | none ↦ elim rest [ [] ↦ err (format ("missing value for " ∷ name ∷ [])) | v ∷ more ↦ ok (v, 2) ]
]

-- `SKIP`
abbrev pub skip_table : List (List String × String)
skip_table =
    ("--account" ∷ "-A" ∷ [], "Slurm accounts are not a Veloce object")
    ∷ ("--constraint" ∷ "-C" ∷ [], "node features/constraints are not mapped")
    ∷ ("--nodelist" ∷ "-w" ∷ [], "explicit nodelist is not mapped")
    ∷ ("--exclude" ∷ "-x" ∷ [], "node exclude lists are not mapped")
    ∷ ("--exclusive" ∷ [], "exclusive node allocation is not a Veloce submit flag")
    ∷ ("--oversubscribe" ∷ [], "oversubscribe is not a Veloce submit flag")
    ∷ ("--contiguous" ∷ [], "contiguous allocation is not a Veloce submit flag")
    ∷ ("--switches" ∷ [], "topology/switches are intentionally out of scope")
    ∷ ("--cpu-bind" ∷ "--cpu_bind" ∷ [], "CPU bind is not mapped")
    ∷ ("--mem-bind" ∷ "--mem_bind" ∷ [], "memory bind is not mapped")
    ∷ ("--hint" ∷ [], "CPU hint is not mapped")
    ∷ ("--ntasks-per-socket" ∷ [], "socket topology is not mapped")
    ∷ ("--ntasks-per-node" ∷ [], "ntasks-per-node is not mapped")
    ∷ ("-n" ∷ "--ntasks" ∷ [], "ntasks is not mapped; use -N/-c")
    ∷ ("--mem-per-cpu" ∷ [], "mem-per-cpu is not mapped; use --mem")
    ∷ ("--mail-user" ∷ [], "mail is not mapped")
    ∷ ("--mail-type" ∷ [], "mail is not mapped")
    ∷ ("--begin" ∷ [], "deferred start (--begin) is not mapped")
    ∷ ("--requeue" ∷ [], "requeue is not mapped")
    ∷ ("--signal" ∷ [], "job signals are not mapped")
    ∷ ("--open-mode" ∷ [], "log open-mode is not mapped")
    ∷ ("-o" ∷ "--output" ∷ [], "stdout path is not mapped")
    ∷ ("-e" ∷ "--error" ∷ [], "stderr path is not mapped")
    ∷ ("-i" ∷ "--input" ∷ [], "stdin path is not mapped")
    ∷ ("--get-user-env" ∷ [], "host env import is not mapped")
    ∷ ("--network" ∷ [], "network hints are not mapped")
    ∷ ("--mpi" ∷ [], "MPI plugin selection is not mapped")
    ∷ ("--spank" ∷ [], "SPANK plugins are not supported")
    ∷ ("-D" ∷ "--chdir" ∷ [], "chdir is not mapped")
    ∷ ("--gpus" ∷ "--gpus-per-node" ∷ [], "use --gres gpu:N")
    ∷ ("--tmp" ∷ [], "tmp disk GRES is not mapped")
    ∷ ("--profile" ∷ [], "Slurm acct_gather profile is not mapped")
    ∷ []

-- The first name of the entry, and the reason
pub find_skip : String → List (List String × String) → Option (String × String)
find_skip key [] = none
find_skip key (([], reason) ∷ more) = find_skip key more
find_skip key ((first ∷ names, reason) ∷ more) =
    let rest = find_skip key more in
    if contains key (first ∷ names) then some (first, reason) else rest

pub known_skip_flag : String → Option (String × String)
unfolding find_skip
known_skip_flag a = elim (split_once b'=' a) [
  | some (k, v) ↦ find_skip k skip_table
  | none ↦ find_skip a skip_table
]

-- 2 if a value follows
abbrev pub with_value : List String → ℕ
with_value [] = 1
with_value (next ∷ rest) = if starts_with "-" next then 1 else 2

abbrev pub lone_flags : List String
lone_flags =
    "--exclusive" ∷ "--oversubscribe" ∷ "--contiguous" ∷ "--requeue" ∷ "--get-user-env" ∷ "--spank"
    ∷ []

pub skip_flag_arity : String → List String → String → ℕ
skip_flag_arity a rest canonical =
    if has b'=' a then 1 else if contains canonical lone_flags then 1 else with_value rest

pub display_skipped : String → List String → ℕ → String
display_skipped a rest consumed = single_equals (join "=" (take consumed (a ∷ rest)))

abbrev pub unknown_consumed : String → List String → ℕ
unknown_consumed a rest =
    if has b'=' a then 1 else if starts_with "--" a then with_value rest else 1

unfoldable pub skip_unknown_flag : String → List String → Skip × ℕ
skip_unknown_flag a rest =
    let consumed = unknown_consumed a rest in
    (
      record {
        option = join "=" (take consumed (a ∷ rest));
        reason = "unknown Slurm option (not mapped to veloce submit)";
      },
      consumed,
    )
