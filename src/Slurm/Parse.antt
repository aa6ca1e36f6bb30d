-- ===== src/Slurm/Parse.antt =====
-- veloce-slurm/src/parse.rs: the parsers of the five tools. A loop over `args[i..]` recurses on the
-- arguments; its number is how many of them were consumed before with an option.
pub mod Settings
pub mod Precedence
use veloce_ce.Base.{
  ℕ, zero, suc, ◌-◌, String, Bool, true, false, ◌&&◌, ◌||◌, not, Option, none, some, List, [], ◌∷◌,
  ◌++◌, if◌then◌else◌, ◌==◌, string_eq, Result, ok, err, ◌>>=◌, format, starts_with, map, is_empty,
}
use veloce_ce.Slurm.Time.{parse_slurm_time}
use veloce_ce.Slurm.Spec.{
  SubmitSpec, Skip, ParsedBatch, ParsedQueue, ParsedCancel, empty_batch, command_tokens,
}
use veloce_ce.Slurm.Gres.{parse_gres}
use veloce_ce.Slurm.Options.{
  take_opt, take_raw_value, known_skip_flag, skip_flag_arity, display_skipped, skip_unknown_flag,
}
use veloce_ce.Slurm.Values.{
  Numbers, skipped, apply_export, veloce_qos, validate_array, validate_dependency, parse_mem_mb,
  parse_usize, parse_u32,
}
use veloce_ce.Slurm.Script.{sbatch_lines_to_args}

-- An option: its names, and what its value does
abbrev pub Rule : Type 0
Rule = List String × (String → ParsedBatch → Result String ParsedBatch)

abbrev pub in_spec : ParsedBatch → SubmitSpec → Result String ParsedBatch
in_spec out spec = ok (record out { spec = spec })

pub take_qos : String → ParsedBatch → Result String ParsedBatch
take_qos v out = elim (veloce_qos v) [
  | some q ↦ in_spec out (record out.spec { qos = some q })
  | none ↦ ok (
      skipped (format ("--qos=" ∷ v ∷ []))
        "not a Veloce QoS (interactive, production, preemptible, background)" out)
]

abbrev or_else : Option String → String → Option String
or_else none q = some q
or_else (some old) q = some old

pub take_partition : String → ParsedBatch → Result String ParsedBatch
take_partition v out = elim (veloce_qos v) [
  | some q ↦ in_spec out (record out.spec { qos = or_else out.spec.qos q })
  | none ↦
      ok
        (skipped (format ("--partition=" ∷ v ∷ [])) "Veloce has no Slurm partitions; use --qos" out)
]

abbrev pub override {ℓ} : {A : Type ℓ} → Option A → Option A → Option A
override none old = old
override (some new) old = some new

abbrev pub override_list {ℓ} : {A : Type ℓ} → List A → List A → List A
override_list [] old = old
override_list (x ∷ xs) old = x ∷ xs

pub merge_batch : ParsedBatch → ParsedBatch → ParsedBatch
merge_batch s c = record {
  spec = record {
    job_name = override c.spec.job_name s.spec.job_name;
    comment = override c.spec.comment s.spec.comment;
    nodes = override c.spec.nodes s.spec.nodes;
    cores = override c.spec.cores s.spec.cores;
    mem_mb = override c.spec.mem_mb s.spec.mem_mb;
    walltime_secs = override c.spec.walltime_secs s.spec.walltime_secs;
    gres = override_list c.spec.gres s.spec.gres;
    array = override c.spec.array s.spec.array;
    dependency = override c.spec.dependency s.spec.dependency;
    qos = override c.spec.qos s.spec.qos;
    extra_env = s.spec.extra_env ++ c.spec.extra_env;
  };
  skips = s.skips ++ c.skips;
  wrap = override c.wrap s.wrap;
  script = override c.script s.script;
  script_args = override_list c.script_args s.script_args;
}

pub one_command : ParsedBatch → Option String → Option String → Result String ParsedBatch
one_command p (some wrap) (some script) = err "sbatch: cannot combine --wrap with a batch script"
one_command p none none = err "sbatch: missing batch script or --wrap"
one_command p _ _ = ok p

module _ (m : Numbers) where
  -- The options that are honored, in the order in which they are tried
  abbrev pub rules : List Rule
  rules =
      ("-J" ∷ "--job-name" ∷ [], λ v out. in_spec out (record out.spec { job_name = some v }))
      ∷ (
        "-N" ∷ "--nodes" ∷ [],
        λ v out. do n ← parse_usize v "--nodes"; in_spec out (record out.spec { nodes = some n }),
      )
      ∷ (
        "-c" ∷ "--cpus-per-task" ∷ [],
        λ v out. do
          n ← parse_u32 v "--cpus-per-task"
          in_spec out (record out.spec { cores = some n }),
      )
      ∷ (
        "--mem" ∷ [],
        λ v out. do n ← parse_mem_mb m v; in_spec out (record out.spec { mem_mb = some n }),
      )
      ∷ (
        "-t" ∷ "--time" ∷ [],
        λ v out. do
          n ← parse_slurm_time v
          in_spec out (record out.spec { walltime_secs = some n }),
      )
      ∷ (
        "--gres" ∷ [],
        λ v out. do
          g ← parse_gres v
          ok (record out {
            spec = record out.spec { gres = out.spec.gres ++ g.0 };
            skips = out.skips ++ g.1;
          }),
      )
      ∷ (
        "-a" ∷ "--array" ∷ [],
        λ v out. do _ ← validate_array v; in_spec out (record out.spec { array = some v }),
      )
      ∷ (
        "-d" ∷ "--dependency" ∷ [],
        λ v out. do
          _ ← validate_dependency v
          in_spec out (record out.spec { dependency = some v }),
      )
      ∷ ("--comment" ∷ [], λ v out. in_spec out (record out.spec { comment = some v }))
      ∷ ("--wrap" ∷ [], λ v out. ok (record out { wrap = some v }))
      ∷ ("--qos" ∷ [], take_qos)
      ∷ ("-p" ∷ "--partition" ∷ [], take_partition)
      ∷ ("--export" ∷ [], λ v out. ok (apply_export v out))
      ∷ []

  pub try_rules :
      String → List String → ParsedBatch → List Rule → Result String (Option (ParsedBatch × ℕ))
  try_rules a rest out [] = ok none
  try_rules a rest out ((names, use_value) ∷ more) =
      let next = try_rules a rest out more in
      take_opt a rest names >>= λ r. elim r [
        | none ↦ next
        | some (v, consumed) ↦ use_value v out >>= λ out'. ok (some (out', consumed))
      ]

  abbrev licenses : String
  licenses =
      "Slurm license tokens are not FlexLM; use Veloce license wait when you want a real checkout"

  -- What follows the rules: `--licenses`, and flags that are not honored
  pub take_flag : String → List String → ParsedBatch → Result String (Option (ParsedBatch × ℕ))
  take_flag a rest out =
      if a == "--licenses" || starts_with "--licenses=" a || a == "-L"
      then (do
        r ← take_raw_value a rest "--licenses"
        ok (some (skipped (format ("--licenses=" ∷ r.0 ∷ [])) licenses out, r.1)))
      else if starts_with "-" a
      then elim (known_skip_flag a) [
        | some (name, reason) ↦
            let consumed = skip_flag_arity a rest name in
            ok (some (skipped (display_skipped a rest consumed) reason out, consumed))
        | none ↦
            let (opt, consumed) = skip_unknown_flag a rest in
            ok (some (record out { skips = out.skips ++ opt ∷ [] }, consumed))
      ]
      else ok none

  pub take_token : String → List String → ParsedBatch → Result String (Option (ParsedBatch × ℕ))
  unfolding try_rules take_flag
  take_token a rest out = try_rules a rest out rules >>= λ r. elim r [
    | some taken ↦ ok (some taken)
    | none ↦ take_flag a rest out
  ]

  -- The loop of `parse_submit_flags`, with the positionals so far
  pub parse_tokens :
      Bool → List String → ℕ → ParsedBatch → List String → Result String (ParsedBatch × List String)
  unfolding take_token
  parse_tokens allow [] skip out positionals = ok (out, positionals)
  parse_tokens allow (a ∷ rest) (suc skip) out positionals =
      parse_tokens allow rest skip out positionals
  parse_tokens allow (a ∷ rest) zero out positionals =
      if a == "--"
      then ok (out, positionals ++ rest)
      else take_token a rest out >>= λ r. elim r [
        | some (out', consumed) ↦ parse_tokens allow rest (consumed - 1) out' positionals
        | none ↦
            if allow
            then parse_tokens allow rest 0 out (positionals ++ a ∷ [])
            else err (format ("unexpected token '" ∷ a ∷ "' in #SBATCH" ∷ []))
      ]

  pub with_positionals : Bool → ParsedBatch × List String → ParsedBatch
  with_positionals false (out, positionals) = out
  with_positionals true (out, []) = out
  with_positionals true (out, first ∷ others) = elim out.wrap [
    | some wrap ↦ record out { script_args = first ∷ others }
    | none ↦ record out { script = some first; script_args = others }
  ]

  pub parse_submit_flags : List String → Bool → Result String ParsedBatch
  unfolding parse_tokens with_positionals
  parse_submit_flags args allow = do
    r ← parse_tokens allow args 0 empty_batch []
    ok (with_positionals allow r)

  unfoldable pub parse_sbatch : List String → Option String → Result String ParsedBatch
  unfolding parse_submit_flags merge_batch one_command
  parse_sbatch args none = do p ← parse_submit_flags args true; one_command p p.wrap p.script
  parse_sbatch args (some body) = do
    cli ← parse_submit_flags args true
    script ← parse_submit_flags (sbatch_lines_to_args body) false
    let p = merge_batch script cli in one_command p p.wrap p.script

  unfoldable pub parse_srun : List String → Result String ParsedBatch
  unfolding parse_submit_flags
  parse_srun args = do
    p ← parse_submit_flags args true
    elim (command_tokens p) [
      | [] ↦ elim p.wrap [ none ↦ err "srun: missing command" | some wrap ↦ ok p ]
      | first ∷ others ↦ ok p
    ]
