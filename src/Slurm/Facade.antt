-- ===== src/Slurm/Facade.antt =====
-- veloce-slurm/src/lib.rs: a command line of a Slurm-shaped tool, run through `veloce --json`. The
-- runner is a parameter: it changes the state of the cluster. What is read of files is too.
pub mod Kills
use veloce_ce.Base.{
  ℕ, ℤ, pos, is_zero, String, Bool, true, false, Option, none, some, List, [], ◌∷◌, ◌++◌, map,
  if◌then◌else◌, ◌==◌, string_eq, Result, ok, err, ◌>>=◌, format, split, trim, select, not, ◌||◌,
}
use veloce_ce.Slurm.Spec.{
  SubmitSpec, Skip, ParsedBatch, Tool, sbatch, srun, squeue, scancel, sinfo, command_tokens,
}
use veloce_ce.Slurm.Values.{Numbers}
use veloce_ce.Slurm.Parse.{parse_sbatch, parse_srun}
use veloce_ce.Slurm.Tools.{tool_of, parse_squeue, parse_scancel, parse_sinfo}
use veloce_ce.Slurm.Invoke.{submit, step, jobs_list, jobs_kill, nodes_list}
use veloce_ce.Slurm.Format.{
  Json, format_skip, format_sbatch_submitted, format_srun_wait, format_squeue, format_sinfo,
  format_scancel,
}

pub record VeloceOutput : Type 0 where
  pub status : ℤ
  pub stdout : String
  pub stderr : String

pub record FacadeOutput : Type 0 where
  pub stdout : String
  pub stderr : String
  pub exit_code : ℤ

pub record FacadeRequest : Type 0 where
  pub argv0 : String
  pub args : List String
  pub veloce_bin : String
  pub job_id_env : Option String
  pub now_unix : ℕ
  pub script_body : Option String

abbrev pub help : String
help =
    "veloce-slurm — Slurm-shaped front door for Veloce (not Slurm)\n\nUsage:\n  veloce-slurm <sbatch|srun|squeue|scancel|sinfo> [args]\n  sbatch|srun|squeue|scancel|sinfo   (argv0 symlink)\n\nHonors a subset of sbatch flags and maps them to `veloce --json`.\nUnsupported options are skipped with a warning. See docs/veloce-slurm.md.\n\nEnvironment:\n  VELOCE_BIN     path to the veloce CLI (default: veloce on PATH)\n  VELOCE_JOB_ID  when set, srun uses `veloce step` instead of submit\n"

abbrev last_name : List String → Option String
last_name [] = none
last_name (s ∷ []) = if s == ".." then none else some s
last_name (s ∷ t ∷ ss) = last_name (t ∷ ss)

-- `Path::file_name`
pub file_name : String → Option String
file_name path = last_name (select (λ s. not (s == "" || s == ".")) (split b'/' path))

abbrev or_self : String → Option String → String
or_self s none = s
or_self s (some t) = t

unfoldable pub from_argv0 : String → Option Tool
unfolding file_name
from_argv0 argv0 = tool_of (or_self argv0 (file_name argv0))

abbrev pub is_help : String → Bool
is_help c = c == "-h" || c == "--help" || c == "help" || c == ""

abbrev by_command : List String → Result String (Tool × List String)
by_command [] = err "usage"
by_command (c ∷ args) = elim (tool_of c) [
  | some tool ↦ ok (tool, args)
  | none ↦
      if is_help c
      then err "usage"
      else err
          (format ("unknown command '" ∷ c ∷ "' (try sbatch, srun, squeue, scancel, sinfo)" ∷ []))
]

unfoldable pub dispatch_tool : String → List String → Result String (Tool × List String)
dispatch_tool argv0 rest = elim (from_argv0 argv0) [
  | some tool ↦ ok (tool, rest)
  | none ↦ by_command rest
]

pub skip_stderr : List Skip → String
skip_stderr skips = format (map (λ s. format (format_skip s ∷ "\n" ∷ [])) skips)

abbrev pub failed : VeloceOutput → String → FacadeOutput
failed out stderr = record { stdout = out.stdout; stderr = stderr; exit_code = out.status }

abbrev printed : String → String → ℤ → FacadeOutput
printed line stderr code = record {
  stdout = format (line ∷ "\n" ∷ []);
  stderr = stderr;
  exit_code = code;
}

-- A runner that may fail, and what is used of the file system: nothing if the path is no file.
pub record Machine : Type 1 where
  pub State : Type 0
  pub run : State → String → List String → State × Result String VeloceOutput
  pub read_file : String → Option (Result String String)

module _ (m : Numbers) (J : Json) (M : Machine) where
  abbrev pub Run : Type 0
  Run = M.State × Result String FacadeOutput

  -- What follows the run: a status other than 0 is passed on, else the answer is read.
  pub finish :
      String
      → (VeloceOutput → Result String (String × ℤ))
      → M.State × Result String VeloceOutput
      → Run
  finish stderr read (w, err e) = (w, err e)
  finish stderr read (w, ok out) =
      let all = format (stderr ∷ out.stderr ∷ []) in
      if not (is_zero out.status)
      then (w, ok (failed out all))
      else (w, read out >>= λ p. ok (printed p.0 all p.1))

  abbrev at_zero : Result String String → Result String (String × ℤ)
  at_zero r = r >>= λ line. ok (line, pos 0)

  script_of : Option String → Result String (Option String)
  script_of none = ok none
  script_of (some path) = elim (M.read_file path) [
    | none ↦ ok none
    | some (ok body) ↦ ok (some body)
    | some (err e) ↦ err "failed to read batch script"
  ]

  pub body_of : FacadeRequest → ParsedBatch → Result String (Option String)
  unfolding script_of
  body_of req parsed = elim req.script_body [
    | some body ↦ ok (some body)
    | none ↦ elim parsed.wrap [ some wrap ↦ ok none | none ↦ script_of parsed.script ]
  ]

  -- The command line with its script, or the error
  pub read_sbatch : FacadeRequest → List String → Result String ParsedBatch
  unfolding body_of
  read_sbatch req args = do
    parsed ← parse_sbatch m args none
    body ← body_of req parsed
    elim body [ none ↦ ok parsed | some b ↦ parse_sbatch m args (some b) ]

  pub run_sbatch : FacadeRequest → List String → M.State → Run
  unfolding finish read_sbatch skip_stderr
  run_sbatch req args w = elim (read_sbatch req args) [
    | err e ↦ (w, err e)
    | ok parsed ↦
        finish (skip_stderr parsed.skips) (λ out. at_zero (format_sbatch_submitted J out.stdout))
          (M.run w req.veloce_bin (submit parsed.spec (command_tokens parsed) false))
  ]

  abbrev srun_args : Option String → ParsedBatch → List String
  srun_args none p = submit p.spec (command_tokens p) true
  srun_args (some id) p =
      if id == ""
      then submit p.spec (command_tokens p) true
      else step p.spec id (command_tokens p) true

  pub run_srun : FacadeRequest → List String → M.State → Run
  unfolding finish skip_stderr
  run_srun req args w = elim (parse_srun m args) [
    | err e ↦ (w, err e)
    | ok parsed ↦
        finish (skip_stderr parsed.skips) (λ out. format_srun_wait J out.stdout)
          (M.run w req.veloce_bin (srun_args req.job_id_env parsed))
  ]

  abbrev read_list :
      String → (J.Value → Result String String) → VeloceOutput → Result String (String × ℤ)
  read_list what read out = elim (J.from_str (trim out.stdout)) [
    | err e ↦ err (format (what ∷ " list JSON: " ∷ out.stdout ∷ []))
    | ok v ↦ at_zero (read v)
  ]

  pub run_squeue : FacadeRequest → List String → M.State → Run
  unfolding finish skip_stderr
  run_squeue req args w = elim (parse_squeue args) [
    | err e ↦ (w, err e)
    | ok parsed ↦
        finish (skip_stderr parsed.skips) (read_list "jobs" (λ v. format_squeue J v req.now_unix))
          (M.run w req.veloce_bin (jobs_list parsed.user))
  ]

  -- The loop of `run_scancel` over the ids, with what is printed so far
  unfoldable pub kill_each : String → List String → String → String → M.State → Run
  kill_each bin [] stdout stderr w =
      (w, ok (record { stdout = stdout; stderr = stderr; exit_code = pos 0 }))
  kill_each bin (id ∷ ids) stdout stderr w =
      let (w', r) = M.run w bin (jobs_kill id) in
      elim r [
        | err e ↦ (w', err e)
        | ok out ↦
            let all = format (stderr ∷ out.stderr ∷ []) in
            if not (is_zero out.status)
            then (w', ok (failed out all))
            else elim (format_scancel J out.stdout) [
              | err e ↦ (w', err e)
              | ok line ↦ kill_each bin ids (format (stdout ∷ line ∷ "\n" ∷ [])) all w'
            ]
      ]

  pub run_scancel : FacadeRequest → List String → M.State → Run
  unfolding kill_each skip_stderr
  run_scancel req args w = elim (parse_scancel args) [
    | err e ↦ (w, err e)
    | ok parsed ↦ kill_each req.veloce_bin parsed.job_ids "" (skip_stderr parsed.skips) w
  ]

  pub run_sinfo : FacadeRequest → List String → M.State → Run
  unfolding finish skip_stderr
  run_sinfo req args w = elim (parse_sinfo args) [
    | err e ↦ (w, err e)
    | ok skips ↦
        finish (skip_stderr skips) (read_list "nodes" (format_sinfo J))
          (M.run w req.veloce_bin nodes_list)
  ]

  abbrev run_tool : FacadeRequest → Tool × List String → M.State → Run
  run_tool req (sbatch, args) w = run_sbatch req args w
  run_tool req (srun, args) w = run_srun req args w
  run_tool req (squeue, args) w = run_squeue req args w
  run_tool req (scancel, args) w = run_scancel req args w
  run_tool req (sinfo, args) w = run_sinfo req args w

  unfoldable pub run_facade : FacadeRequest → M.State → Run
  unfolding run_sbatch run_srun run_squeue run_scancel run_sinfo
  run_facade req w = elim (dispatch_tool req.argv0 req.args) [
    | ok t ↦ run_tool req t w
    | err e ↦
        if e == "usage"
        then (w, ok (record { stdout = help; stderr = ""; exit_code = pos 0 }))
        else (w, err e)
  ]
