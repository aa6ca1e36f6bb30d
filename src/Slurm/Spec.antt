-- ===== src/Slurm/Spec.antt =====
-- veloce-slurm/src/lib.rs and parse.rs: what a Slurm-shaped command line asks for.
use veloce_ce.Base.{ℕ, String, Option, none, some, List, [], ◌∷◌}

pub record SubmitSpec : Type 0 where
  pub job_name : Option String
  pub comment : Option String
  pub nodes : Option ℕ
  pub cores : Option ℕ
  pub mem_mb : Option ℕ
  pub walltime_secs : Option ℕ
  pub gres : List (String × ℕ)
  pub array : Option String
  pub dependency : Option String
  pub qos : Option String
  pub extra_env : List (String × String)

pub record Skip : Type 0 where
  pub option : String
  pub reason : String

pub record ParsedBatch : Type 0 where
  pub spec : SubmitSpec
  pub skips : List Skip
  pub wrap : Option String
  pub script : Option String
  pub script_args : List String

pub record ParsedQueue : Type 0 where
  pub user : Option String
  pub skips : List Skip

pub record ParsedCancel : Type 0 where
  pub job_ids : List String
  pub skips : List Skip

pub data Tool : Type 0 where
  sbatch srun squeue scancel sinfo : Tool

-- `default()`
abbrev pub empty_spec : SubmitSpec
empty_spec = record {
  job_name = none;
  comment = none;
  nodes = none;
  cores = none;
  mem_mb = none;
  walltime_secs = none;
  gres = [];
  array = none;
  dependency = none;
  qos = none;
  extra_env = [];
}

-- `default()`
abbrev pub empty_batch : ParsedBatch
empty_batch = record { spec = empty_spec; skips = []; wrap = none; script = none; script_args = [] }

abbrev pub command_of : Option String → Option String → List String → List String
command_of (some wrap) script args = "/bin/sh" ∷ "-lc" ∷ wrap ∷ []
command_of none (some script) args = script ∷ args
command_of none none args = args

abbrev pub command_tokens : ParsedBatch → List String
command_tokens p = command_of p.wrap p.script p.script_args
