-- ===== src/Slurm/Invoke.antt =====
-- veloce-slurm/src/invoke.rs and wrap.rs: the arguments of `veloce --json`.
use veloce_ce.Base.{
  ℕ, String, Bool, Option, none, some, List, [], ◌∷◌, ◌++◌, if◌then◌else◌, format, decimal, ◌==◌,
  string_eq,
}
use veloce_ce.Slurm.Spec.{SubmitSpec}

abbrev pub slurm_env_export : String
slurm_env_export =
    "export SLURM_JOB_ID=\"${VELOCE_JOB_ID:-}\" SLURM_ARRAY_JOB_ID=\"${VELOCE_ARRAY_JOB_ID:-}\" SLURM_ARRAY_TASK_ID=\"${VELOCE_ARRAY_TASK_ID:-}\" SLURM_NODELIST=\"${VELOCE_NODES:-}\" SLURM_NNODES=\"${VELOCE_NODE_COUNT:-}\" SLURM_PROCID=\"${VELOCE_RANK:-}\"; exec \"$@\""

pub wrap_command : List String → List String
wrap_command command = "/bin/sh" ∷ "-c" ∷ slurm_env_export ∷ "slurm-env" ∷ command

abbrev pub push_text : String → Option String → List String
push_text name none = []
push_text name (some v) = name ∷ v ∷ []

abbrev pub push_number : String → Option ℕ → List String
push_number name none = []
push_number name (some n) = name ∷ decimal n ∷ []

abbrev pub push_gres : List (String × ℕ) → List String
push_gres [] = []
push_gres ((k, n) ∷ gres) = "--gres" ∷ format (k ∷ ":" ∷ decimal n ∷ []) ∷ push_gres gres

abbrev pub push_env : List (String × String) → List String
push_env [] = []
push_env ((k, v) ∷ env) = "-e" ∷ format (k ∷ "=" ∷ v ∷ []) ∷ push_env env

pub push_spec : SubmitSpec → List String
push_spec spec =
    push_text "--name" spec.job_name
    ++ push_text "--comment" spec.comment
    ++ push_number "--nodes" spec.nodes
    ++ push_number "--cores" spec.cores
    ++ push_number "--mem" spec.mem_mb
    ++ push_number "--walltime" spec.walltime_secs
    ++ push_gres spec.gres
    ++ push_text "--array" spec.array
    ++ push_text "--dependency" spec.dependency
    ++ push_text "--qos" spec.qos
    ++ push_env spec.extra_env

abbrev pub push_wait : Bool → List String
push_wait wait = if wait then "--wait" ∷ [] else []

unfoldable pub submit : SubmitSpec → List String → Bool → List String
unfolding push_spec wrap_command
submit spec command wait =
    ("--json" ∷ "submit" ∷ []) ++ push_spec spec ++ push_wait wait ++ wrap_command command

unfoldable pub step : SubmitSpec → String → List String → Bool → List String
unfolding wrap_command
step spec job_id command wait =
    ("--json" ∷ "step" ∷ [])
    ++ push_number "--nodes" spec.nodes
    ++ push_number "--cores" spec.cores
    ++ push_gres spec.gres
    ++ push_env spec.extra_env
    ++ ("--job-id" ∷ job_id ∷ [])
    ++ push_wait wait
    ++ wrap_command command

abbrev user_args : Option String → List String
user_args none = []
user_args (some u) = if u == "__mine__" then "--mine" ∷ [] else "--user" ∷ u ∷ []

unfoldable pub jobs_list : Option String → List String
jobs_list user = ("--json" ∷ "jobs" ∷ "list" ∷ []) ++ user_args user

unfoldable pub jobs_kill : String → List String
jobs_kill job_id = "--json" ∷ "jobs" ∷ "kill" ∷ job_id ∷ []

unfoldable pub nodes_list : List String
nodes_list = "--json" ∷ "nodes" ∷ "list" ∷ []
