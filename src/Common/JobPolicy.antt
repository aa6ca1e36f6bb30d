-- ===== src/Common/JobPolicy.antt =====
-- common/src/job_policy.rs: which environment a job gets, and which jobs are refused. A set is a
-- list, and an environment a map from names to values.
pub mod Filter
pub mod Submitted
use veloce_ce.Base.{
  ℕ, String, ◌≡◌, refl, Bool, true, false, not, ◌&&◌, ◌||◌, List, [], ◌∷◌, ◌++◌, Option, none, some,
  Map, get, contains_key, insert, contains, ◌==◌, string_eq, select, if◌then◌else◌, Result, ok, err,
  format, map, starts_with, split, trim, is_empty,
}

pub record JobExecutionOptions : Type 0 where
  pub inherit_host_env : Bool
  pub env_allowlist : Option (List String)
  pub job_profile : Option String

pub is_blocked_env_key : String → Bool
is_blocked_env_key key =
    key == "LD_PRELOAD"
    || key == "LD_LIBRARY_PATH"
    || key == "BASH_ENV"
    || key == "ENV"
    || key == "PERL5OPT"
    || key == "PYTHONPATH"
    || starts_with "DYLD_" key

pub is_system_job_profile : Option String → Bool
is_system_job_profile none = false
is_system_job_profile (some p) = p == "system"

pub parse_env_defaults : String → List String
parse_env_defaults raw = select (λ s. not (s == "")) (map trim (split b',' raw))

-- The allowlist of a job, empty if it has none.
abbrev pub listed : JobExecutionOptions → List String
listed job = elim job.env_allowlist [ none ↦ [] | some extra ↦ extra ]

pub effective_allowlist_keys : List String → JobExecutionOptions → List String
effective_allowlist_keys cluster_defaults job = cluster_defaults ++ listed job

-- The first blocked key that is not listed.
refused_key : List String → List (String × String) → Option String
unfolding is_blocked_env_key
refused_key allowlist [] = none
refused_key allowlist ((key, v) ∷ env) =
    if is_blocked_env_key key && not (contains key allowlist)
    then some key
    else refused_key allowlist env

pub validate_submitted_env_vars :
    List (String × String) → JobExecutionOptions → Bool → Result String (Unit {0})
unfolding refused_key
validate_submitted_env_vars env_vars job cluster_allowlist_enabled =
    if not cluster_allowlist_enabled then ok tt else elim (refused_key (listed job) env_vars) [
      | none ↦ ok tt
      | some key ↦
          err (format ("Environment variable '" ∷ key ∷ "' is blocked by cluster policy" ∷ []))
    ]

-- The loop that copies the variables whose name passes the test.
copy_env : (String → Bool) → List (String × String) → Map String String → Map String String
copy_env p [] out = out
copy_env p ((k, v) ∷ host) out = copy_env p host (if p k then insert k v out else out)

-- A named variable of the host, unless the job has it.
restore_one : String → List (String × String) → Map String String → Map String String
restore_one key host out =
    if contains_key key out
    then out
    else elim (get key host) [ none ↦ out | some v ↦ insert key v out ]

-- The loop that gives an impersonated user the named variables.
restore_env : List String → List (String × String) → Map String String → Map String String
unfolding restore_one
restore_env [] host out = out
restore_env (key ∷ keys) host out = restore_env keys host (restore_one key host out)

abbrev pub user_keys : List String
user_keys = "HOME" ∷ "USER" ∷ "TMPDIR" ∷ []

pub filter_host_env_for_job :
    List (String × String) → Bool → List String → JobExecutionOptions → Bool → Map String String
unfolding copy_env restore_env
filter_host_env_for_job host cluster_allowlist_enabled cluster_defaults job impersonating =
    if job.inherit_host_env || not cluster_allowlist_enabled
    then copy_env (λ k. not (is_blocked_env_key k)) host []
    else let allowed = effective_allowlist_keys cluster_defaults job in
      let out = copy_env (λ k. contains k allowed && not (is_blocked_env_key k)) host [] in
      if impersonating then restore_env user_keys host out else out

pub must_fail_missing_user : Bool → Option String → Bool → Bool
must_fail_missing_user require_impersonation job_profile user_exists =
    require_impersonation && not user_exists && not (is_system_job_profile job_profile)

-- Does a prefix that is not empty fit?
has_prefix : String → List String → Bool
has_prefix binary [] = false
has_prefix binary (prefix ∷ prefixes) =
    (not (prefix == "") && starts_with prefix binary) || has_prefix binary prefixes

pub validate_binary_prefix : String → List String → Result String (Unit {0})
unfolding has_prefix
validate_binary_prefix binary allowed_prefixes =
    if is_empty allowed_prefixes
    then ok tt
    else if has_prefix binary allowed_prefixes
    then ok tt
    else err (
        format (
          "Binary '" ∷ binary ∷ "' is not allowed by cluster policy (allowed_binaries_prefixes)"
          ∷ []))
