-- ===== src/Common/JobPolicy/Filter.antt =====
-- What stands in the filtered environment of a job.
use veloce_ce.Base.{
  String, ◌≡◌, refl, ap, subst, ◌∙◌, arith, Bool, true, false, not, ◌&&◌, ◌||◌, List, [], ◌∷◌, ◌++◌,
  Option, none, some, Map, get, insert, get-insert, contains, contains-append, ◌==◌, string_eq,
  if◌then◌else◌, Option-cases, beq-cases, inl, inr, starts_with,
}
use veloce_ce.Common.JobPolicy.{
  JobExecutionOptions, is_blocked_env_key, listed, effective_allowlist_keys, copy_env, restore_one,
  restore_env, user_keys, filter_host_env_for_job,
}

-- The first value that is there.
abbrev pub or_else {ℓ} : {A : Type ℓ} → Option A → Option A → Option A
or_else none y = y
or_else (some x) y = some x

-- The value of the last variable of that name.
abbrev pub last_value : String → List (String × String) → Option String
last_value j [] = none
last_value j ((k, v) ∷ host) = or_else (last_value j host) (if k == j then some v else none)

get-copy_env :
    (p : String → Bool) (j : String) (host : List (String × String)) (out : Map String String)
    → get j (copy_env p host out)
      ≡ (if p j then or_else (last_value j host) (get j out) else get j out)
unfolding copy_env
get-copy_env p j [] out = ground arith
get-copy_env p j ((k, v) ∷ host) out =
    get-copy_env p j host (if p k then insert k v out else out) ∙ elim (beq-cases k j) [
      | inl same ↦ ground (arith, get-insert k j v out, string_eq.beq_correct k j, ap p same)
      | inr other ↦ ground (arith, get-insert k j v out)
    ]

get-restore_one :
    (j k : String) (host : List (String × String)) (out : Map String String)
    → get j (restore_one k host out)
      ≡ or_else (get j out) (if string_eq.beq k j then get j host else none)
unfolding restore_one
get-restore_one j k host out = elim (Option-cases (get k host)) [
  | inl absent ↦
      ground
        (arith, string_eq.beq_correct k j, λ (same : k ≡ j). ap (λ (i : String). get i host) same)
  | inr (v, there) ↦ ground (
    arith,
    string_eq.beq_correct k j,
    λ (same : k ≡ j). ap (λ (i : String). get i host) same,
    λ (same : k ≡ j). ap (λ (i : String). get i out) same,
    get-insert k j v out,
  )
]

get-restore_env :
    (j : String) (keys : List String) (host : List (String × String)) (out : Map String String)
    → get j (restore_env keys host out)
      ≡ or_else (get j out) (if contains j keys then get j host else none)
unfolding restore_env
get-restore_env j [] host out = ground arith
get-restore_env j (k ∷ keys) host out =
    get-restore_env j keys host (restore_one k host out)
    ∙ ground (arith, get-restore_one j k host out)

-- The value that the variable `j` of the host should have for the job.
abbrev pub granted :
    List (String × String)
    → Bool
    → List String
    → JobExecutionOptions
    → Bool
    → String
    → Option String
granted host enabled defaults job impersonating j =
    if is_blocked_env_key j
    then none
    else if job.inherit_host_env || not enabled || contains j defaults || contains j (listed job)
    then last_value j host
    else if impersonating && contains j user_keys
    then get j host
    else none

-- A variable that is there has a last value.
last_value-none :
    (j : String) (host : List (String × String)) → last_value j host ≡ none → get j host ≡ none
last_value-none j [] h = refl
last_value-none j ((k, v) ∷ host) h = ground (arith, last_value-none j host)

user_keys_free : (j : String) → contains j user_keys ≡ true → is_blocked_env_key j ≡ false
unfolding is_blocked_env_key starts_with
user_keys_free j h = elim (beq-cases "HOME" j) [
  | inl e ↦ subst (λ i. is_blocked_env_key i ≡ false) e refl
  | inr not_home ↦ elim (beq-cases "USER" j) [
    | inl e ↦ subst (λ i. is_blocked_env_key i ≡ false) e refl
    | inr not_user ↦ elim (beq-cases "TMPDIR" j) [
      | inl e ↦ subst (λ i. is_blocked_env_key i ≡ false) e refl
      | inr not_tmpdir ↦ absurd (ground arith)
    ]
  ]
]

-- The environment gives each variable exactly what it is granted: nothing if it is blocked, else the
-- last value of the host if everything is inherited or the variable is listed, else, for an
-- impersonated user, the first value of HOME, USER or TMPDIR.
pub get-filter_host_env_for_job :
    (host : List (String × String)) (enabled : Bool) (defaults : List String)
    (job : JobExecutionOptions) (impersonating : Bool) (j : String)
    → get j (filter_host_env_for_job host enabled defaults job impersonating)
      ≡ granted host enabled defaults job impersonating j
unfolding filter_host_env_for_job effective_allowlist_keys
get-filter_host_env_for_job host enabled defaults job impersonating j = ground (
  arith,
  get-copy_env (λ k. not (is_blocked_env_key k)) j host [],
  get-copy_env (λ k. contains k (defaults ++ listed job) && not (is_blocked_env_key k)) j host [],
  get-restore_env j user_keys host
      (copy_env (λ k. contains k (defaults ++ listed job) && not (is_blocked_env_key k)) host []),
  contains-append j defaults (listed job),
  last_value-none j host,
  user_keys_free j,
)
