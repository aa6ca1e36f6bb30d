-- ===== src/Common/JobPolicy/Submitted.antt =====
-- Which submitted variables are refused.
use veloce_ce.Base.{
  String, ◌≡◌, ap, arith, true, false, not, ◌&&◌, List, [], ◌∷◌, none, some, keys, contains,
  string_eq, ok, ◌↔◌, Option-cases, Bool-cases, inl, inr, subst, beq-cases,
}
use veloce_ce.Common.JobPolicy.{
  JobExecutionOptions, is_blocked_env_key, listed, refused_key, validate_submitted_env_vars,
}

-- Every blocked variable is on the list.
abbrev pub AllListed : List String → List (String × String) → Type 0
AllListed allowlist env =
    (j : String)
    → contains j (keys env) ≡ true
    → is_blocked_env_key j ≡ true
    → contains j allowlist ≡ true

refused_key-none :
    (allowlist : List String) (env : List (String × String))
    → refused_key allowlist env ≡ none
    → AllListed allowlist env
unfolding refused_key
refused_key-none allowlist [] h j there blocked = absurd (ground arith)
refused_key-none allowlist ((k, v) ∷ env) h j there blocked = elim (beq-cases k j) [
  | inl e ↦ ground (arith, ap is_blocked_env_key e, ap (λ i. contains i allowlist) e)
  | inr other ↦ refused_key-none allowlist env (ground arith) j (ground arith) blocked
]

refused_key-some :
    (allowlist : List String) (env : List (String × String)) (j : String)
    → refused_key allowlist env ≡ some j
    → (contains j (keys env) ≡ true)
      × (is_blocked_env_key j ≡ true)
      × (contains j allowlist ≡ false)
unfolding refused_key
refused_key-some allowlist [] j h = absurd (ground arith)
refused_key-some allowlist ((k, v) ∷ env) j h =
    elim (Bool-cases (is_blocked_env_key k && not (contains k allowlist))) [
      | inl refused ↦
          let e : k ≡ j = ground arith in
          (
            ground (arith, string_eq.beq_correct k j),
            subst (λ i. is_blocked_env_key i ≡ true) e (ground arith),
            subst (λ i. contains i allowlist ≡ false) e (ground arith),
          )
      | inr passed ↦
          let (there, blocked, unlisted) = refused_key-some allowlist env j (ground arith) in
          (ground arith, blocked, unlisted)
    ]

-- With the policy on, a submission is accepted exactly if each of its variables that is
-- blocked is on the allowlist of the job.
pub validate_submitted_env_vars_iff :
    (env : List (String × String)) (job : JobExecutionOptions)
    → (validate_submitted_env_vars env job true ≡ ok tt) ↔ AllListed (listed job) env
unfolding validate_submitted_env_vars
validate_submitted_env_vars_iff env job = (
  λ h. elim (Option-cases (refused_key (listed job) env)) [
    | inl e ↦ refused_key-none (listed job) env e
    | inr (j, e) ↦ absurd (ground arith)
  ],
  λ all. elim (Option-cases (refused_key (listed job) env)) [
    | inl e ↦ ground arith
    | inr (j, e) ↦
        let (there, blocked, unlisted) = refused_key-some (listed job) env j e in
        absurd (ground (arith, all j there blocked))
  ],
)
