-- ===== src/Scheduler/Dependencies/Verdict.antt =====
-- What the conditions of dependencies mean (controller/src/scheduler/mod.rs).
use veloce_ce.Base.{
  ℕ, String, Bool, true, false, Option, none, some, List, [], ◌∷◌, Map, nat_eq, ◌≡◌, refl, sym, ap,
  ◌∙◌, ◌↔◌, ◌⊎◌, inl, inr, Option-cases, not, is_zero, Result, ok, err, arith, Result-cases,
}
use veloce_ce.Types.Job.{JobInfo, JobStatus, completed, failed, killed}
use veloce_ce.Types.Dependency.{DependencyCondition, after_ok, after_not_ok, after_any, parse}
use veloce_ce.Scheduler.Dependencies.{
  check, status_of, check_parent, and_then, check_each, check_spec, dependencies_satisfied, opt,
}

-- A job that has ended, and whether it ended well
abbrev pub succeeded : JobStatus → Option Bool
succeeded (completed code) = some (is_zero code)
succeeded (failed e) = some false
succeeded killed = some false
succeeded _ = none

-- What a condition asks of the end of the parent
abbrev pub wanted : DependencyCondition → Bool → Bool
wanted after_ok success = success
wanted after_not_ok success = not success
wanted after_any success = true

-- Whether the parent has ended as the condition asks; nothing while it is unknown or has not ended.
abbrev pub outcome_of : DependencyCondition → Option Bool → Option Bool
outcome_of c none = none
outcome_of c (some success) = some (wanted c success)

abbrev pub outcome : DependencyCondition → Option JobStatus → Option Bool
outcome c none = none
outcome c (some status) = outcome_of c (succeeded status)

-- A condition on a parent, of a spec or of a plain dependency
abbrev pub parent_outcome : Map ℕ JobInfo → Map ℕ JobStatus → DependencyCondition → ℕ → Option Bool
parent_outcome jobs db c id = outcome c (status_of jobs db id)

abbrev pub spec_outcome : (String → String) → Map ℕ JobInfo → Map ℕ JobStatus → String → Option Bool
spec_outcome lower jobs db text = elim (parse lower text) [
  | err e ↦ some false
  | ok spec ↦ parent_outcome jobs db spec.condition spec.parent_id
]

abbrev pub verdict_of : Result String Bool → Option Bool
verdict_of (ok true) = some true
verdict_of (ok false) = none
verdict_of (err e) = some false

abbrev pub Every {ℓ} : {A : Type ℓ} → (A → Option Bool) → List A → Type 0
Every p [] = Unit
Every p (x ∷ xs) = (p x ≡ some true) × Every p xs

abbrev pub Some {ℓ} : {A : Type ℓ} → (A → Option Bool) → List A → Type 0
Some p [] = ⊥
Some p (x ∷ xs) = (p x ≡ some false) ⊎ Some p xs

of_verdict : (r : Result String Bool) → verdict_of r ≡ some true → r ≡ ok true
of_verdict (ok true) h = refl
of_verdict (ok false) h = absurd (ground arith)
of_verdict (err e) h = absurd (ground arith)

verdict-check :
    (c : DependencyCondition) (id : ℕ) (st : JobStatus)
    → verdict_of (check c id st) ≡ outcome c (some st)
unfolding check
verdict-check after_ok id st = ground arith
verdict-check after_not_ok id st = ground arith
verdict-check after_any id st = ground arith

verdict-and_then-true :
    (r next : Result String Bool)
    → (verdict_of (and_then r next) ≡ some true)
      ↔ ((verdict_of r ≡ some true) × (verdict_of next ≡ some true))
verdict-and_then-true (ok true) next = (λ h. (refl, h), λ h. h.1)
verdict-and_then-true (ok false) next = (λ h. absurd (ground arith), λ h. absurd (ground arith))
verdict-and_then-true (err e) next = (λ h. absurd (ground arith), λ h. absurd (ground arith))

verdict-and_then-false :
    (r next : Result String Bool)
    → verdict_of (and_then r next) ≡ some false
    → (verdict_of r ≡ some false) ⊎ (verdict_of next ≡ some false)
verdict-and_then-false (ok true) next h = inr h
verdict-and_then-false (ok false) next h = absurd (ground arith)
verdict-and_then-false (err e) next h = inl refl

module _ {ℓ} {A : Type ℓ} (q : A → Result String Bool) (p : A → Option Bool)
    (same : (x : A) → verdict_of (q x) ≡ p x) where
  each_met : (xs : List A) → (verdict_of (check_each q xs) ≡ some true) ↔ Every p xs
  unfolding check_each
  each_met [] = (λ _. tt, λ _. refl)
  each_met (x ∷ xs) =
      let step = verdict-and_then-true (q x) (check_each q xs) in
      let rest = each_met xs in
      (
        λ h. (sym (same x) ∙ (step.0 h).0, rest.0 (step.0 h).1),
        λ h. step.1 (same x ∙ h.0, rest.1 h.1),
      )

  each_missed : (xs : List A) → verdict_of (check_each q xs) ≡ some false → Some p xs
  unfolding check_each
  each_missed [] h = absurd (ground arith)
  each_missed (x ∷ xs) h = elim (verdict-and_then-false (q x) (check_each q xs) h) [
    | inl e ↦ inl (sym (same x) ∙ e)
    | inr e ↦ inr (each_missed xs e)
  ]

module _ (lower : String → String) (jobs : Map ℕ JobInfo) (db : Map ℕ JobStatus) where
  verdict-check_parent :
      (c : DependencyCondition) (id : ℕ)
      → verdict_of (check_parent jobs db c id) ≡ parent_outcome jobs db c id
  unfolding check_parent
  verdict-check_parent c id = elim (Option-cases (status_of jobs db id)) [
    | inl e ↦ rw (e, check_parent) refl
    | inr (st, e) ↦ rw (e, check_parent) (verdict-check c id st)
  ]

  verdict-check_spec :
      (text : String) → verdict_of (check_spec lower jobs db text) ≡ spec_outcome lower jobs db text
  unfolding check_spec
  verdict-check_spec text = elim (Result-cases (parse lower text)) [
    | inl (spec, e) ↦
        rw (e, check_spec, spec_outcome) (verdict-check_parent spec.condition spec.parent_id)
    | inr (complaint, e) ↦ rw (e, check_spec, spec_outcome) refl
  ]

  -- The answer is yes exactly if every plain dependency has ended with success, and every spec parses
  -- and its parent has ended as its condition asks.
  pub dependencies_satisfied_iff :
      (job : JobInfo)
      → (dependencies_satisfied lower jobs db job ≡ ok true) ↔ (
          Every (parent_outcome jobs db after_ok) (opt job.dependencies)
          × Every (spec_outcome lower jobs db) (opt job.dependency_specs))
  unfolding dependencies_satisfied
  dependencies_satisfied_iff job =
      let deps =
        each_met (check_parent jobs db after_ok) (parent_outcome jobs db after_ok)
          (verdict-check_parent after_ok) (opt job.dependencies) in
      let specs =
        each_met (check_spec lower jobs db) (spec_outcome lower jobs db) verdict-check_spec
          (opt job.dependency_specs) in
      let both =
        verdict-and_then-true (check_each (check_parent jobs db after_ok) (opt job.dependencies))
          (check_each (check_spec lower jobs db) (opt job.dependency_specs)) in
      (
        λ h. let t = both.0 (ap verdict_of h) in (deps.0 t.0, specs.0 t.1),
        λ h. of_verdict _ (both.1 (deps.1 h.0, specs.1 h.1)),
      )

  -- If the answer is an error, then some plain dependency has ended without success, or some spec does
  -- not parse or its parent has ended otherwise than its condition asks.
  pub dependencies_never :
      (job : JobInfo) (complaint : String)
      → dependencies_satisfied lower jobs db job ≡ err complaint
      → Some (parent_outcome jobs db after_ok) (opt job.dependencies)
        ⊎ Some (spec_outcome lower jobs db) (opt job.dependency_specs)
  unfolding dependencies_satisfied
  dependencies_never job complaint h =
      elim (verdict-and_then-false
        (check_each (check_parent jobs db after_ok) (opt job.dependencies))
        (check_each (check_spec lower jobs db) (opt job.dependency_specs)) (ap verdict_of h)) [
          | inl e ↦ inl (
              each_missed (check_parent jobs db after_ok) (parent_outcome jobs db after_ok)
                (verdict-check_parent after_ok) (opt job.dependencies) e)
          | inr e ↦ inr (
              each_missed (check_spec lower jobs db) (spec_outcome lower jobs db) verdict-check_spec
                (opt job.dependency_specs) e)
        ]
