-- ===== src/Cli/Dependencies/Success.antt =====
-- What the scheduler makes of the dependencies that `submit` sends.
use veloce_ce.Base.{
  ℕ, String, Bool, Bool-cases, true, false, Option, some, List, [], ◌∷◌, Map, ◌==◌, string_eq,
  nat_eq, contains, ok, split, trim, beq-cases, ◌||◌, ◌≡◌, ◌≢◌, refl, subst, ap, ◌∙◌, arith, inl,
  inr, Result-cases,
}
use veloce_ce.Types.Job.{JobInfo, JobStatus}
use veloce_ce.Types.Dependency.{DependencySpec, after_ok, after_not_ok, parse}
use veloce_ce.Scheduler.Dependencies.{dependencies_satisfied, opt, status_of}
use veloce_ce.Scheduler.Dependencies.Verdict.{
  Every, parent_outcome, spec_outcome, dependencies_satisfied_iff, outcome,
}
use veloce_ce.Cli.Dependencies.{read_parts, unless_empty, read_dependency}

opt-unless_empty {ℓ} : {A : Type ℓ} (xs : List A) → opt (unless_empty xs) ≡ xs
unfolding unless_empty
opt-unless_empty [] = refl
opt-unless_empty (x ∷ xs) = refl

module _ (lower : String → String) (p : ℕ → Option Bool) (q : String → Option Bool) where
  pub All : List String → Type 0
  All parts = Every p (read_parts lower parts).0 × Every q (read_parts lower parts).1

  All-tail : (x : String) (xs : List String) → All (x ∷ xs) → All xs
  unfolding All read_parts
  All-tail x xs = elim (Bool-cases (trim x == "")) [
    | inl e ↦ rw (e) (λ h. h)
    | inr e ↦ elim (Result-cases (parse lower (trim x))) [
      | inl (spec, f) ↦ rw (e, f) (λ h. (h.0.1, h.1.1))
      | inr (complaint, f) ↦ rw (e, f) (λ h. (h.0, h.1.1))
    ]
  ]

  module _ (spec : DependencySpec) (part : String) (full : (trim part == "") ≡ false)
      (parsed : parse lower (trim part) ≡ ok spec) where
    All-head :
        (xs : List String)
        → All (part ∷ xs)
        → (p spec.parent_id ≡ some true) × (q (trim part) ≡ some true)
    unfolding All read_parts
    All-head xs = rw (full, parsed) (λ h. (h.0.0, h.1.0))

    All-part :
        (parts : List String)
        → contains part parts ≡ true
        → All parts
        → (p spec.parent_id ≡ some true) × (q (trim part) ≡ some true)
    All-part [] there all = absurd (ground arith)
    All-part (x ∷ xs) there all = elim (beq-cases x part) [
      | inl e ↦ All-head xs (subst (λ y. All (y ∷ xs)) e all)
      | inr e ↦
          All-part xs (subst (λ b. (b || contains part xs) ≡ true) e there) (All-tail x xs all)
    ]

not_both :
    (status : Option JobStatus)
    → outcome after_ok status ≡ some true
    → outcome after_not_ok status ≡ some true
    → ⊥
not_both status a b = ground arith

spec_as_asked :
    (lower : String → String) (jobs : Map ℕ JobInfo) (db : Map ℕ JobStatus) (spec : DependencySpec)
    (text : String)
    → parse lower text ≡ ok spec
    → spec.condition ≡ after_not_ok
    → spec_outcome lower jobs db text ≡ some true
    → parent_outcome jobs db after_not_ok spec.parent_id ≡ some true
spec_as_asked lower jobs db spec text parsed is = rw (parsed, is, spec_outcome) (λ h. h)

-- If a job has the dependencies that `submit` reads from a text, and the scheduler finds them
-- satisfied, then for each part that parses, whatever its condition, the parent has ended with
-- success, and the condition is not `afternotok`.
pub dependencies_satisfied-read_dependency :
    (lower : String → String) (jobs : Map ℕ JobInfo) (db : Map ℕ JobStatus) (job : JobInfo)
    (text part : String) (spec : DependencySpec)
    → job.dependencies ≡ (read_dependency lower (some text)).0
    → job.dependency_specs ≡ (read_dependency lower (some text)).1
    → contains part (split b',' text) ≡ true
    → (trim part == "") ≡ false
    → parse lower (trim part) ≡ ok spec
    → dependencies_satisfied lower jobs db job ≡ ok true
    → (parent_outcome jobs db after_ok spec.parent_id ≡ some true) × (spec.condition ≢ after_not_ok)
unfolding read_dependency All
dependencies_satisfied-read_dependency lower jobs db job text part spec ids specs there full parsed
      satisfied =
    let sent = (dependencies_satisfied_iff lower jobs db job).0 satisfied in
    let p = parent_outcome jobs db after_ok in
    let q = spec_outcome lower jobs db in
    let parts = split b',' text in
    let ids_met =
      subst (Every p) (ap opt ids ∙ opt-unless_empty (read_parts lower parts).0) sent.0 in
    let specs_met =
      subst (Every q) (ap opt specs ∙ opt-unless_empty (read_parts lower parts).1) sent.1 in
    let both = All-part lower p q spec part full parsed parts there (ids_met, specs_met) in
    (
      both.0,
      λ is.
          not_both (status_of jobs db spec.parent_id) both.0
            (spec_as_asked lower jobs db spec (trim part) parsed is both.1),
    )
