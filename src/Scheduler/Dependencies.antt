-- ===== src/Scheduler/Dependencies.antt =====
-- `are_dependencies_satisfied` of controller/src/scheduler/mod.rs.
pub mod Verdict
use veloce_ce.Base.{
  ℕ, String, Bool, true, false, Option, none, some, List, [], ◌∷◌, Map, get, nat_eq, if◌then◌else◌,
  not, ℤ, is_zero, signed_decimal, decimal, format, Result, ok, err,
}
use veloce_ce.Types.Job.{JobInfo, JobStatus, pending, running, completed, failed, killed}
use veloce_ce.Types.Dependency.{
  DependencyCondition, after_ok, after_not_ok, after_any, DependencySpec, parse,
}

never : ℕ → List String → Result String Bool
never parent rest =
    err (format ("DependencyNeverSatisfied: parent job " ∷ decimal parent ∷ " " ∷ rest))

-- What the status of the parent says about the condition: met, to be waited for, or never met.
unfoldable pub check : DependencyCondition → ℕ → JobStatus → Result String Bool
unfolding never
check after_ok parent (completed code) =
    if is_zero code
    then ok true
    else never parent ("failed with exit code " ∷ signed_decimal code ∷ [])
check after_ok parent (failed e) = never parent ("failed with error: " ∷ e ∷ [])
check after_ok parent killed = never parent ("was cancelled" ∷ [])
check after_not_ok parent (completed code) =
    if is_zero code
    then never parent ("completed successfully but expected failure" ∷ [])
    else ok true
check after_not_ok parent (failed e) = ok true
check after_not_ok parent killed = ok true
check after_any parent (completed code) = ok true
check after_any parent (failed e) = ok true
check after_any parent killed = ok true
check _ parent _ = ok false

-- An active job first, then the cache of the accounting store
unfoldable pub status_of : Map ℕ JobInfo → Map ℕ JobStatus → ℕ → Option JobStatus
status_of jobs db_cache id = elim (get id jobs) [
  | some parent ↦ some parent.status
  | none ↦ get id db_cache
]

unfoldable pub check_parent :
    Map ℕ JobInfo → Map ℕ JobStatus → DependencyCondition → ℕ → Result String Bool
check_parent jobs db_cache condition id = elim (status_of jobs db_cache id) [
  | none ↦ ok false
  | some status ↦ check condition id status
]

-- Go on only if this one is met.
abbrev pub and_then : Result String Bool → Result String Bool → Result String Bool
and_then (ok true) next = next
and_then (ok false) next = ok false
and_then (err e) next = err e

-- The loop over a list of conditions: it returns at the first that is not met.
unfoldable pub check_each {ℓ} :
    {A : Type ℓ} → (A → Result String Bool) → List A → Result String Bool
check_each q [] = ok true
check_each q (x ∷ xs) = and_then (q x) (check_each q xs)

abbrev pub opt {ℓ} : {A : Type ℓ} → Option (List A) → List A
opt none = []
opt (some xs) = xs

module _ (lower : String → String) (jobs : Map ℕ JobInfo) (db_cache : Map ℕ JobStatus) where
  unfoldable pub check_spec : String → Result String Bool
  check_spec text = elim (parse lower text) [
    | ok spec ↦ check_parent jobs db_cache spec.condition spec.parent_id
    | err e ↦ err (format ("Invalid dependency spec '" ∷ text ∷ "': " ∷ e ∷ []))
  ]

  -- `are_dependencies_satisfied`: a missing list has nothing to check.
  unfoldable pub dependencies_satisfied : JobInfo → Result String Bool
  dependencies_satisfied job =
      and_then (check_each (check_parent jobs db_cache after_ok) (opt job.dependencies))
        (check_each check_spec (opt job.dependency_specs))
