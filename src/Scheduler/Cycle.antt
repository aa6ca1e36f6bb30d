-- ===== src/Scheduler/Cycle.antt =====
-- `has_cycle` of controller/src/scheduler/mod.rs: whether the dependencies of a job lead to another.
pub mod Edges
pub mod Found
pub mod Ends
use veloce_ce.Base.{
  ℕ, zero, suc, String, Bool, true, false, Option, none, some, List, [], ◌∷◌, ◌++◌, Map, get,
  nat_eq, nat_beq, contains, if◌then◌else◌, Result, ok, err,
}
use veloce_ce.Types.Job.{JobInfo}
use veloce_ce.Types.Dependency.{DependencySpec, parse}
use veloce_ce.Scheduler.Dependencies.{opt}

-- The parents of the specs that parse
pub spec_parents : (String → String) → List String → List ℕ
spec_parents lower [] = []
spec_parents lower (text ∷ texts) = elim (parse lower text) [
  | ok spec ↦ spec.parent_id ∷ spec_parents lower texts
  | err e ↦ spec_parents lower texts
]

-- The jobs that a job waits for, in the order of the two loops
pub parents : (String → String) → Map ℕ JobInfo → ℕ → List ℕ
parents lower jobs id = elim (get id jobs) [
  | none ↦ []
  | some job ↦ opt job.dependencies ++ spec_parents lower (opt job.dependency_specs)
]

-- The answer with the set of visited jobs; `none` is only for want of fuel.
abbrev pub Search : Type 0
Search = ℕ → List ℕ → Option (Bool × List ℕ)

-- The loops over the parents of a job, which stop at the first that leads to the target
pub search_each : Search → List ℕ → List ℕ → Option (Bool × List ℕ)
search_each search [] visited = some (false, visited)
search_each search (id ∷ ids) visited = elim (search id visited) [
  | none ↦ none
  | some (true, visited') ↦ some (true, visited')
  | some (false, visited') ↦ search_each search ids visited'
]

module _ (lower : String → String) (jobs : Map ℕ JobInfo) (target : ℕ) where
  pub has_cycle : ℕ → Search
  has_cycle zero current visited = none
  has_cycle (suc fuel) current visited =
      if nat_beq current target
      then some (true, visited)
      else if contains current visited
      then some (false, visited)
      else search_each (has_cycle fuel) (parents lower jobs current) (current ∷ visited)
