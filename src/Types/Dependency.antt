-- ===== src/Types/Dependency.antt =====
-- `DependencySpec` of common/src/types/mod.rs and its parser.
pub mod RoundTrip
use veloce_ce.Base.{
  ℕ, ◌+◌, ◌-◌, ◌*◌, String, ◌≡◌, refl, ◌&&◌, List, [], ◌∷◌, Option, none, some, ltb, leb, nat_beq,
  ◌==◌, string_eq, if◌then◌else◌, Result, ok, err, format, split, parse_u64,
}

pub data DependencyCondition : Type 0 where
  after_ok after_not_ok after_any : DependencyCondition

pub record DependencySpec : Type 0 where
  pub parent_id : ℕ
  pub condition : DependencyCondition

abbrev pub condition_of : String → Option DependencyCondition
condition_of s =
    if s == "afterok"
    then some after_ok
    else if s == "afternotok"
    then some after_not_ok
    else if s == "afterany"
    then some after_any
    else none

with_parent : String → DependencyCondition → Option ℕ → Result String DependencySpec
with_parent part cond none = err (format ("Invalid parent job ID '" ∷ part ∷ "'" ∷ []))
with_parent part cond (some n) = ok (record { parent_id = n; condition = cond })

with_condition : String → String → Option DependencyCondition → Result String DependencySpec
unfolding with_parent
with_condition cond part none = err (format ("Unknown dependency condition '" ∷ cond ∷ "'" ∷ []))
with_condition cond part (some c) = with_parent part c (parse_u64 part)

-- The argument is `str::to_lowercase`.
parse_parts : (String → String) → String → List String → Result String DependencySpec
unfolding with_condition
parse_parts lower s (cond ∷ part ∷ []) = with_condition cond part (condition_of (lower cond))
parse_parts lower s _ =
    err (format ("Invalid dependency spec format '" ∷ s ∷ "'. Expected condition:parent_id" ∷ []))

unfoldable pub parse : (String → String) → String → Result String DependencySpec
unfolding parse_parts
parse lower s = parse_parts lower s (split b':' s)

parse_runs :
    parse (λ s. s) "afternotok:17" ≡ ok (record { parent_id = 17; condition = after_not_ok })
unfolding parse split parse_u64
parse_runs = refl
