-- ===== src/Cli/Dependencies.antt =====
-- How `submit` of cli/src/main.rs reads `--dependency`: the ids and the specs that it sends.
pub mod Success
use veloce_ce.Base.{
  ℕ, String, Option, none, some, List, [], ◌∷◌, ◌==◌, string_eq, if◌then◌else◌, ok, err, split,
  trim,
}
use veloce_ce.Types.Dependency.{parse}

-- `if v.is_empty() { None } else { Some(v) }`
unfoldable pub unless_empty {ℓ} : {A : Type ℓ} → List A → Option (List A)
unless_empty [] = none
unless_empty (x ∷ xs) = some (x ∷ xs)

module _ (lower : String → String) where
  -- The ids of the parts that parse, and all parts that are not empty
  unfoldable pub read_parts : List String → List ℕ × List String
  read_parts [] = ([], [])
  read_parts (part ∷ parts) =
      let (ids, specs) = read_parts parts in
      let trimmed = trim part in
      if trimmed == "" then (ids, specs) else (
        (elim (parse lower trimmed) [ ok spec ↦ spec.parent_id ∷ ids | err e ↦ ids ]),
        trimmed ∷ specs,
      )

  unfoldable pub read_dependency : Option String → Option (List ℕ) × Option (List String)
  unfolding read_parts unless_empty
  read_dependency none = (none, none)
  read_dependency (some dep_str) =
      let (ids, specs) = read_parts (split b',' dep_str) in (unless_empty ids, unless_empty specs)
