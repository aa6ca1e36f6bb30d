-- ===== src/Types/Dependency/RoundTrip.antt =====
-- The text `condition:parent` of a dependency spec.
use veloce_ce.Base.{
  ◌<◌, String, false, ◌≡◌, refl, ap, ◌∙◌, arith, List, [], ◌∷◌, some, u64_mod, ok, err, format,
  decimal, split, has, has-decimal, split-format, split_plain, format_one, parse_u64-decimal,
}
use veloce_ce.Types.Dependency.{
  DependencyCondition, after_ok, after_not_ok, after_any, DependencySpec, parse, condition_of,
}

abbrev pub name_of : DependencyCondition → String
name_of after_ok = "afterok"
name_of after_not_ok = "afternotok"
name_of after_any = "afterany"

abbrev pub text : DependencySpec → String
text d = format (name_of d.condition ∷ ":" ∷ decimal d.parent_id ∷ [])

name_has_no_colon : (c : DependencyCondition) → has b':' (name_of c) ≡ false
name_has_no_colon after_ok = refl
name_has_no_colon after_not_ok = refl
name_has_no_colon after_any = refl

condition_of-name : (c : DependencyCondition) → condition_of (name_of c) ≡ some c
condition_of-name after_ok = refl
condition_of-name after_not_ok = refl
condition_of-name after_any = refl

split-text :
    (d : DependencySpec)
    → d.parent_id < u64_mod
    → split b':' (text d) ≡ name_of d.condition ∷ decimal d.parent_id ∷ []
split-text d h =
    split-format ":" (name_of d.condition) (decimal d.parent_id ∷ [])
      (name_has_no_colon d.condition)
    ∙ ap (◌∷◌ (name_of d.condition)) (
        ap (split b':') (format_one (decimal d.parent_id))
        ∙ split_plain b':' (decimal d.parent_id) (has-decimal b':' d.parent_id refl h))

-- If lowering leaves the three names as they are, and the parent is a u64, the text of a spec is
-- parsed to the spec.
pub parse-text :
    (lower : String → String) (d : DependencySpec)
    → ((c : DependencyCondition) → lower (name_of c) ≡ name_of c)
    → d.parent_id < u64_mod
    → parse lower (text d) ≡ ok d
unfolding parse
parse-text lower d same h = rw (split-text d h) (
    ground
      (arith, same d.condition, condition_of-name d.condition, parse_u64-decimal d.parent_id h))

-- A text with a second colon is not a dependency spec.
pub parse-split :
    (lower : String → String) (s a b c : String) (more : List String)
    → split b':' s ≡ a ∷ b ∷ c ∷ more
    → parse lower s
      ≡ err
          (format ("Invalid dependency spec format '" ∷ s ∷ "'. Expected condition:parent_id" ∷ []))
unfolding parse
parse-split lower s a b c more h = rw (h) refl
