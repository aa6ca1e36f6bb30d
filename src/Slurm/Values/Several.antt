-- ===== src/Slurm/Values/Several.antt =====
-- Dependencies on several jobs, as Slurm writes them.
use veloce_ce.Base.{
  ℕ, ◌<◌, String, true, false, some, [], ◌∷◌, ◌==◌, string_eq, ok, err, format, decimal, u64_mod,
  split, split_once, split_plain, split-format, split_once-format, trim, trim_plain, plain-format,
  plain-decimal, is_plain, is_whitespace, has, beq-cases, inl, inr, has-format, has-decimal,
  all_chars, all_chars-format, all_chars-decimal, format-decimal_not_empty, ◌≡◌, refl, sym, ap, ◌∙◌,
  arith, format_one,
}
use veloce_ce.Types.Dependency.{DependencyCondition, after_ok, after_not_ok, after_any, parse}
use veloce_ce.Types.Dependency.RoundTrip.{name_of, parse-split}
use veloce_ce.Slurm.Values.{
  validate_dependency, validate_pieces, validate_piece, is_kind, is_id_char,
}

-- A condition on two jobs
abbrev pub on_both : DependencyCondition → ℕ → ℕ → String
on_both c a b = format (name_of c ∷ ":" ∷ decimal a ∷ ":" ∷ decimal b ∷ [])

names :
    (c : DependencyCondition)
    → (has b',' (name_of c) ≡ false)
      × (has b':' (name_of c) ≡ false)
      × (is_plain (name_of c) ≡ true)
      × (is_kind (name_of c) ≡ true)
unfolding is_whitespace
names after_ok = (refl, refl, refl, refl)
names after_not_ok = (refl, refl, refl, refl)
names after_any = (refl, refl, refl, refl)

id_chars : (n : ℕ) → n < u64_mod → all_chars is_id_char (decimal n) ≡ true
id_chars n h = all_chars-decimal is_id_char (λ c d. ground (arith, d)) n h

colon_plain : is_plain ":" ≡ true
unfolding is_whitespace
colon_plain = refl

module _ (c : DependencyCondition) (a b : ℕ) (ha : a < u64_mod) (hb : b < u64_mod) where
  no_comma : has b',' (on_both c a b) ≡ false
  no_comma =
      has-format b',' (name_of c ∷ ":" ∷ decimal a ∷ ":" ∷ decimal b ∷ [])
      ∙ ground (arith, (names c).0, has-decimal b',' a refl ha, has-decimal b',' b refl hb)

  plain : trim (on_both c a b) ≡ on_both c a b
  plain = trim_plain (on_both c a b) (
      plain-format (name_of c ∷ ":" ∷ decimal a ∷ ":" ∷ decimal b ∷ [])
      ∙ ground (arith, (names c).2, colon_plain, plain-decimal a ha, plain-decimal b hb))

  two_ids :
      split_once b':' (on_both c a b) ≡ some (name_of c, format (decimal a ∷ ":" ∷ decimal b ∷ []))
  two_ids = split_once-format ":" (name_of c) (decimal a ∷ ":" ∷ decimal b ∷ []) ((names c).1)

  three : split b':' (on_both c a b) ≡ name_of c ∷ decimal a ∷ split b':' (format (decimal b ∷ []))
  three =
      split-format ":" (name_of c) (decimal a ∷ ":" ∷ decimal b ∷ []) (names c).1
      ∙ ap (◌∷◌ (name_of c))
          (split-format ":" (decimal a) (decimal b ∷ []) (has-decimal b':' a refl ha))

  last : split b':' (format (decimal b ∷ [])) ≡ decimal b ∷ []
  last =
      ap (split b':') (format_one (decimal b))
      ∙ split_plain b':' (decimal b) (has-decimal b':' b refl hb)

  valid : validate_piece (on_both c a b) ≡ ok tt
  unfolding validate_piece
  valid =
      rw (two_ids, validate_piece)
        (ground (
          arith,
          (names c).3,
          format-decimal_not_empty a (":" ∷ decimal b ∷ []),
          all_chars-format is_id_char (decimal a ∷ ":" ∷ decimal b ∷ []),
          id_chars a ha,
          id_chars b hb,
        ))

  full : (on_both c a b == "") ≡ false
  unfolding split_once
  full = elim (beq-cases (on_both c a b) "") [
    | inl e ↦ let h = sym (ap (split_once b':') e) ∙ two_ids in absurd (ground (arith, h))
    | inr n ↦ n
  ]

  -- A dependency on two jobs, as in `afterok:1:2`, is accepted by `sbatch`, and is no dependency spec
  -- for the controller.
  pub validate_dependency-on_both :
      (lower : String → String)
      → (validate_dependency (on_both c a b) ≡ ok tt)
        × ((e : String) × (parse lower (on_both c a b) ≡ err e))
  unfolding validate_dependency validate_pieces
  validate_dependency-on_both lower =
      let text = on_both c a b in
      let one = split_plain b',' text no_comma in
      (
        rw (one, plain, full, valid, validate_pieces) refl,
        (_, parse-split lower text _ _ _ _ (three ∙ ap (λ ss. name_of c ∷ decimal a ∷ ss) last)),
      )
