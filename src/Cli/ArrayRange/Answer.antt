-- ===== src/Cli/ArrayRange/Answer.antt =====
-- What `parse_array_range` of cli/src/main.rs answers.
use veloce_ce.Base.{
  dedup, IsAscending, contains-sort, contains-dedup, dedup-IsAscending, ℕ, ◌≤◌, ◌<◌, String, List,
  [], ◌∷◌, ◌++◌, Option, none, some, Result, ok, err, ltb, length, split, sort, sort-IsSorted,
  contains, contains-append, ◌==◌, nat_eq, refl, sym, subst, Bool-cases, ◌∙◌, ◌≡◌, ◌⊎◌, inl, inr,
  arith, Result-cases, Option-cases, nat_beq_iff,
}
use veloce_ce.Cli.ArrayRange.{
  Part, single, range, read_part, indices_of, read_parts, with_others, checked, parse_array_range,
}
use veloce_ce.Cli.ArrayRange.Indices.{SomePart, IsNaming, IsStepless, Chosen, indices_of-Names}

indices_of-IsStepless : (p : Part) → indices_of p ≡ none → IsStepless (ok p)
unfolding indices_of
indices_of-IsStepless (single val) h = absurd (ground (arith, h))
indices_of-IsStepless (range start end step) h = ground (arith, h, nat_beq_iff step 0)

abbrev ReadAll : List String → Option (Result String (List ℕ)) → Type 0
ReadAll parts none = SomePart IsStepless parts
ReadAll parts (some (err e)) = SomePart (λ r. r ≡ err e) parts
ReadAll parts (some (ok is)) = Chosen parts is

append-Chosen :
    (part : String) (parts : List String) (p : Part) (ns others : List ℕ)
    → read_part part ≡ ok p
    → indices_of p ≡ some ns
    → Chosen parts others
    → Chosen (part ∷ parts) (ns ++ others)
append-Chosen part parts p ns others a b h i =
    let here = indices_of-Names p ns b i in
    let both = contains-append i ns others in
    (
      λ t. elim (Bool-cases (contains i ns)) [
        | inl u ↦ inl (subst (IsNaming i) (sym a) (here.0 u))
        | inr u ↦ inr ((h i).0 (ground (arith, t, u, both)))
      ],
      λ s. elim s [
        | inl m ↦ let u = here.1 (subst (IsNaming i) a m) in ground (arith, u, both)
        | inr m ↦ let u = (h i).1 m in ground (arith, u, both)
      ],
    )

with_others-ReadAll :
    (part : String) (parts : List String) (p : Part) (ns : List ℕ)
    → read_part part ≡ ok p
    → indices_of p ≡ some ns
    → (r : Option (Result String (List ℕ))) → ReadAll parts r
    → ReadAll (part ∷ parts) (with_others ns r)
unfolding with_others
with_others-ReadAll part parts p ns a b none h = inr h
with_others-ReadAll part parts p ns a b (some (err e)) h = inr h
with_others-ReadAll part parts p ns a b (some (ok others)) h =
    append-Chosen part parts p ns others a b h

read_parts-ReadAll : (parts : List String) → ReadAll parts (read_parts parts)
unfolding read_parts
read_parts-ReadAll [] = λ i. (λ t. absurd (ground (arith, t)), λ m. absurd m)
read_parts-ReadAll (part ∷ parts) =
    let by =
      λ (r : Option (Result String (List ℕ))) (e : read_parts (part ∷ parts) ≡ r)
          (h : ReadAll (part ∷ parts) r).
        subst (ReadAll (part ∷ parts)) (sym e) h in
    elim (Result-cases (read_part part)) [
      | inr (e, a) ↦ by (some (err e)) (rw (a, read_parts) refl) (inl a)
      | inl (p, a) ↦ elim (Option-cases (indices_of p)) [
        | inl b ↦
            by none (rw (a, b, read_parts) refl)
              (inl (subst IsStepless (sym a) (indices_of-IsStepless p b)))
        | inr (ns, b) ↦
            by (with_others ns (read_parts parts)) (rw (a, b, read_parts) refl) (
              with_others-ReadAll part parts p ns a b (read_parts parts) (read_parts-ReadAll parts))
      ]
    ]

-- What the answer says of the text
abbrev pub IsAnswer : String → Option (Result String (List ℕ)) → Type 0
IsAnswer s none = SomePart IsStepless (split b',' s)
IsAnswer s (some (err e)) =
    SomePart (λ r. r ≡ err e) (split b',' s)
    ⊎ ((is : List ℕ) × Chosen (split b',' s) is
        × IsAscending is
        × ((length is ≡ 0) ⊎ (10000 < length is)))
IsAnswer s (some (ok is)) =
    Chosen (split b',' s) is × IsAscending is × (0 < length is) × (length is ≤ 10000)

checked-IsAnswer :
    (s : String) (is : List ℕ)
    → Chosen (split b',' s) is
    → IsAscending is
    → IsAnswer s (some (checked is))
unfolding checked
checked-IsAnswer s is c asc = elim (Bool-cases (length is == 0)) [
  | inl z ↦ rw (z) (inr (is, c, asc, inl (ground (arith, z, nat_beq_iff (length is) 0))))
  | inr z ↦ elim (Bool-cases (ltb 10000 (length is))) [
    | inl big ↦ rw (z, big) (inr (is, c, asc, inr (ground arith)))
    | inr small ↦ rw (z, small) (c, asc, ground arith, ground arith)
  ]
]

parsed-IsAnswer :
    (s : String) (r : Option (Result String (List ℕ)))
    → read_parts (split b',' s) ≡ r
    → ReadAll (split b',' s) r
    → IsAnswer s (parse_array_range s)
unfolding parse_array_range
parsed-IsAnswer s none e h = rw (e, parse_array_range) h
parsed-IsAnswer s (some (err m)) e h = rw (e, parse_array_range) (inl h)
parsed-IsAnswer s (some (ok is)) e h =
    rw (e, parse_array_range)
      (checked-IsAnswer s (dedup (sort is))
        (λ i. (
          λ t. (h i).0 (sym (contains-sort i is) ∙ sym (contains-dedup i (sort is)) ∙ t),
          λ m. contains-dedup i (sort is) ∙ contains-sort i is ∙ (h i).1 m,
        ))
        (dedup-IsAscending (sort is) (sort-IsSorted is)))

-- A panic means that some part is a range with the step 0; an error is that of a part that does not
-- read, or the indices that the parts name are none or more than 10000; else the answer is these
-- indices, in ascending order, at least one and at most 10000.
pub parse_array_range-IsAnswer : (s : String) → IsAnswer s (parse_array_range s)
parse_array_range-IsAnswer s =
    parsed-IsAnswer s (read_parts (split b',' s)) refl (read_parts-ReadAll (split b',' s))
