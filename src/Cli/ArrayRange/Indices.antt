-- ===== src/Cli/ArrayRange/Indices.antt =====
-- The indices that the parts of an array range name, and those that the loop over them gives.
use veloce_ce.Base.{
  ℕ, ◌+◌, ◌-◌, ◌*◌, ◌≤◌, ◌<◌, String, true, List, [], ◌∷◌, some, Result, ok, err, leb, contains,
  ◌==◌, nat_eq, zero, suc, sym, subst, Bool-cases, beq-cases, ◌≡◌, ◌↔◌, ◌⊎◌, inl, inr, arith,
  nat_beq_iff,
}
use veloce_ce.Cli.ArrayRange.{Part, single, range, read_part, step_by, indices_of}

-- The indices that a part names
abbrev pub Names : Part → ℕ → Type 0
Names (single val) i = i ≡ val
Names (range start end step) i = (k : ℕ) × (i ≡ start + k * step) × (i ≤ end)

-- Some part between the commas reads as one with the property.
abbrev pub SomePart : (Result String Part → Type 0) → List String → Type 0
SomePart q [] = ⊥
SomePart q (part ∷ parts) = q (read_part part) ⊎ SomePart q parts

abbrev pub IsNaming : ℕ → Result String Part → Type 0
IsNaming i (ok p) = Names p i
IsNaming i (err e) = ⊥

abbrev pub IsStepless : Result String Part → Type 0
IsStepless (ok (range start end step)) = step ≡ 0
IsStepless _ = ⊥

-- The numbers of the list are those that some part names.
abbrev pub Chosen : List String → List ℕ → Type 0
Chosen parts is = (i : ℕ) → (contains i is ≡ true) ↔ SomePart (IsNaming i) parts

step_by-first :
    (fuel start end step i : ℕ)
    → contains i (step_by (suc fuel) start end step) ≡ true
    → (start ≤ end) × ((start ≡ i) ⊎ (contains i (step_by fuel (start + step) end step) ≡ true))
unfolding step_by
step_by-first fuel start end step i there = elim (Bool-cases (leb start end)) [
  | inl e ↦ (
    ground arith,
    elim (beq-cases start i) [
      | inl same ↦ inl same
      | inr other ↦ inr (ground (arith, nat_beq_iff start i))
    ],
  )
  | inr e ↦ absurd (ground arith)
]

-- The numbers that the loop gives are those of the range that the step reaches.
step_by-Names :
    (fuel start end step i : ℕ)
    → contains i (step_by fuel start end step) ≡ true
    → Names (range start end step) i
unfolding step_by
step_by-Names zero start end step i there = absurd (ground arith)
step_by-Names (suc fuel) start end step i there =
    let (le, one) = step_by-first fuel start end step i there in
    elim one [
      | inl same ↦ (0, omega arith, omega arith)
      | inr later ↦
          let (k, is, fits) = step_by-Names fuel (start + step) end step i later in
          (suc k, omega arith, fits)
    ]

Names-step_by :
    (fuel start end step k : ℕ)
    → 0 < step
    → end < start + fuel
    → start + k * step ≤ end
    → contains (start + k * step) (step_by fuel start end step) ≡ true
unfolding step_by
Names-step_by zero start end step k h f le = absurd (omega arith)
Names-step_by (suc fuel) start end step zero h f le =
    ground (arith, nat_beq_iff start (start + 0 * step))
Names-step_by (suc fuel) start end step (suc k) h f le =
    let here = Names-step_by fuel (start + step) end step k h (omega arith) (omega arith) in
    let same : start + step + k * step ≡ start + suc k * step = omega arith in
    let there = subst (λ i. contains i (step_by fuel (start + step) end step) ≡ true) same here in
    ground (arith, there)

pub indices_of-Names :
    (p : Part) (is : List ℕ) → indices_of p ≡ some is → (i : ℕ) → (contains i is ≡ true) ↔ Names p i
unfolding indices_of
indices_of-Names (single val) is h i =
    (λ t. ground (arith, h, nat_beq_iff val i), λ t. ground (arith, h, nat_beq_iff val i))
indices_of-Names (range start end step) is h i = elim (Bool-cases (step == 0)) [
  | inl e ↦ absurd (ground (arith, h, e))
  | inr e ↦
      let fuel = end + 1 - start in
      let listed : step_by fuel start end step ≡ is = ground (arith, h, e) in
      subst (λ l. (contains i l ≡ true) ↔ Names (range start end step) i) listed
        (
          step_by-Names fuel start end step i,
          λ (k, at, le).
              subst (λ j. contains j (step_by fuel start end step) ≡ true) (sym at)
                (Names-step_by fuel start end step k (ground (arith, e)) (omega arith)
                  (omega arith)),
        )
]
