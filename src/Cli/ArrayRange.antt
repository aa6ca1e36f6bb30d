-- ===== src/Cli/ArrayRange.antt =====
-- `parse_array_range` of cli/src/main.rs: the indices of an array job.
pub mod Indices
pub mod Answer
use veloce_ce.Base.{
  dedup, ℕ, ◌+◌, ◌-◌, String, List, [], ◌∷◌, ◌++◌, Option, none, some, Result, ok, err, leb, ltb,
  length, if◌then◌else◌, split, has, parse_u32, parse_u64, parse_i32_as_usize, format, sort, ◌==◌,
  nat_eq, zero, suc, refl, ◌≡◌,
}

-- What a part between commas asks for
pub data Part : Type 0 where
  single : ℕ → Part
  range : ℕ → ℕ → ℕ → Part

head : List String → String
head [] = ""
head (s ∷ ss) = s

-- A range without a step has the step 1.
step_of : List String → Result String ℕ
step_of (bounds ∷ step ∷ more) = elim (parse_i32_as_usize step) [
  | none ↦ err "Invalid array step size"
  | some n ↦ ok n
]
step_of _ = ok 1

with_bounds : ℕ → String → List String → Result String Part
with_bounds step bounds (first ∷ last ∷ []) = elim (parse_u32 first) [
  | none ↦ err "Invalid array start"
  | some start ↦ elim (parse_u32 last) [
    | none ↦ err "Invalid array end"
    | some end ↦ ok (range start end step)
  ]
]
with_bounds step bounds _ = err (format ("Invalid array range: " ∷ bounds ∷ []))

read_range : List String → Result String Part
unfolding head step_of with_bounds
read_range inner_parts = elim (step_of inner_parts) [
  | err e ↦ err e
  | ok step ↦ with_bounds step (head inner_parts) (split b'-' (head inner_parts))
]

pub read_part : String → Result String Part
unfolding read_range
read_part part = if has b'-' part then read_range (split b':' part) else elim (parse_u32 part) [
  | none ↦ err "Invalid array discrete single value"
  | some val ↦ ok (single val)
]

-- `(start..=end).step_by(step)` for a step above 0, on fuel
pub step_by : ℕ → ℕ → ℕ → ℕ → List ℕ
step_by zero start end step = []
step_by (suc fuel) start end step =
    let rest = step_by fuel (start + step) end step in if leb start end then start ∷ rest else []

-- `step_by` panics if the step is 0.
pub indices_of : Part → Option (List ℕ)
unfolding step_by
indices_of (single val) = some (val ∷ [])
indices_of (range start end step) =
    if step == 0 then none else some (step_by (end + 1 - start) start end step)

-- The indices of the later parts stand behind those before.
pub with_others : List ℕ → Option (Result String (List ℕ)) → Option (Result String (List ℕ))
with_others is none = none
with_others is (some (err e)) = some (err e)
with_others is (some (ok others)) = some (ok (is ++ others))

-- The loop over the parts, up to the first error or panic
pub read_parts : List String → Option (Result String (List ℕ))
unfolding read_part indices_of with_others
read_parts [] = some (ok [])
read_parts (part ∷ parts) =
    let rest = read_parts parts in
    elim (read_part part) [
      | err e ↦ some (err e)
      | ok p ↦ elim (indices_of p) [ none ↦ none | some is ↦ with_others is rest ]
    ]

pub checked : List ℕ → Result String (List ℕ)
checked indices =
    if length indices == 0
    then err "Array range is empty"
    else if ltb 10000 (length indices)
    then err "Array range is too large (max 10000 tasks)"
    else ok indices

pub parse_array_range : String → Option (Result String (List ℕ))
unfolding read_parts checked
parse_array_range array_str = elim (read_parts (split b',' array_str)) [
  | none ↦ none
  | some (err e) ↦ some (err e)
  | some (ok indices) ↦ some (checked (dedup (sort indices)))
]

runs : parse_array_range "7,1-5:2,3" ≡ some (ok (1 ∷ 3 ∷ 5 ∷ 7 ∷ []))
unfolding parse_array_range split parse_u32 parse_u64 parse_i32_as_usize sort dedup
runs = refl

backwards : parse_array_range "1-5:-2" ≡ some (ok (1 ∷ []))
unfolding parse_array_range split parse_u32 parse_u64 parse_i32_as_usize sort dedup
backwards = refl

no_step : parse_array_range "1-5:0" ≡ none
unfolding parse_array_range split parse_u32 parse_u64 parse_i32_as_usize sort dedup
no_step = refl
