-- ===== src/Base/Lists.antt =====
-- Lists measured and indexed by native numbers, ranges, and `sort_unstable`.
use Prim.Native.Nat.{ℕ, zero, suc, ◌+◌, ◌≤◌, min}
use mathlib.Core.Path.{◌≡◌, refl, ap}
use mathlib.Core.List.{List, [], ◌∷◌, ◌++◌}
use mathlib.Core.Bool.{Bool, true, false}
use mathlib.Core.Option.{Option, none, some}
use native.Mathlib.Omega.{arith}
use veloce_ce.Base.Tests.{leb, ltb, if◌then◌else◌}
use veloce_ce.Base.Equality.{count, nat_eq}

module _ {ℓ} {A : Type ℓ} where
  abbrev pub length : List A → ℕ
  length [] = 0
  length (x ∷ xs) = suc (length xs)

  abbrev pub take : ℕ → List A → List A
  take zero xs = []
  take (suc n) [] = []
  take (suc n) (x ∷ xs) = x ∷ take n xs

  abbrev pub drop : ℕ → List A → List A
  drop zero xs = xs
  drop (suc n) [] = []
  drop (suc n) (x ∷ xs) = drop n xs

  -- `filter` and `retain` of a Boolean test
  abbrev pub select : (A → Bool) → List A → List A
  select p [] = []
  select p (x ∷ xs) = let rest = select p xs in if p x then x ∷ rest else rest

  abbrev pub head? : List A → Option A
  head? [] = none
  head? (x ∷ xs) = some x

  abbrev pub is_empty : List A → Bool
  is_empty [] = true
  is_empty (x ∷ xs) = false

  pub length-append : (xs ys : List A) → length (xs ++ ys) ≡ length xs + length ys
  length-append [] ys = omega arith
  length-append (x ∷ xs) ys = omega (arith, length-append xs ys)

  pub take-append-drop : (n : ℕ) (xs : List A) → take n xs ++ drop n xs ≡ xs
  take-append-drop zero xs = refl
  take-append-drop (suc n) [] = refl
  take-append-drop (suc n) (x ∷ xs) = ap (◌∷◌ x) (take-append-drop n xs)

  pub length-take : (n : ℕ) (xs : List A) → length (take n xs) ≡ min n (length xs)
  length-take zero xs = omega arith
  length-take (suc n) [] = omega arith
  length-take (suc n) (x ∷ xs) = omega (arith, length-take n xs)

-- The numbers from `i`, `n` of them: `i..i + n`.
abbrev pub range_from : ℕ → ℕ → List ℕ
range_from i zero = []
range_from i (suc n) = i ∷ range_from (i + 1) n

-- `0..n`
abbrev pub range : ℕ → List ℕ
range = range_from 0

pub length-range_from : (i n : ℕ) → length (range_from i n) ≡ n
length-range_from i zero = refl
length-range_from i (suc n) = omega (arith, length-range_from (i + 1) n)

-- Each number of a range stands once in it.
pub count-range_from :
    (c i n : ℕ)
    → count c (range_from i n) ≡ (if leb i c then (if ltb c (i + n) then 1 else 0) else 0)
count-range_from c i zero = ground arith
count-range_from c i (suc n) = ground (arith, count-range_from c (i + 1) n)

pub count-range : (c n : ℕ) → count c (range n) ≡ (if ltb c n then 1 else 0)
count-range c n = ground (arith, count-range_from c 0 n)

abbrev pub sorted_insert : ℕ → List ℕ → List ℕ
sorted_insert x [] = x ∷ []
sorted_insert x (y ∷ ys) = if leb x y then x ∷ y ∷ ys else y ∷ sorted_insert x ys

-- `sort_unstable`
unfoldable pub sort : List ℕ → List ℕ
sort [] = []
sort (x ∷ xs) = sorted_insert x (sort xs)

abbrev pub IsSorted : List ℕ → Type 0
IsSorted [] = Unit
IsSorted (x ∷ []) = Unit
IsSorted (x ∷ y ∷ ys) = (x ≤ y) × IsSorted (y ∷ ys)

count-sorted_insert : (c x : ℕ) (ys : List ℕ) → count c (sorted_insert x ys) ≡ count c (x ∷ ys)
count-sorted_insert c x [] = refl
count-sorted_insert c x (y ∷ ys) = ground (arith, count-sorted_insert c x ys)

pub count-sort : (c : ℕ) (xs : List ℕ) → count c (sort xs) ≡ count c xs
unfolding sort
count-sort c [] = refl
count-sort c (x ∷ xs) = omega (arith, count-sorted_insert c x (sort xs), count-sort c xs)

length-sorted_insert : (x : ℕ) (ys : List ℕ) → length (sorted_insert x ys) ≡ suc (length ys)
length-sorted_insert x [] = refl
length-sorted_insert x (y ∷ ys) = ground (arith, length-sorted_insert x ys)

pub length-sort : (xs : List ℕ) → length (sort xs) ≡ length xs
unfolding sort
length-sort [] = refl
length-sort (x ∷ xs) = omega (arith, length-sorted_insert x (sort xs), length-sort xs)

sorted_insert-IsSorted : (x : ℕ) (ys : List ℕ) → IsSorted ys → IsSorted (sorted_insert x ys)
sorted_insert-IsSorted x [] h = tt
sorted_insert-IsSorted x (y ∷ []) h = ground arith
sorted_insert-IsSorted x (y ∷ z ∷ zs) h = ground (arith, sorted_insert-IsSorted x (z ∷ zs) h.1)

pub sort-IsSorted : (xs : List ℕ) → IsSorted (sort xs)
unfolding sort
sort-IsSorted [] = tt
sort-IsSorted (x ∷ xs) = sorted_insert-IsSorted x (sort xs) (sort-IsSorted xs)
