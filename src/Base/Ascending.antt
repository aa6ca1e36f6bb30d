-- ===== src/Base/Ascending.antt =====
-- `Vec::dedup`, and lists in strictly ascending order.
use Prim.Native.Nat.{ℕ, ◌<◌}
use mathlib.Core.Path.{◌≡◌, refl, sym, ap, subst, ◌∙◌}
use mathlib.Core.Logic.{inl, inr}
use mathlib.Core.List.{List, [], ◌∷◌}
use mathlib.Core.Bool.{◌||◌}
use native.Mathlib.Omega.{arith}
use veloce_ce.Base.Tests.{nat_beq_iff, if◌then◌else◌, Bool-cases}
use veloce_ce.Base.Equality.{nat_eq, ◌==◌, contains, beq-cases}
use veloce_ce.Base.Lists.{sort, sorted_insert, IsSorted}

-- `Vec::dedup`
unfoldable pub dedup : List ℕ → List ℕ
dedup [] = []
dedup (x ∷ []) = x ∷ []
dedup (x ∷ y ∷ ys) = let rest = dedup (y ∷ ys) in if x == y then rest else x ∷ rest

abbrev pub IsAscending : List ℕ → Type 0
IsAscending [] = Unit
IsAscending (x ∷ []) = Unit
IsAscending (x ∷ y ∷ ys) = (x < y) × IsAscending (y ∷ ys)

contains-sorted_insert :
    (c x : ℕ) (ys : List ℕ) → contains c (sorted_insert x ys) ≡ contains c (x ∷ ys)
contains-sorted_insert c x [] = refl
contains-sorted_insert c x (y ∷ ys) = ground (arith, contains-sorted_insert c x ys)

pub contains-sort : (c : ℕ) (xs : List ℕ) → contains c (sort xs) ≡ contains c xs
unfolding sort
contains-sort c [] = refl
contains-sort c (x ∷ xs) =
    contains-sorted_insert c x (sort xs) ∙ ap (◌||◌ (x == c)) (contains-sort c xs)

pub contains-dedup : (c : ℕ) (xs : List ℕ) → contains c (dedup xs) ≡ contains c xs
unfolding dedup
contains-dedup c [] = refl
contains-dedup c (x ∷ []) = refl
contains-dedup c (x ∷ y ∷ ys) =
    ground (arith, contains-dedup c (y ∷ ys), nat_beq_iff x y, nat_beq_iff x c, nat_beq_iff y c)

dedup-head : (y : ℕ) (ys : List ℕ) → (zs : List ℕ) × (dedup (y ∷ ys) ≡ y ∷ zs)
unfolding dedup
dedup-head y [] = ([], refl)
dedup-head y (z ∷ zs) = elim (beq-cases y z) [
  | inl e ↦ let (rest, h) = dedup-head z zs in (rest, ground (arith, nat_beq_iff y z))
  | inr e ↦ (dedup (z ∷ zs), ground arith)
]

ascends :
    (x y : ℕ) (ys : List ℕ)
    → x < y
    → IsAscending (dedup (y ∷ ys))
    → IsAscending (x ∷ dedup (y ∷ ys))
ascends x y ys h asc =
    let (zs, e) = dedup-head y ys in
    subst (λ l. IsAscending (x ∷ l)) (sym e) (h, subst IsAscending e asc)

pub dedup-IsAscending : (xs : List ℕ) → IsSorted xs → IsAscending (dedup xs)
unfolding dedup
dedup-IsAscending [] h = tt
dedup-IsAscending (x ∷ []) h = tt
dedup-IsAscending (x ∷ y ∷ ys) h =
    let asc = dedup-IsAscending (y ∷ ys) h.1 in
    elim (Bool-cases (x == y)) [
      | inl e ↦ rw (e) asc
      | inr e ↦ rw (e) (ascends x y ys (ground (arith, nat_beq_iff x y)) asc)
    ]
