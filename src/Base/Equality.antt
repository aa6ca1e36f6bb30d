-- ===== src/Base/Equality.antt =====
-- Decidable equality as an instance, and lists used as sets and as multisets over it.
use Prim.Native.String.{String}
use text.Mathlib.Text.{◌==◌ as str_eq}
use text.Mathlib.TextEquality.{eq_iff}
use Prim.Native.Nat.{ℕ, ◌+◌, ◌<◌}
use mathlib.Core.Path.{◌≡◌, refl, ap}
use mathlib.Core.Logic.{◌↔◌, ◌⊎◌, inl, inr}
use mathlib.Core.Bool.{Bool, true, false, ◌&&◌, ◌||◌}
use mathlib.Core.List.{List, [], ◌∷◌, ◌++◌}
use native.Mathlib.Omega.{arith}
use veloce_ce.Base.Tests.{Bool-cases, nat_beq, nat_beq_iff, if◌then◌else◌}

-- A test that tells equal values apart from others
pub record Eq {κ} (K : Type κ) : Type κ where
  pub beq : K → K → Bool
  pub beq_correct : (a b : K) → (beq a b ≡ true) ↔ (a ≡ b)

infix 50 ◌==◌
abbrev pub ◌==◌ {κ} : {K : Type κ} ⦃test : Eq K⦄ → K → K → Bool
◌==◌ ⦃test⦄ = test.beq

instance abbrev pub string_eq : Eq String
string_eq = record { beq_correct = eq_iff; beq = str_eq }

instance abbrev pub nat_eq : Eq ℕ
nat_eq = record { beq_correct = nat_beq_iff; beq = nat_beq }

-- Equality of pairs, by the instances of the parts.
module _ {ℓ κ} {A : Type ℓ} {B : Type κ} ⦃d : Eq A⦄ ⦃e : Eq B⦄ where
  abbrev pub pair_beq : A × B → A × B → Bool
  pair_beq (a, b) (c, f) = d.beq a c && e.beq b f

  pub pair_beq_iff : (p q : A × B) → (pair_beq p q ≡ true) ↔ (p ≡ q)
  pair_beq_iff (a, b) (c, f) = (
    λ h. ground (arith, d.beq_correct a c, e.beq_correct b f),
    λ h. ground (
      arith,
      d.beq_correct a c,
      e.beq_correct b f,
      ap (λ (t : A × B). t.0) h,
      ap (λ (t : A × B). t.1) h,
    ),
  )

  instance abbrev pub pair_eq : Eq (A × B)
  pair_eq = record { beq = pair_beq; beq_correct = pair_beq_iff }

module _ {ℓ} {A : Type ℓ} ⦃e : Eq A⦄ where
  abbrev pub contains : A → List A → Bool
  contains a [] = false
  contains a (x ∷ xs) = x == a || contains a xs

  abbrev pub count : A → List A → ℕ
  count a [] = 0
  count a (x ∷ xs) = (if x == a then 1 else 0) + count a xs

  -- `HashSet::remove`
  abbrev pub without : A → List A → List A
  without a [] = []
  without a (x ∷ xs) = let rest = without a xs in if x == a then rest else x ∷ rest

  -- `HashSet::insert`
  abbrev pub adjoin : A → List A → List A
  adjoin a xs = if contains a xs then xs else a ∷ xs

  pub beq_refl : (a : A) → e.beq a a ≡ true
  beq_refl a = (e.beq_correct a a).1 refl

  pub count-append : (a : A) (xs ys : List A) → count a (xs ++ ys) ≡ count a xs + count a ys
  count-append a [] ys = omega arith
  count-append a (x ∷ xs) ys = omega (arith, count-append a xs ys)

  pub contains-append :
      (a : A) (xs ys : List A) → contains a (xs ++ ys) ≡ (contains a xs || contains a ys)
  contains-append a [] ys = refl
  contains-append a (x ∷ xs) ys = ground (arith, contains-append a xs ys)

  pub contains-without :
      (a b : A) (xs : List A)
      → contains b (without a xs) ≡ (if e.beq a b then false else contains b xs)
  contains-without a b [] = ground arith
  contains-without a b (x ∷ xs) =
      ground
        (arith, contains-without a b xs, e.beq_correct x a, e.beq_correct x b, e.beq_correct a b)

  pub contains-adjoin :
      (a b : A) (xs : List A) → contains b (adjoin a xs) ≡ (e.beq a b || contains b xs)
  contains-adjoin a b xs = ground (arith, e.beq_correct a b)

  pub contains-count : (a : A) (xs : List A) → contains a xs ≡ true → 0 < count a xs
  contains-count a [] h = ground arith
  contains-count a (x ∷ xs) h = ground (arith, contains-count a xs)

  pub not-contains-count : (a : A) (xs : List A) → contains a xs ≡ false → count a xs ≡ 0
  not-contains-count a [] h = refl
  not-contains-count a (x ∷ xs) h = ground (arith, not-contains-count a xs)

  -- A test by its two outcomes
  pub beq-cases : (a b : A) → (a ≡ b) ⊎ (e.beq a b ≡ false)
  beq-cases a b = elim (Bool-cases (e.beq a b)) [
    | inl h ↦ inl ((e.beq_correct a b).0 h)
    | inr h ↦ inr h
  ]
