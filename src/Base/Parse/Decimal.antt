-- ===== src/Base/Parse/Decimal.antt =====
-- The decimal display of a number, read again by `parse::<u64>`.
use Prim.Native.Char.{Char, code}
use Prim.Native.Nat.{ℕ, zero, suc, ◌+◌, ◌-◌, ◌*◌, ◌/◌, ◌%◌, ◌<◌}
use Prim.Native.String.{String, ◌++◌}
use Prim.Native.String.append
use mathlib.Core.Bool.{Bool, true, false, ◌&&◌, ◌||◌}
use mathlib.Core.List.{[], ◌∷◌}
use mathlib.Core.Option.{Option, none, some}
use mathlib.Core.Path.{◌≡◌, refl, ap, ◌∙◌}
use mathlib.Core.Logic.{inl, inr}
use native.Mathlib.Omega.{arith}
use veloce_ce.Base.Tests.{ltb, leb, nat_beq, u64_mod, Bool-cases}
use veloce_ce.Base.Text.{decimal, digit, decimal_fuel}
use veloce_ce.Base.Parse.{digits, parse_u64, split, push_char, split_once}

-- The digits go on with what they have read.
abbrev then_digits : Option ℕ → String → Option ℕ
then_digits none t = none
then_digits (some m) t = digits m t

digits-append : (n : ℕ) (s t : String) → digits n (s ++ t) ≡ then_digits (digits n s) t
unfolding digits
digits-append n String.[] t = ap (digits n) (append.nil t)
digits-append n (String.◌∷◌ c s) t =
    rw (append.cons c s t) (ground (arith, digits-append (n * 10 + (code c - b'0')) s t))

digits-digit : (m d : ℕ) → d < 10 → m * 10 + d < u64_mod → digits m (digit d) ≡ some (m * 10 + d)
unfolding digits digit
digits-digit m zero h k = ground arith
digits-digit m (suc zero) h k = ground arith
digits-digit m (suc (suc zero)) h k = ground arith
digits-digit m (suc (suc (suc zero))) h k = ground arith
digits-digit m (suc (suc (suc (suc zero)))) h k = ground arith
digits-digit m (suc (suc (suc (suc (suc zero))))) h k = ground arith
digits-digit m (suc (suc (suc (suc (suc (suc zero)))))) h k = ground arith
digits-digit m (suc (suc (suc (suc (suc (suc (suc zero))))))) h k = ground arith
digits-digit m (suc (suc (suc (suc (suc (suc (suc (suc zero)))))))) h k = ground arith
digits-digit m (suc (suc (suc (suc (suc (suc (suc (suc (suc d))))))))) h k =
    let nine : d ≡ 0 = omega arith in rw nine (ground arith)

abbrev pow10 : ℕ → ℕ
pow10 zero = 1
pow10 (suc f) = 10 * pow10 f

pow10_above : (f : ℕ) → 1 < pow10 f → 0 < f
pow10_above zero h = absurd (omega arith)
pow10_above (suc f) h = omega arith

digits-decimal_fuel :
    (f n : ℕ) → n < pow10 f → n < u64_mod → 0 < f → digits 0 (decimal_fuel f n) ≡ some n
unfolding decimal_fuel
digits-decimal_fuel zero n h k p = absurd (omega arith)
digits-decimal_fuel (suc f) n h k p = elim (Bool-cases (ltb n 10)) [
  | inl small ↦ rw small (digits-digit 0 n (ground arith) (ground arith) ∙ ap some (omega arith))
  | inr large ↦ rw large (
      digits-append 0 (decimal_fuel f (n / 10)) (digit (n % 10))
      ∙ rw
          (digits-decimal_fuel f (n / 10) (omega arith) (omega arith)
            (pow10_above f (ground arith)))
          (digits-digit (n / 10) (n % 10) (omega arith) (omega arith) ∙ ap some (omega arith)))
]

pub digits-decimal : (n : ℕ) → n < u64_mod → digits 0 (decimal n) ≡ some n
unfolding decimal
digits-decimal n h = digits-decimal_fuel 20 n (omega arith) h (omega arith)

-- A text with a first character
abbrev pub IsNonEmpty : String → Type 0
IsNonEmpty s = (c : Char) × (t : String) × (s ≡ String.◌∷◌ c t)

append-IsNonEmpty : (s t : String) → IsNonEmpty t → IsNonEmpty (s ++ t)
append-IsNonEmpty String.[] t (c, u, e) = (c, u, append.nil t ∙ e)
append-IsNonEmpty (String.◌∷◌ c s) t h = (c, s ++ t, append.cons c s t)

digit-IsNonEmpty : (d : ℕ) → IsNonEmpty (digit d)
unfolding digit
digit-IsNonEmpty zero = ("0", "", refl)
digit-IsNonEmpty (suc zero) = ("1", "", refl)
digit-IsNonEmpty (suc (suc zero)) = ("2", "", refl)
digit-IsNonEmpty (suc (suc (suc zero))) = ("3", "", refl)
digit-IsNonEmpty (suc (suc (suc (suc zero)))) = ("4", "", refl)
digit-IsNonEmpty (suc (suc (suc (suc (suc zero))))) = ("5", "", refl)
digit-IsNonEmpty (suc (suc (suc (suc (suc (suc zero)))))) = ("6", "", refl)
digit-IsNonEmpty (suc (suc (suc (suc (suc (suc (suc zero))))))) = ("7", "", refl)
digit-IsNonEmpty (suc (suc (suc (suc (suc (suc (suc (suc zero)))))))) = ("8", "", refl)
digit-IsNonEmpty (suc (suc (suc (suc (suc (suc (suc (suc (suc d))))))))) = ("9", "", refl)

pub decimal-IsNonEmpty : (n : ℕ) → IsNonEmpty (decimal n)
unfolding decimal decimal_fuel
decimal-IsNonEmpty n = elim (Bool-cases (ltb n 10)) [
  | inl small ↦ rw small (digit-IsNonEmpty n)
  | inr large ↦ rw large (append-IsNonEmpty _ (digit (n % 10)) (digit-IsNonEmpty (n % 10)))
]

abbrev pub starts : String → Bool
starts String.[] = false
starts (String.◌∷◌ c s) = true

-- A sign in front is no digit.
parse_u64-digits : (s : String) {n : ℕ} → IsNonEmpty s → digits 0 s ≡ some n → parse_u64 s ≡ some n
unfolding parse_u64 digits
parse_u64-digits String.[] (c, t, e) h = absurd (ground (arith, ap starts e))
parse_u64-digits (String.◌∷◌ c s) p h = ground arith

-- A displayed u64 is read as the same number.
pub parse_u64-decimal : (n : ℕ) → n < u64_mod → parse_u64 (decimal n) ≡ some n
parse_u64-decimal n h = parse_u64-digits (decimal n) (decimal-IsNonEmpty n) (digits-decimal n h)

-- Does the character stand in the text?
abbrev pub has : ℕ → String → Bool
has sep String.[] = false
has sep (String.◌∷◌ c s) = nat_beq (code c) sep || has sep s

digits-has :
    (sep m : ℕ) (s : String) (n : ℕ)
    → (leb b'0' sep && leb sep b'9') ≡ false
    → digits m s ≡ some n
    → has sep s ≡ false
unfolding digits
digits-has sep m String.[] n h p = refl
digits-has sep m (String.◌∷◌ c s) n h p =
    ground (arith, digits-has sep (m * 10 + (code c - b'0')) s n)

-- A displayed number has only digits.
pub has-decimal :
    (sep n : ℕ) → (leb b'0' sep && leb sep b'9') ≡ false → n < u64_mod → has sep (decimal n) ≡ false
has-decimal sep n h k = digits-has sep 0 (decimal n) n h (digits-decimal n k)

pub split_plain : (sep : ℕ) (s : String) → has sep s ≡ false → split sep s ≡ s ∷ []
unfolding split push_char
split_plain sep String.[] h = refl
split_plain sep (String.◌∷◌ c s) h = ground (arith, split_plain sep s)

-- A text splits at its first separator.
pub split-append :
    (c : Char) (s t : String)
    → has (code c) s ≡ false
    → split (code c) (s ++ String.◌∷◌ c t) ≡ s ∷ split (code c) t
unfolding split push_char
split-append c String.[] t h = rw (append.nil (String.◌∷◌ c t)) (ground arith)
split-append c (String.◌∷◌ d s) t h =
    rw (append.cons d s (String.◌∷◌ c t)) (ground (arith, split-append c s t))

pub split_once_plain : (sep : ℕ) (s : String) → has sep s ≡ false → split_once sep s ≡ none
unfolding split_once
split_once_plain sep String.[] h = refl
split_once_plain sep (String.◌∷◌ c s) h = ground (arith, split_once_plain sep s)

pub split_once-append :
    (c : Char) (s t : String)
    → has (code c) s ≡ false
    → split_once (code c) (s ++ String.◌∷◌ c t) ≡ some (s, t)
unfolding split_once
split_once-append c String.[] t h = rw (append.nil (String.◌∷◌ c t)) (ground arith)
split_once-append c (String.◌∷◌ d s) t h =
    rw (append.cons d s (String.◌∷◌ c t)) (ground (arith, split_once-append c s t))
