-- ===== src/Base/Parse/Plain.antt =====
-- Texts without white space, which `trim` leaves alone.
use Prim.Native.Char.{Char, code}
use Prim.Native.Nat.{ℕ, ◌+◌, ◌-◌, ◌*◌, ◌<◌}
use Prim.Native.String.{String, ◌++◌}
use Prim.Native.String.append
use mathlib.Core.Bool.{Bool, true, false, not, ◌&&◌, ◌||◌}
use mathlib.Core.List.{List, [], ◌∷◌}
use mathlib.Core.Option.{some}
use mathlib.Core.Path.{◌≡◌, refl, ap, ◌∙◌}
use native.Mathlib.Omega.{arith}
use veloce_ce.Base.Tests.{u64_mod}
use veloce_ce.Base.Text.{format, decimal}
use veloce_ce.Base.Parse.{digits, split, split_once, is_whitespace, trim, trim_start, trim_end}
use text.Mathlib.Text.{◌==◌}
use text.Mathlib.TextEquality.{eq_iff}
use veloce_ce.Base.Parse.Decimal.{
  digits-decimal, decimal-IsNonEmpty, IsNonEmpty, starts, has, split-append, split_once-append,
}

abbrev pub is_plain : String → Bool
is_plain String.[] = true
is_plain (String.◌∷◌ c s) = not (is_whitespace (code c)) && is_plain s

trim_start_plain : (s : String) → is_plain s ≡ true → trim_start s ≡ s
unfolding trim_start
trim_start_plain String.[] h = refl
trim_start_plain (String.◌∷◌ c s) h = ground arith

trim_end_plain : (s : String) → is_plain s ≡ true → trim_end s ≡ s
unfolding trim_end
trim_end_plain String.[] h = refl
trim_end_plain (String.◌∷◌ c String.[]) h = ground arith
trim_end_plain (String.◌∷◌ c (String.◌∷◌ d s)) h =
    rw (trim_end_plain (String.◌∷◌ d s) (ground arith)) refl

-- `trim` takes nothing from such a text.
pub trim_plain : (s : String) → is_plain s ≡ true → trim s ≡ s
unfolding trim
trim_plain s h = ap trim_end (trim_start_plain s h) ∙ trim_end_plain s h

pub plain-append : (s t : String) → is_plain (s ++ t) ≡ (is_plain s && is_plain t)
plain-append String.[] t = ap is_plain (append.nil t)
plain-append (String.◌∷◌ c s) t = rw (append.cons c s t) (ground (arith, plain-append s t))

digits-plain : (m : ℕ) (s : String) (n : ℕ) → digits m s ≡ some n → is_plain s ≡ true
unfolding digits is_whitespace
digits-plain m String.[] n h = refl
digits-plain m (String.◌∷◌ c s) n h = ground (arith, digits-plain (m * 10 + (code c - b'0')) s n)

pub plain-decimal : (n : ℕ) → n < u64_mod → is_plain (decimal n) ≡ true
plain-decimal n h = digits-plain 0 (decimal n) n (digits-decimal n h)

-- Are all pieces of a format plain?
abbrev pub all_plain : List String → Bool
all_plain [] = true
all_plain (s ∷ ss) = is_plain s && all_plain ss

pub plain-format : (ss : List String) → is_plain (format ss) ≡ all_plain ss
unfolding format
plain-format [] = refl
plain-format (s ∷ ss) = ground (arith, plain-append s (format ss), plain-format ss)

pub append_nil : (s : String) → s ++ "" ≡ s
append_nil String.[] = append.nil ""
append_nil (String.◌∷◌ c s) = append.cons c s "" ∙ ap (String.◌∷◌ c) (append_nil s)

not_empty : (s : String) → IsNonEmpty s → (s == "") ≡ false
not_empty s (c, t, e) = ground (arith, eq_iff s "", ap starts e, λ (q : s ≡ ""). ap starts q)

append_first : (s t : String) → IsNonEmpty s → IsNonEmpty (s ++ t)
append_first String.[] t (c, u, e) = absurd (ground (arith, ap starts e))
append_first (String.◌∷◌ c s) t h = (c, s ++ t, append.cons c s t)

-- A format that begins with a number is not empty.
pub format-decimal_not_empty : (n : ℕ) (ss : List String) → (format (decimal n ∷ ss) == "") ≡ false
unfolding format
format-decimal_not_empty n ss =
    not_empty _ (append_first (decimal n) (format ss) (decimal-IsNonEmpty n))

abbrev pub text_of : Char → String
text_of c = String.◌∷◌ c String.[]

append_char : (c : Char) (t : String) → text_of c ++ t ≡ String.◌∷◌ c t
append_char c t = append.cons c "" t ∙ ap (String.◌∷◌ c) (append.nil t)

-- A format splits at a separator that none of its earlier pieces has.
pub split-format :
    (c : Char) (s : String) (ss : List String)
    → has (code c) s ≡ false
    → split (code c) (format (s ∷ text_of c ∷ ss)) ≡ s ∷ split (code c) (format ss)
unfolding format
split-format c s ss h =
    ap (λ t. split (code c) (s ++ t)) (append_char c (format ss)) ∙ split-append c s (format ss) h

pub split_once-format :
    (c : Char) (s : String) (ss : List String)
    → has (code c) s ≡ false
    → split_once (code c) (format (s ∷ text_of c ∷ ss)) ≡ some (s, format ss)
unfolding format
split_once-format c s ss h =
    ap (λ t. split_once (code c) (s ++ t)) (append_char c (format ss))
    ∙ split_once-append c s (format ss) h

pub format_one : (s : String) → format (s ∷ []) ≡ s
unfolding format
format_one s = append_nil s

has-append : (c : ℕ) (s t : String) → has c (s ++ t) ≡ (has c s || has c t)
has-append c String.[] t = ap (has c) (append.nil t)
has-append c (String.◌∷◌ d s) t = rw (append.cons d s t) (ground (arith, has-append c s t))

-- Does a piece of the format have the character?
abbrev pub any_has : ℕ → List String → Bool
any_has c [] = false
any_has c (s ∷ ss) = has c s || any_has c ss

pub has-format : (c : ℕ) (ss : List String) → has c (format ss) ≡ any_has c ss
unfolding format
has-format c [] = refl
has-format c (s ∷ ss) = ground (arith, has-append c s (format ss), has-format c ss)
