-- ===== src/Base/Parse/Digits.antt =====
-- The characters of numbers and of formats.
use Prim.Native.Char.{code}
use Prim.Native.Nat.{ℕ, ◌+◌, ◌-◌, ◌*◌, ◌<◌}
use Prim.Native.String.{String, ◌++◌}
use Prim.Native.String.append
use mathlib.Core.Bool.{Bool, true, ◌&&◌}
use mathlib.Core.List.{List, [], ◌∷◌}
use mathlib.Core.Option.{some}
use mathlib.Core.Path.{◌≡◌, refl, ap}
use native.Mathlib.Omega.{arith}
use veloce_ce.Base.Tests.{u64_mod}
use veloce_ce.Base.Text.{format, decimal}
use veloce_ce.Base.Parse.{digits}
use veloce_ce.Base.Parse.Decimal.{digits-decimal}
use veloce_ce.Base.Ascii.{all_chars, is_ascii_digit}

module _ (p : ℕ → Bool) where
  all_chars-append : (s t : String) → all_chars p (s ++ t) ≡ (all_chars p s && all_chars p t)
  all_chars-append String.[] t = ap (all_chars p) (append.nil t)
  all_chars-append (String.◌∷◌ c s) t =
      rw (append.cons c s t) (ground (arith, all_chars-append s t))

  abbrev pub all_have : List String → Bool
  all_have [] = true
  all_have (s ∷ ss) = all_chars p s && all_have ss

  pub all_chars-format : (ss : List String) → all_chars p (format ss) ≡ all_have ss
  unfolding format
  all_chars-format [] = refl
  all_chars-format (s ∷ ss) = ground (arith, all_chars-append s (format ss), all_chars-format ss)

  module _ (wide : (c : ℕ) → is_ascii_digit c ≡ true → p c ≡ true) where
    digits-all_chars : (m : ℕ) (s : String) (n : ℕ) → digits m s ≡ some n → all_chars p s ≡ true
    unfolding digits
    digits-all_chars m String.[] n h = refl
    digits-all_chars m (String.◌∷◌ c s) n h =
        ground (arith, wide (code c), digits-all_chars (m * 10 + (code c - b'0')) s n)

    -- A displayed number has only digits.
    pub all_chars-decimal : (n : ℕ) → n < u64_mod → all_chars p (decimal n) ≡ true
    all_chars-decimal n h = digits-all_chars 0 (decimal n) n (digits-decimal n h)
