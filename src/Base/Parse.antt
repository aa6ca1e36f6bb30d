-- ===== src/Base/Parse.antt =====
-- What the parsers use of `str`: `split`, `trim`, `starts_with` and `parse::<u64>`.
pub mod Decimal
pub mod Plain
pub mod Digits
use Prim.Native.Char.{Char, code}
use Prim.Native.Nat.{ℕ, ◌+◌, ◌-◌, ◌*◌, ◌%◌}
use Prim.Native.String.{String}
use mathlib.Core.Bool.{Bool, true, false, ◌&&◌, ◌||◌}
use mathlib.Core.List.{List, [], ◌∷◌}
use mathlib.Core.Option.{Option, none, some}
use mathlib.Core.Path.{◌≡◌, refl}
use veloce_ce.Base.Tests.{ltb, leb, nat_beq, if◌then◌else◌, u64_mod, u32_mod}

-- The first part and the others.
push_char : Char → List String → List String
push_char c [] = (String.◌∷◌ c String.[]) ∷ []
push_char c (part ∷ parts) = (String.◌∷◌ c part) ∷ parts

-- `split(sep)`: never the empty list
unfoldable pub split : ℕ → String → List String
unfolding push_char
split sep String.[] = String.[] ∷ []
split sep (String.◌∷◌ c s) =
    let rest = split sep s in if nat_beq (code c) sep then String.[] ∷ rest else push_char c rest

-- `split_once(sep)`: what is before the first separator, and what is after it
unfoldable pub split_once : ℕ → String → Option (String × String)
split_once sep String.[] = none
split_once sep (String.◌∷◌ c s) =
    if nat_beq (code c) sep
    then some (String.[], s)
    else elim (split_once sep s) [ none ↦ none | some (a, b) ↦ some (String.◌∷◌ c a, b) ]

-- The digits of a number; a value past `u64::MAX` is an error.
pub digits : ℕ → String → Option ℕ
digits n String.[] = some n
digits n (String.◌∷◌ c s) =
    let m = n * 10 + (code c - b'0') in
    let rest = digits m s in
    if leb b'0' (code c) && leb (code c) b'9' && ltb m u64_mod then rest else none

after_sign : String → Option ℕ
unfolding digits
after_sign String.[] = none
after_sign (String.◌∷◌ c s) = digits 0 (String.◌∷◌ c s)

-- `parse::<u64>`: one `+` may stand in front.
unfoldable pub parse_u64 : String → Option ℕ
unfolding after_sign
parse_u64 String.[] = none
parse_u64 (String.◌∷◌ c s) =
    if nat_beq (code c) b'+' then after_sign s else after_sign (String.◌∷◌ c s)

-- `parse::<u32>`
unfoldable pub parse_u32 : String → Option ℕ
unfolding parse_u64
parse_u32 s = elim (parse_u64 s) [ none ↦ none | some n ↦ if ltb n u32_mod then some n else none ]

-- `parse::<i32>() as usize`: one sign may stand in front, and a negative number wraps.
unfoldable pub parse_i32_as_usize : String → Option ℕ
unfolding parse_u64 after_sign
parse_i32_as_usize String.[] = none
parse_i32_as_usize (String.◌∷◌ c s) =
    if nat_beq (code c) b'-'
    then elim (after_sign s) [
      | none ↦ none
      | some n ↦ if leb n 2147483648 then some ((u64_mod - n) % u64_mod) else none
    ]
    else elim (parse_u64 (String.◌∷◌ c s)) [
      | none ↦ none
      | some n ↦ if ltb n 2147483648 then some n else none
    ]

-- `char::is_whitespace`: the code points of Unicode's White_Space
unfoldable pub is_whitespace : ℕ → Bool
is_whitespace c =
    (leb 9 c && leb c 13)
    || nat_beq c 32
    || nat_beq c 133
    || nat_beq c 160
    || nat_beq c 5760
    || (leb 8192 c && leb c 8202)
    || nat_beq c 8232
    || nat_beq c 8233
    || nat_beq c 8239
    || nat_beq c 8287
    || nat_beq c 12288

unfoldable pub trim_start : String → String
unfolding is_whitespace
trim_start String.[] = String.[]
trim_start (String.◌∷◌ c s) = if is_whitespace (code c) then trim_start s else String.◌∷◌ c s

unfoldable pub trim_end : String → String
unfolding is_whitespace
trim_end String.[] = String.[]
trim_end (String.◌∷◌ c s) = elim (trim_end s) [
  | String.[] ↦ if is_whitespace (code c) then String.[] else String.◌∷◌ c String.[]
  | String.◌∷◌ d rest ↦ String.◌∷◌ c (String.◌∷◌ d rest)
]

unfoldable pub trim : String → String
unfolding trim_start trim_end
trim s = trim_end (trim_start s)

-- `starts_with`: the prefix comes first
unfoldable pub starts_with : String → String → Bool
starts_with String.[] s = true
starts_with (String.◌∷◌ c p) String.[] = false
starts_with (String.◌∷◌ c p) (String.◌∷◌ d s) = nat_beq (code c) (code d) && starts_with p s

trim_runs : trim " \ta b  " ≡ "a b"
unfolding trim
trim_runs = refl

starts_with_runs : starts_with "DYLD_" "DYLD_X" ≡ true
unfolding starts_with
starts_with_runs = refl

-- `contains`: the text has the other in it.
unfoldable pub has_text : String → String → Bool
unfolding starts_with
has_text part String.[] = starts_with part String.[]
has_text part (String.◌∷◌ c s) = starts_with part (String.◌∷◌ c s) || has_text part s
