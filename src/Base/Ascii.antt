-- ===== src/Base/Ascii.antt =====
-- What the parsers of options use of `str`: letters, prefixes, lines and replacement.
use Prim.Native.Char.{Char, code}
use Prim.Native.Nat.{ℕ, ◌-◌}
use Prim.Native.String.{String, char_at}
use mathlib.Core.Bool.{Bool, true, ◌&&◌, ◌||◌}
use mathlib.Core.List.{List, [], ◌∷◌}
use mathlib.Core.Option.{Option, none, some}
use mathlib.Core.Path.{◌≡◌, refl}
use text.Mathlib.Text.{◌==◌}
use veloce_ce.Base.Tests.{leb, nat_beq, if◌then◌else◌}
use veloce_ce.Base.Parse.{split}

abbrev upper_letters : String
upper_letters = "ABCDEFGHIJKLMNOPQRSTUVWXYZ"

abbrev lower_letters : String
lower_letters = "abcdefghijklmnopqrstuvwxyz"

abbrev is_upper : ℕ → Bool
is_upper c = leb b'A' c && leb c b'Z'

abbrev is_lower : ℕ → Bool
is_lower c = leb b'a' c && leb c b'z'

abbrev pub is_ascii_alphabetic : ℕ → Bool
is_ascii_alphabetic c = is_upper c || is_lower c

abbrev pub is_ascii_digit : ℕ → Bool
is_ascii_digit c = leb b'0' c && leb c b'9'

lower_char : Char → Char
lower_char c = if is_upper (code c) then char_at lower_letters (code c - b'A') else c

upper_char : Char → Char
upper_char c = if is_lower (code c) then char_at upper_letters (code c - b'a') else c

unfoldable pub to_ascii_lowercase : String → String
unfolding lower_char
to_ascii_lowercase String.[] = String.[]
to_ascii_lowercase (String.◌∷◌ c s) = String.◌∷◌ (lower_char c) (to_ascii_lowercase s)

unfoldable pub to_ascii_uppercase : String → String
unfolding upper_char
to_ascii_uppercase String.[] = String.[]
to_ascii_uppercase (String.◌∷◌ c s) = String.◌∷◌ (upper_char c) (to_ascii_uppercase s)

unfoldable pub eq_ignore_ascii_case : String → String → Bool
unfolding to_ascii_lowercase
eq_ignore_ascii_case s t = to_ascii_lowercase s == to_ascii_lowercase t

-- `chars().all(…)`
abbrev pub all_chars : (ℕ → Bool) → String → Bool
all_chars p String.[] = true
all_chars p (String.◌∷◌ c s) = p (code c) && all_chars p s

-- `strip_prefix`: the prefix comes first
unfoldable pub strip_prefix : String → String → Option String
strip_prefix String.[] s = some s
strip_prefix (String.◌∷◌ c p) String.[] = none
strip_prefix (String.◌∷◌ c p) (String.◌∷◌ d s) =
    let rest = strip_prefix p s in if nat_beq (code c) (code d) then rest else none

-- `strip_suffix('\r')`
strip_return : String → String
strip_return String.[] = String.[]
strip_return (String.◌∷◌ c String.[]) =
    if nat_beq (code c) b'\r' then String.[] else String.◌∷◌ c String.[]
strip_return (String.◌∷◌ c (String.◌∷◌ d s)) = String.◌∷◌ c (strip_return (String.◌∷◌ d s))

-- The line ends of the parts between line feeds; what is behind the last one is a line if it is not
-- empty.
line_ends : List String → List String
unfolding strip_return
line_ends [] = []
line_ends (last ∷ []) = if last == "" then [] else last ∷ []
line_ends (line ∷ next ∷ more) = strip_return line ∷ line_ends (next ∷ more)

unfoldable pub lines : String → List String
unfolding line_ends
lines s = line_ends (split b'\n' s)

-- `replace("==", "=")`
unfoldable pub single_equals : String → String
single_equals String.[] = String.[]
single_equals (String.◌∷◌ c String.[]) = String.◌∷◌ c String.[]
single_equals (String.◌∷◌ c (String.◌∷◌ d s)) =
    let after = single_equals s in
    let next = single_equals (String.◌∷◌ d s) in
    if nat_beq (code c) b'=' && nat_beq (code d) b'=' then String.◌∷◌ c after else String.◌∷◌ c next

lowers : to_ascii_lowercase "Pre-Emptible" ≡ "pre-emptible"
unfolding to_ascii_lowercase
lowers = refl

strips : strip_prefix "--name=" "--name=a=b" ≡ some "a=b"
unfolding strip_prefix
strips = refl

cuts_lines : lines "a\r\n\nb" ≡ "a" ∷ "" ∷ "b" ∷ []
unfolding lines split
cuts_lines = refl

replaces : single_equals "a===b" ≡ "a==b"
unfolding single_equals
replaces = refl
