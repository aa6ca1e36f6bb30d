-- ===== src/Slurm/Script.antt =====
-- veloce-slurm/src/parse.rs: the `#SBATCH` lines of a script, and how they are cut into arguments.
pub mod Words
use veloce_ce.Base.{
  ℕ, String, Bool, true, false, ◌||◌, Option, none, some, List, [], ◌∷◌, ◌++◌, if◌then◌else◌, ◌==◌,
  string_eq, nat_beq, trim, starts_with, strip_prefix, lines, is_whitespace, split, ◌≡◌, refl,
}
use Prim.Native.Char.{Char, code}
use Prim.Native.String as raw

-- `push`
abbrev pub appended : String → Char → String
appended cur c = raw.◌++◌ cur (String.◌∷◌ c String.[])

-- The last token, if there is one
abbrev pub flush : String → List String
flush cur = if cur == "" then [] else cur ∷ []

abbrev pub is_quote : ℕ → Bool
is_quote c = nat_beq c b'\'' || nat_beq c b'"'

-- The loop over the characters: the quote that is open, and the token so far
pub split_from : String → Option ℕ → String → List String
split_from String.[] quote cur = flush cur
split_from (String.◌∷◌ c s) none cur =
    let opened = split_from s (some (code c)) cur in
    let ended = flush cur ++ split_from s none "" in
    let pushed = split_from s none (appended cur c) in
    if is_quote (code c) then opened else if is_whitespace (code c) then ended else pushed
split_from (String.◌∷◌ c s) (some q) cur =
    let closed = split_from s none cur in
    let pushed = split_from s (some q) (appended cur c) in
    if nat_beq (code c) q then closed else pushed

unfoldable pub shellish_split : String → List String
unfolding split_from
shellish_split s = split_from s none ""

-- The loop over the lines stops at the first one that is neither empty nor a comment.
pub args_of_lines : List String → List String
args_of_lines [] = []
args_of_lines (line ∷ more) =
    let rest = args_of_lines more in
    let trimmed = trim line in
    if trimmed == "" || starts_with "#!" trimmed
    then rest
    else elim (strip_prefix "#SBATCH" trimmed) [
      | some directive ↦ shellish_split (trim directive) ++ rest
      | none ↦ if starts_with "#" trimmed then rest else []
    ]

unfoldable pub sbatch_lines_to_args : String → List String
unfolding args_of_lines
sbatch_lines_to_args body = args_of_lines (lines body)

directives :
    sbatch_lines_to_args
      "#!/bin/sh\n#SBATCH -N 2 --comment='a b'\n\n# x\n#SBATCH -c4\necho\n#SBATCH -t 9"
    ≡ "-N" ∷ "2" ∷ "--comment=a b" ∷ "-c4" ∷ []
unfolding sbatch_lines_to_args lines split trim is_whitespace starts_with strip_prefix
    shellish_split
directives = refl
