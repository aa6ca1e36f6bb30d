-- ===== src/Slurm/Values.antt =====
-- veloce-slurm/src/parse.rs: the values of options.
pub mod Several
use veloce_ce.Base.{
  ℕ, String, Bool, true, false, not, ◌&&◌, ◌||◌, Option, none, some, List, [], ◌∷◌, ◌++◌,
  if◌then◌else◌, ◌==◌, string_eq, nat_beq, Result, ok, err, ◌>>=◌, format, split, split_once, trim,
  starts_with, to_ascii_uppercase, to_ascii_lowercase, eq_ignore_ascii_case, all_chars,
  is_ascii_digit, is_ascii_alphabetic, parse_u64, parse_u32 as parse32, ◌≡◌, refl,
}
use Prim.Native.Char.{code}
use veloce_ce.Types.Floats.{F64, Floats}
use veloce_ce.Slurm.Spec.{Skip, SubmitSpec, ParsedBatch}

abbrev pub skipped : String → String → ParsedBatch → ParsedBatch
skipped option reason out = record out {
  skips = out.skips ++ ((record { option = option; reason = reason }) ∷ []);
}

abbrev pub with_env : String → String → ParsedBatch → ParsedBatch
with_env k v out = record out {
  spec = record out.spec { extra_env = out.spec.extra_env ++ (k, v) ∷ [] };
}

-- One piece of `--export`, without the spaces around it
pub export_piece : String → ParsedBatch → ParsedBatch
export_piece piece out =
    if piece == "" || eq_ignore_ascii_case piece "NONE"
    then out
    else if eq_ignore_ascii_case piece "ALL"
    then skipped (format ("--export=" ∷ piece ∷ []))
        "Veloce does not inherit the submitter host environment" out
    else elim (split_once b'=' piece) [
      | some (k, val) ↦ with_env k val out
      | none ↦
          skipped (format ("--export=" ∷ piece ∷ []))
            "bare --export NAME is not mapped; use NAME=value" out
    ]

pub export_pieces : List String → ParsedBatch → ParsedBatch
unfolding export_piece
export_pieces [] out = out
export_pieces (piece ∷ pieces) out = export_pieces pieces (export_piece (trim piece) out)

unfoldable pub apply_export : String → ParsedBatch → ParsedBatch
unfolding export_pieces
apply_export v out =
    let upper = to_ascii_uppercase v in
    if upper == "NONE" || upper == "NONE," || v == ""
    then out
    else if upper == "ALL" || starts_with "ALL," upper
    then skipped (format ("--export=" ∷ v ∷ []))
        "Veloce does not inherit the submitter host environment (--export=ALL)" out
    else export_pieces (split b',' v) out

unfoldable pub veloce_qos : String → Option String
veloce_qos v =
    let q = to_ascii_lowercase v in
    if q == "interactive" || q == "production" || q == "preemptible" || q == "background"
    then some q
    else none

abbrev pub is_array_char : ℕ → Bool
is_array_char c =
    is_ascii_digit c || nat_beq c b'-' || nat_beq c b',' || nat_beq c b':' || nat_beq c b'%'

unfoldable pub validate_array : String → Result {0, 0} String Unit
validate_array v =
    if v == ""
    then err "empty --array value"
    else if all_chars is_array_char v
    then ok tt
    else err (format ("malformed --array value '" ∷ v ∷ "'" ∷ []))

malformed : String → Result {0, 0} String Unit
malformed piece = err (format ("malformed --dependency '" ∷ piece ∷ "'" ∷ []))

abbrev pub is_kind : String → Bool
is_kind kind = kind == "afterok" || kind == "afterany" || kind == "afternotok"

abbrev pub is_id_char : ℕ → Bool
is_id_char c = is_ascii_digit c || nat_beq c b':'

pub validate_piece : String → Result {0, 0} String Unit
unfolding malformed
validate_piece piece = elim (split_once b':' piece) [
  | none ↦ malformed piece
  | some (kind, rest) ↦
      if is_kind kind
      then (if rest == "" || not (all_chars is_id_char rest) then malformed piece else ok tt)
      else err (
          format (
            "unsupported --dependency kind '" ∷ kind
            ∷ "' (honor afterok, afterany, afternotok only)" ∷ []))
]

pub validate_pieces : List String → Result {0, 0} String Unit
unfolding validate_piece
validate_pieces [] = ok tt
validate_pieces (raw ∷ pieces) =
    let rest = validate_pieces pieces in
    let piece = trim raw in if piece == "" then rest else validate_piece piece >>= λ _. rest

unfoldable pub validate_dependency : String → Result {0, 0} String Unit
unfolding validate_pieces
validate_dependency v = validate_pieces (split b',' v)

-- What is before the first ASCII letter, and the rest
pub at_letter : String → String × String
at_letter String.[] = (String.[], String.[])
at_letter (String.◌∷◌ c s) =
    let (num, suffix) = at_letter s in
    if is_ascii_alphabetic (code c) then (String.[], String.◌∷◌ c s) else (String.◌∷◌ c num, suffix)

-- `trim_end_matches('B')`
pub trim_end_b : String → String
trim_end_b String.[] = String.[]
trim_end_b (String.◌∷◌ c s) = elim (trim_end_b s) [
  | String.[] ↦ if nat_beq (code c) b'B' then String.[] else String.◌∷◌ c String.[]
  | String.◌∷◌ d rest ↦ String.◌∷◌ c (String.◌∷◌ d rest)
]

-- What the parser takes of `f64`: its arithmetic, `parse::<f64>`, and `ceil() as u64`
pub record Numbers : Type 0 where
  pub floats : Floats
  pub parse_f64 : String → Option F64
  pub ceil_as_u64 : F64 → ℕ

pub scaled : Floats → String → F64 → Option F64
scaled f suffix n =
    let k = f.of_nat 1024 in
    if suffix == "" || suffix == "M"
    then some n
    else if suffix == "K"
    then some (f.div n k)
    else if suffix == "G"
    then some (f.mul n k)
    else if suffix == "T"
    then some (f.mul (f.mul n k) k)
    else none

unfoldable pub parse_mem_mb : Numbers → String → Result String ℕ
unfolding at_letter trim_end_b scaled
parse_mem_mb m raw =
    let (num, letters) = at_letter (trim raw) in
    elim (m.parse_f64 num) [
      | none ↦ err (format ("invalid --mem value '" ∷ raw ∷ "'" ∷ []))
      | some n ↦ elim (scaled m.floats (trim_end_b (to_ascii_uppercase letters)) n) [
        | none ↦ err (format ("invalid --mem suffix in '" ∷ raw ∷ "'" ∷ []))
        | some mb ↦ ok (m.ceil_as_u64 mb)
      ]
    ]

abbrev or_invalid : String → String → Option ℕ → Result String ℕ
or_invalid v name none = err (format ("invalid " ∷ name ∷ " value '" ∷ v ∷ "'" ∷ []))
or_invalid v name (some n) = ok n

unfoldable pub parse_usize : String → String → Result String ℕ
parse_usize v name = or_invalid v name (parse_u64 v)

unfoldable pub parse_u32 : String → String → Result String ℕ
parse_u32 v name = or_invalid v name (parse32 v)

accepts : validate_dependency "afterok:1:2, afterany:3" ≡ ok tt
unfolding validate_dependency split split_once trim
accepts = refl
