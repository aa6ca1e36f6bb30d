-- ===== src/Slurm/Gres.antt =====
-- veloce-slurm/src/gres.rs: the value of `--gres`. An error is its text.
use veloce_ce.Base.{
  ℕ, String, none, some, List, [], ◌∷◌, ◌++◌, if◌then◌else◌, ◌==◌, string_eq, Result, ok, err,
  ◌>>=◌, format, split, trim, parse_u64, all_chars, is_ascii_digit, ◌≡◌, refl,
}
use veloce_ce.Slurm.Spec.{Skip}

pub parse_count : String → String → Result String ℕ
parse_count s piece = elim (parse_u64 s) [
  | none ↦ err (format ("invalid --gres count in '" ∷ piece ∷ "'" ∷ []))
  | some n ↦ ok n
]

-- What one piece asks for: a count, or a skip
pub read_piece : String → List String → Result String (List (String × ℕ) × List Skip)
unfolding parse_count
read_piece piece (name ∷ count ∷ []) = do n ← parse_count count piece; ok ((name, n) ∷ [], [])
read_piece piece (name ∷ kind ∷ count ∷ []) = do
  n ← parse_count count piece
  ok (
    [],
    (record {
      option = format ("--gres=" ∷ piece ∷ []);
      reason = format (
          "typed GRES '" ∷ name ∷ ":" ∷ kind ∷ "' is not a Veloce GRES key; use --gres " ∷ name
          ∷ ":N" ∷ []);
    })
        ∷ [],
  )
read_piece piece (count ∷ []) =
    if all_chars is_ascii_digit count
    then (do n ← parse_count count piece; ok (("gpu", n) ∷ [], []))
    else err (format ("invalid --gres value '" ∷ piece ∷ "'" ∷ []))
read_piece piece _ = err (format ("invalid --gres value '" ∷ piece ∷ "'" ∷ []))

pub read_pieces : List String → Result String (List (String × ℕ) × List Skip)
unfolding read_piece
read_pieces [] = ok ([], [])
read_pieces (raw ∷ pieces) =
    let rest = read_pieces pieces in
    let piece = trim raw in
    if piece == "" then rest else (do
      first ← read_piece piece (split b':' piece)
      others ← rest
      ok (first.0 ++ others.0, first.1 ++ others.1))

unfoldable pub parse_gres : String → Result String (List (String × ℕ) × List Skip)
unfolding read_pieces
parse_gres raw = read_pieces (split b',' raw)

typed : parse_gres "gpu:2, fpga:1,4" ≡ ok (("gpu", 2) ∷ ("fpga", 1) ∷ ("gpu", 4) ∷ [], [])
unfolding parse_gres split trim parse_u64
typed = refl
