-- ===== src/Slurm/Time.antt =====
-- veloce-slurm/src/timeparse.rs: a time limit in seconds. An error is its text.
pub mod Limits
use veloce_ce.Base.{
  ℕ, ◌+◌, ◌-◌, ◌*◌, min, String, ◌≡◌, refl, List, [], ◌∷◌, Option, none, some, nat_beq,
  if◌then◌else◌, u64_mod, Result, ok, err, ◌>>=◌, format, ◌==◌, string_eq, split, split_once, trim,
  parse_u64 as parse,
}

abbrev pub u64_max : ℕ
u64_max = u64_mod - 1

abbrev pub saturating_mul : ℕ → ℕ → ℕ
saturating_mul a b = min (a * b) u64_max

abbrev pub saturating_add : ℕ → ℕ → ℕ
saturating_add a b = min (a + b) u64_max

pub parse_u64 : String → String → Result String ℕ
parse_u64 s field = elim (parse s) [
  | none ↦ err (format ("invalid " ∷ field ∷ " in time value '" ∷ s ∷ "'" ∷ []))
  | some n ↦ ok n
]

-- Hours, minutes and seconds of the parts after the days.
pub clock : String → ℕ → List String → Result String (ℕ × ℕ × ℕ)
unfolding parse_u64
clock raw days (m ∷ []) =
    if nat_beq days 0
    then (do n ← parse_u64 m "minutes"; ok (0, n, 0))
    else (do n ← parse_u64 m "hours"; ok (n, 0, 0))
clock raw days (m ∷ sec ∷ []) =
    if nat_beq days 0
    then (do n ← parse_u64 m "minutes"; s ← parse_u64 sec "seconds"; ok (0, n, s))
    else (do h ← parse_u64 m "hours"; n ← parse_u64 sec "minutes"; ok (h, n, 0))
clock raw days (h ∷ m ∷ sec ∷ []) = do
  a ← parse_u64 h "hours"
  b ← parse_u64 m "minutes"
  c ← parse_u64 sec "seconds"
  ok (a, b, c)
clock raw days _ = err (format ("invalid time value '" ∷ raw ∷ "'" ∷ []))

-- The days, and the text after them.
pub days_and_rest : String → Result String (ℕ × String)
unfolding parse_u64
days_and_rest s = elim (split_once b'-' s) [
  | none ↦ ok (0, s)
  | some (d, r) ↦ parse_u64 d "days" >>= λ n. ok (n, r)
]

pub seconds : ℕ → ℕ × ℕ × ℕ → ℕ
seconds days (h, m, s) =
    saturating_add
      (saturating_add (saturating_add (saturating_mul days 86400) (saturating_mul h 3600))
        (saturating_mul m 60))
      s

unfoldable pub parse_slurm_time : String → Result String ℕ
unfolding days_and_rest clock seconds
parse_slurm_time raw =
    let s = trim raw in
    if s == ""
    then err "empty time value"
    else days_and_rest s >>= λ p. clock raw p.0 (split b':' p.1) >>= λ t. ok (seconds p.0 t)

minutes_only : parse_slurm_time "10" ≡ ok 600
unfolding parse_slurm_time split split_once trim parse
minutes_only = refl

days_hours : parse_slurm_time " 1-2 " ≡ ok (86400 + 7200)
unfolding parse_slurm_time split split_once trim parse
days_hours = refl

zero_days : parse_slurm_time "0-2" ≡ ok 120
unfolding parse_slurm_time split split_once trim parse
zero_days = refl
