-- ===== src/Slurm/Tools/Ids.antt =====
-- The job ids that `scancel` finds among its arguments.
use veloce_ce.Base.{
  String, Bool, true, false, List, [], ◌∷◌, ◌++◌, ◌==◌, string_eq, ok, starts_with, ◌≡◌, ◌≢◌, sym,
  ap, ◌∙◌, arith, inl, inr, beq-cases,
}
use mathlib.Core.List.{append-nil, append_assoc}
use veloce_ce.Slurm.Spec.{ParsedCancel}
use veloce_ce.Slurm.Options.{skip_unknown_flag}
use veloce_ce.Slurm.Tools.{cancel_tokens, some_id, parse_scancel}

-- Arguments that are no options
abbrev pub ArePlain : List String → Type 0
ArePlain [] = Unit
ArePlain (a ∷ args) = (starts_with "-" a ≡ false) × ArePlain args

not_dashes :
    (p a : String) (b : Bool) → starts_with p a ≡ b → starts_with p "--" ≢ b → (a == "--") ≡ false
not_dashes p a b h n = elim (beq-cases a "--") [
  | inl e ↦ absurd (n (sym (ap (starts_with p) e) ∙ h))
  | inr other ↦ other
]

dashes : (a : String) → starts_with "-" a ≡ false → (a == "--") ≡ false
unfolding starts_with
dashes a h = not_dashes "-" a false h (λ e. ground (arith, e))

double : (a : String) → starts_with "--" a ≡ false → (a == "--") ≡ false
unfolding starts_with
double a h = not_dashes "--" a false h (λ e. ground (arith, e))

cancel_tokens-ArePlain :
    (args : List String) (out : ParsedCancel)
    → ArePlain args
    → cancel_tokens args 0 out ≡ record out { job_ids = out.job_ids ++ args }
unfolding cancel_tokens
cancel_tokens-ArePlain [] out h =
    ap (λ ids. record out { job_ids = ids }) (sym (append-nil out.job_ids))
cancel_tokens-ArePlain (a ∷ args) out (h, hs) =
    rw (h, dashes a h)
      (cancel_tokens-ArePlain args (record out { job_ids = out.job_ids ++ a ∷ [] }) hs
        ∙ ap (λ ids. record out { job_ids = ids }) (append_assoc out.job_ids (a ∷ []) args))

one_consumed :
    (flag : String) (rest : List String)
    → starts_with "--" flag ≡ false
    → (skip_unknown_flag flag rest).1 ≡ 1
unfolding skip_unknown_flag
one_consumed flag rest h = ground (arith, h)

-- A short option is skipped alone: a value behind it is taken for the first job id.
pub parse_scancel-short :
    (flag v : String) (ids : List String)
    → starts_with "-" flag ≡ true
    → starts_with "--" flag ≡ false
    → ArePlain (v ∷ ids)
    → parse_scancel (flag ∷ v ∷ ids)
      ≡ ok (record { job_ids = v ∷ ids; skips = (skip_unknown_flag flag (v ∷ ids)).0 ∷ [] })
unfolding parse_scancel cancel_tokens
parse_scancel-short flag v ids short single h =
    let skipped : ParsedCancel = record {
      job_ids = [];
      skips = (skip_unknown_flag flag (v ∷ ids)).0 ∷ [];
    } in
    let start : ParsedCancel = record { job_ids = []; skips = [] } in
    let tokens : cancel_tokens (flag ∷ v ∷ ids) 0 start ≡ record skipped { job_ids = v ∷ ids } =
      rw (short, double flag single, one_consumed flag (v ∷ ids) single, cancel_tokens)
        (cancel_tokens-ArePlain (v ∷ ids) skipped h) in
    ap (λ (out : ParsedCancel). some_id out out.job_ids) tokens
