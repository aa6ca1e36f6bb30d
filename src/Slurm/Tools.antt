-- ===== src/Slurm/Tools.antt =====
-- veloce-slurm/src/parse.rs: the arguments of squeue, scancel and sinfo, and the names of the tools.
pub mod Ids
use veloce_ce.Base.{
  ℕ, zero, suc, ◌-◌, String, Bool, true, false, ◌&&◌, not, Option, none, some, List, [], ◌∷◌, ◌++◌,
  if◌then◌else◌, ◌==◌, string_eq, Result, ok, err, ◌>>=◌, format, starts_with, map, split_once, ◌≡◌,
  refl,
}
use veloce_ce.Slurm.Spec.{
  Skip, ParsedQueue, ParsedCancel, Tool, sbatch, srun, squeue, scancel, sinfo,
}
use veloce_ce.Slurm.Options.{take_opt, skip_unknown_flag}

abbrev pub tool_of : String → Option Tool
tool_of name =
    if name == "sbatch"
    then some sbatch
    else if name == "srun"
    then some srun
    else if name == "squeue"
    then some squeue
    else if name == "scancel"
    then some scancel
    else if name == "sinfo"
    then some sinfo
    else none

pub skip_unknown_positionals : List String → List Skip
skip_unknown_positionals = map (λ a. record { option = a; reason = "ignored extra argument" })

abbrev pub skip_positional : String → String → Skip
skip_positional tool a = record {
  option = a;
  reason = format (tool ∷ " positional arguments are not used" ∷ []);
}

-- What `squeue` does with an argument that `take_opt` does not take, and how many are consumed
pub queue_token : String → List String → ParsedQueue → ParsedQueue × ℕ
queue_token a rest out =
    if a == "--me"
    then (record out { user = some "__mine__" }, 1)
    else if starts_with "-" a
    then (let (opt, consumed) = skip_unknown_flag a rest in
        (record out { skips = out.skips ++ opt ∷ [] }, consumed))
    else (record out { skips = out.skips ++ skip_positional "squeue" a ∷ [] }, 1)

pub queue_tokens : List String → ℕ → ParsedQueue → Result String ParsedQueue
unfolding queue_token skip_unknown_positionals
queue_tokens [] skip out = ok out
queue_tokens (a ∷ rest) (suc skip) out = queue_tokens rest skip out
queue_tokens (a ∷ rest) zero out =
    if a == "--"
    then ok (record out { skips = out.skips ++ skip_unknown_positionals rest })
    else take_opt a rest ("-u" ∷ "--user" ∷ []) >>= λ r. elim r [
      | some (v, consumed) ↦ queue_tokens rest (consumed - 1) (record out { user = some v })
      | none ↦
          let (out', consumed) = queue_token a rest out in queue_tokens rest (consumed - 1) out'
    ]

unfoldable pub parse_squeue : List String → Result String ParsedQueue
unfolding queue_tokens
parse_squeue args = queue_tokens args 0 (record { user = none; skips = [] })

pub cancel_tokens : List String → ℕ → ParsedCancel → ParsedCancel
cancel_tokens [] skip out = out
cancel_tokens (a ∷ rest) (suc skip) out = cancel_tokens rest skip out
cancel_tokens (a ∷ rest) zero out =
    let (opt, consumed) = skip_unknown_flag a rest in
    let skipping =
      cancel_tokens rest (consumed - 1) (record out { skips = out.skips ++ opt ∷ [] }) in
    let marked = cancel_tokens rest 0 out in
    let added = cancel_tokens rest 0 (record out { job_ids = out.job_ids ++ a ∷ [] }) in
    if starts_with "-" a && not (a == "--") then skipping else if a == "--" then marked else added

abbrev pub some_id : ParsedCancel → List String → Result String ParsedCancel
some_id out [] = err "scancel: missing job id"
some_id out (id ∷ ids) = ok out

unfoldable pub parse_scancel : List String → Result String ParsedCancel
unfolding cancel_tokens
parse_scancel args =
    let out = cancel_tokens args 0 (record { job_ids = []; skips = [] }) in some_id out out.job_ids

pub info_tokens : List String → ℕ → List Skip
info_tokens [] skip = []
info_tokens (a ∷ rest) (suc skip) = info_tokens rest skip
info_tokens (a ∷ rest) zero =
    let (opt, consumed) = skip_unknown_flag a rest in
    let flag = opt ∷ info_tokens rest (consumed - 1) in
    let other = skip_positional "sinfo" a ∷ info_tokens rest 0 in
    if starts_with "-" a then flag else other

unfoldable pub parse_sinfo : List String → Result String (List Skip)
unfolding info_tokens
parse_sinfo args = ok (info_tokens args 0)
