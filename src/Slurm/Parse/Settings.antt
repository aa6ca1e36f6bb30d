-- ===== src/Slurm/Parse/Settings.antt =====
-- Settings on the command line of `sbatch` and `srun`: how they are written, and what they change.
use veloce_ce.Base.{
  ℕ, ◌<◌, String, Bool, true, false, Option, some, List, [], ◌∷◌, ◌++◌, ok, format, decimal,
  starts_with, strip_prefix, parse_u32, parse_u64-decimal, u64_mod, u32_mod, has, has-decimal, ◌≡◌,
  refl, sym, ap, ◌∙◌, arith, Bool-cases, inl, inr,
}
use mathlib.Core.List.{append-nil, append_assoc}
use veloce_ce.Slurm.Spec.{SubmitSpec, ParsedBatch, empty_batch}
use veloce_ce.Slurm.Time.{parse_slurm_time}
use veloce_ce.Slurm.Gres.{parse_gres}
use veloce_ce.Slurm.Options.{take_opt, value_after, bundled}
use veloce_ce.Slurm.Values.{
  Numbers, parse_mem_mb, parse_usize, veloce_qos, validate_array, validate_dependency,
}
use veloce_ce.Slurm.Values as values
use veloce_ce.Slurm.Parse.{
  parse_tokens, with_positionals, parse_submit_flags, take_token, try_rules, take_qos,
}

-- A setting; the memory, the time limit and the resources with the text that asks for them
pub data Setting : Type 0 where
  job_name comment wrap array dependency : String → Setting
  nodes cores : ℕ → Setting
  mem_mb walltime_secs : String → ℕ → Setting
  qos : String → String → Setting
  gres : String → List (String × ℕ) → Setting

abbrev pub written : Setting → List String
written (job_name v) = "--job-name" ∷ v ∷ []
written (comment v) = "--comment" ∷ v ∷ []
written (wrap v) = "--wrap" ∷ v ∷ []
written (array v) = "--array" ∷ v ∷ []
written (dependency v) = "--dependency" ∷ v ∷ []
written (nodes n) = "--nodes" ∷ decimal n ∷ []
written (cores n) = "--cpus-per-task" ∷ decimal n ∷ []
written (mem_mb v n) = "--mem" ∷ v ∷ []
written (walltime_secs v n) = "--time" ∷ v ∷ []
written (qos v q) = "--qos" ∷ v ∷ []
written (gres v g) = "--gres" ∷ v ∷ []

abbrev pub change : Setting → SubmitSpec → SubmitSpec
change (job_name v) spec = record spec { job_name = some v }
change (comment v) spec = record spec { comment = some v }
change (wrap v) spec = spec
change (array v) spec = record spec { array = some v }
change (dependency v) spec = record spec { dependency = some v }
change (nodes n) spec = record spec { nodes = some n }
change (cores n) spec = record spec { cores = some n }
change (mem_mb v n) spec = record spec { mem_mb = some n }
change (walltime_secs v n) spec = record spec { walltime_secs = some n }
change (qos v q) spec = record spec { qos = some q }
change (gres v g) spec = record spec { gres = spec.gres ++ g }

abbrev pub wrap_of : Setting → Option String → Option String
wrap_of (wrap v) old = some v
wrap_of _ old = old

abbrev pub effect : Setting → ParsedBatch → ParsedBatch
effect s out = record out { spec = change s out.spec; wrap = wrap_of s out.wrap }

-- What the text of the setting asks for
abbrev pub Asks : Numbers → Setting → Type 0
Asks m (array v) = validate_array v ≡ ok tt
Asks m (dependency v) = validate_dependency v ≡ ok tt
Asks m (nodes n) = n < u64_mod
Asks m (cores n) = n < u32_mod
Asks m (mem_mb v n) = parse_mem_mb m v ≡ ok n
Asks m (walltime_secs v n) = parse_slurm_time v ≡ ok n
Asks m (qos v q) = veloce_qos v ≡ some q
Asks m (gres v g) = parse_gres v ≡ ok (g, [])
Asks m _ = Unit

abbrev pub value_of : Setting → String
value_of (job_name v) = v
value_of (wrap v) = v
value_of (array v) = v
value_of (dependency v) = v
value_of (mem_mb v n) = v
value_of (walltime_secs v n) = v
value_of (qos v q) = v
value_of (gres v g) = v
value_of _ = ""

-- The text of the setting asks for it and, if it is not a comment, does not begin with a dash.
abbrev pub IsWritable : Numbers → Setting → Type 0
IsWritable m s = Asks m s × (starts_with "-" (value_of s) ≡ false)

starts-has : (s : String) → has b'-' s ≡ false → starts_with "-" s ≡ false
unfolding starts_with
starts-has String.[] h = refl
starts-has (String.◌∷◌ c s) h = ground (arith, h)

decimal_no_dash : (n : ℕ) → n < u64_mod → starts_with "-" (decimal n) ≡ false
decimal_no_dash n h = starts-has (decimal n) (has-decimal b'-' n refl h)

parse_usize-decimal : (n : ℕ) (name : String) → n < u64_mod → parse_usize (decimal n) name ≡ ok n
unfolding parse_usize
parse_usize-decimal n name h = rw (parse_u64-decimal n h) refl

parse_u32-decimal : (n : ℕ) (name : String) → n < u32_mod → values.parse_u32 (decimal n) name ≡ ok n
unfolding values.parse_u32 parse_u32
parse_u32-decimal n name h = ground (arith, h, parse_u64-decimal n (omega arith))

take_qos-some :
    (v q : String) (out : ParsedBatch)
    → veloce_qos v ≡ some q
    → take_qos v out ≡ ok (record out { spec = record out.spec { qos = some q } })
unfolding take_qos
take_qos-some v q out h = rw (h, take_qos) refl

module _ (m : Numbers) (allow : Bool) (rest : List String) (out : ParsedBatch)
    (positionals : List String) where
  -- The setting is read as it was written.
  parse_tokens-written :
      (s : Setting)
      → IsWritable m s
      → parse_tokens m allow (written s ++ rest) 0 out positionals
        ≡ parse_tokens m allow rest 0 (effect s out) positionals
  unfolding parse_tokens take_token try_rules take_opt value_after bundled strip_prefix starts_with
      format
  parse_tokens-written (job_name v) (_, h) = rw (h) refl
  parse_tokens-written (comment v) _ = elim (Bool-cases (starts_with "-" v)) [
    | inl h ↦ rw (h) refl
    | inr h ↦ rw (h) refl
  ]
  parse_tokens-written (wrap v) (_, h) = rw (h) refl
  parse_tokens-written (array v) (a, h) = rw (h, a) refl
  parse_tokens-written (dependency v) (a, h) = rw (h, a) refl
  parse_tokens-written (nodes n) (a, _) =
      rw (decimal_no_dash n a, parse_usize-decimal n "--nodes" a) refl
  parse_tokens-written (cores n) (a, _) =
      rw (decimal_no_dash n (omega arith), parse_u32-decimal n "--cpus-per-task" a) refl
  parse_tokens-written (mem_mb v n) (a, h) = rw (h, a) refl
  parse_tokens-written (walltime_secs v n) (a, h) = rw (h, a) refl
  parse_tokens-written (qos v q) (a, h) = rw (h, take_qos-some v q out a) refl
  parse_tokens-written (gres v g) (a, h) =
      rw (h, a)
        (ap
          (λ skips.
            parse_tokens m allow rest 0 (record (effect (gres v g) out) { skips = skips })
              positionals)
          (append-nil out.skips))

abbrev pub written_all : List Setting → List String
written_all [] = []
written_all (s ∷ ss) = written s ++ written_all ss

-- The settings one after the other: the last one of a kind wins, and resources add up.
abbrev pub effects : List Setting → ParsedBatch → ParsedBatch
effects [] out = out
effects (s ∷ ss) out = effects ss (effect s out)

abbrev pub AllWritable : Numbers → List Setting → Type 0
AllWritable m [] = Unit
AllWritable m (s ∷ ss) = IsWritable m s × AllWritable m ss

module _ (m : Numbers) where
  parse_tokens-written_all :
      (allow : Bool) (ss : List Setting) (rest positionals : List String) (out : ParsedBatch)
      → AllWritable m ss
      → parse_tokens m allow (written_all ss ++ rest) 0 out positionals
        ≡ parse_tokens m allow rest 0 (effects ss out) positionals
  parse_tokens-written_all allow [] rest positionals out h = refl
  parse_tokens-written_all allow (s ∷ ss) rest positionals out (h, hs) =
      ap (λ tokens. parse_tokens m allow tokens 0 out positionals)
        (append_assoc (written s) (written_all ss) rest)
      ∙ parse_tokens-written m allow (written_all ss ++ rest) out positionals s h
      ∙ parse_tokens-written_all allow ss rest positionals (effect s out) hs

  -- Settings in any order and repeated, and what is behind `--`, whatever it looks like
  pub parse_submit_flags-written :
      (ss : List Setting) (command : List String)
      → AllWritable m ss
      → parse_submit_flags m (written_all ss ++ "--" ∷ command) true
        ≡ ok (with_positionals m true (effects ss empty_batch, command))
  unfolding parse_submit_flags
  parse_submit_flags-written ss command h =
      rw (parse_tokens-written_all true ss ("--" ∷ command) [] empty_batch h, parse_tokens) refl

  -- So are those of a script, where no command is allowed.
  pub parse_submit_flags-directives :
      (ss : List Setting)
      → AllWritable m ss
      → parse_submit_flags m (written_all ss) false ≡ ok (effects ss empty_batch)
  unfolding parse_submit_flags
  parse_submit_flags-directives ss h =
      let read = parse_tokens-written_all false ss [] [] empty_batch h in
      let same =
        ap (λ args. parse_tokens m false args 0 empty_batch []) (append-nil (written_all ss)) in
      rw (sym same ∙ read, parse_tokens) refl
