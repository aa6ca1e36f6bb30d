-- ===== src/Slurm/Parse/Precedence.antt =====
-- The settings of the command line of `sbatch` against those of the script.
use veloce_ce.Base.{
  String, Bool, true, false, none, some, List, [], ◌∷◌, ◌++◌, ok, ◌≡◌, refl, sym, ap, ◌∙◌, arith,
}
use mathlib.Core.List.{append-nil}
use veloce_ce.Slurm.Spec.{ParsedBatch, empty_batch}
use veloce_ce.Slurm.Values.{Numbers}
use veloce_ce.Slurm.Script.{sbatch_lines_to_args}
use veloce_ce.Slurm.Parse.{
  merge_batch, with_positionals, one_command, parse_sbatch, override_list, parse_submit_flags,
}
use veloce_ce.Slurm.Parse.Settings.{
  Setting, wrap, gres, job_name, comment, array, dependency, nodes, cores, mem_mb, walltime_secs,
  qos, effect, effects, written_all, AllWritable, parse_submit_flags-written,
  parse_submit_flags-directives,
}

abbrev is_wrap : Setting → Bool
is_wrap (wrap v) = true
is_wrap _ = false

abbrev is_gres : Setting → Bool
is_gres (gres v g) = true
is_gres _ = false

abbrev pub NoWrap : List Setting → Type 0
NoWrap [] = Unit
NoWrap (s ∷ ss) = (is_wrap s ≡ false) × NoWrap ss

abbrev pub NoGres : List Setting → Type 0
NoGres [] = Unit
NoGres (s ∷ ss) = (is_gres s ≡ false) × NoGres ss

effect-merge_batch :
    (c : Setting) (s b : ParsedBatch)
    → is_gres c ≡ false
    → effect c (merge_batch s b) ≡ merge_batch s (effect c b)
unfolding merge_batch
effect-merge_batch (job_name v) s b g = refl
effect-merge_batch (comment v) s b g = refl
effect-merge_batch (wrap v) s b g = refl
effect-merge_batch (array v) s b g = refl
effect-merge_batch (dependency v) s b g = refl
effect-merge_batch (nodes n) s b g = refl
effect-merge_batch (cores n) s b g = refl
effect-merge_batch (mem_mb v n) s b g = refl
effect-merge_batch (walltime_secs v n) s b g = refl
effect-merge_batch (qos v q) s b g = refl
effect-merge_batch (gres v l) s b g = absurd (ground arith)

effects-merge_batch :
    (cs : List Setting) (s b : ParsedBatch)
    → NoGres cs
    → effects cs (merge_batch s b) ≡ merge_batch s (effects cs b)
effects-merge_batch [] s b h = refl
effects-merge_batch (c ∷ cs) s b (g, h) =
    ap (effects cs) (effect-merge_batch c s b g) ∙ effects-merge_batch cs s (effect c b) h

merge_batch-empty_batch : (s : ParsedBatch) → merge_batch s empty_batch ≡ s
unfolding merge_batch
merge_batch-empty_batch s = rw (append-nil s.skips, append-nil s.spec.extra_env) refl

effects-append :
    (ss cs : List Setting) (b : ParsedBatch) → effects (ss ++ cs) b ≡ effects cs (effects ss b)
effects-append [] cs b = refl
effects-append (s ∷ ss) cs b = effects-append ss cs (effect s b)

effect-wrap : (s : Setting) (b : ParsedBatch) → is_wrap s ≡ false → (effect s b).wrap ≡ b.wrap
effect-wrap (wrap v) b h = absurd (ground arith)
effect-wrap (job_name v) b h = refl
effect-wrap (comment v) b h = refl
effect-wrap (array v) b h = refl
effect-wrap (dependency v) b h = refl
effect-wrap (nodes n) b h = refl
effect-wrap (cores n) b h = refl
effect-wrap (mem_mb v n) b h = refl
effect-wrap (walltime_secs v n) b h = refl
effect-wrap (qos v q) b h = refl
effect-wrap (gres v l) b h = refl

effects-wrap : (ss : List Setting) (b : ParsedBatch) → NoWrap ss → (effects ss b).wrap ≡ b.wrap
effects-wrap [] b h = refl
effects-wrap (s ∷ ss) b (h, hs) = effects-wrap ss (effect s b) hs ∙ effect-wrap s b h

effects-script_args :
    (ss : List Setting) (b : ParsedBatch) → (effects ss b).script_args ≡ b.script_args
effects-script_args [] b = refl
effects-script_args (s ∷ ss) b = effects-script_args ss (effect s b)

abbrev pub with_command : String → List String → ParsedBatch → ParsedBatch
with_command script args out = record out { script = some script; script_args = args }

with_positionals-with_command :
    (m : Numbers) (out : ParsedBatch) (script : String) (args : List String)
    → out.wrap ≡ none
    → with_positionals m true (out, script ∷ args) ≡ with_command script args out
unfolding with_positionals
with_positionals-with_command m out script args h = ground (arith, h)

-- Settings of which each text asks for what it sets and, if it is not a comment, does not begin with
-- a dash, and none of which is `--wrap`, are read as they are written, in any order and repeated; and
-- the first word behind `--` is the script and the others are its arguments, whatever they look like.
pub parse_submit_flags-with_command :
    (m : Numbers) (ss : List Setting) (script : String) (args : List String)
    → AllWritable m ss
    → NoWrap ss
    → parse_submit_flags m (written_all ss ++ "--" ∷ script ∷ args) true
      ≡ ok (with_command script args (effects ss empty_batch))
parse_submit_flags-with_command m ss script args h no_wrap =
    parse_submit_flags-written m ss (script ∷ args) h
    ∙ ap (λ out. ok out)
        (with_positionals-with_command m (effects ss empty_batch) script args
          (effects-wrap ss empty_batch no_wrap))

override_list_nil : (args old : List String) → old ≡ [] → override_list args old ≡ args
override_list_nil [] old h = h
override_list_nil (a ∷ args) old h = refl

merge_batch-with_command :
    (s b : ParsedBatch) (script : String) (args : List String)
    → s.script_args ≡ []
    → merge_batch s (with_command script args b) ≡ with_command script args (merge_batch s b)
unfolding merge_batch
merge_batch-with_command s b script args h =
    ap (λ l. with_command script l (merge_batch s b)) (override_list_nil args s.script_args h)

one_command-with_command :
    (script : String) (args : List String) (out : ParsedBatch)
    → out.wrap ≡ none
    → one_command (with_command script args out) out.wrap (some script)
      ≡ ok (with_command script args out)
unfolding one_command
one_command-with_command script args out h = ground (arith, h)

effects-merged :
    (ss cs : List Setting)
    → NoGres cs
    → merge_batch (effects ss empty_batch) (effects cs empty_batch) ≡ effects (ss ++ cs) empty_batch
effects-merged ss cs g =
    sym (effects-merge_batch cs (effects ss empty_batch) empty_batch g)
    ∙ ap (effects cs) (merge_batch-empty_batch (effects ss empty_batch))
    ∙ sym (effects-append ss cs empty_batch)

-- If the directives of the script are written settings, and the command line is settings, `--`, and a
-- script with its arguments, then the batch is that of the settings of the script followed by those
-- of the command line, none of which is `--gres`; `--wrap` is in neither.
pub parse_sbatch-written :
    (m : Numbers) (ss cs : List Setting) (body script : String) (args : List String)
    → AllWritable m ss
    → AllWritable m cs
    → NoWrap ss
    → NoWrap cs
    → NoGres cs
    → sbatch_lines_to_args body ≡ written_all ss
    → parse_sbatch m (written_all cs ++ "--" ∷ script ∷ args) (some body)
      ≡ ok (with_command script args (effects (ss ++ cs) empty_batch))
unfolding parse_sbatch
parse_sbatch-written m ss cs body script args hs hc ws wc g directives =
    let a = effects ss empty_batch in
    let b = effects cs empty_batch in
    let p = with_command script args (effects (ss ++ cs) empty_batch) in
    let cli = parse_submit_flags-with_command m cs script args hc wc in
    let from_script =
      ap (λ t. parse_submit_flags m t false) directives ∙ parse_submit_flags-directives m ss hs in
    let merged =
      merge_batch-with_command a b script args (effects-script_args ss empty_batch)
      ∙ ap (with_command script args) (effects-merged ss cs g) in
    let no_wrap =
      ap (λ (q : ParsedBatch). q.wrap) (effects-append ss cs empty_batch)
      ∙ effects-wrap cs a wc
      ∙ effects-wrap ss empty_batch ws in
    rw (cli, from_script, parse_sbatch)
      (ap (λ (q : ParsedBatch). one_command q q.wrap q.script) merged
        ∙ one_command-with_command script args (effects (ss ++ cs) empty_batch) no_wrap)
