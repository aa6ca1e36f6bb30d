-- ===== src/Slurm/Script/Words.antt =====
-- Quoted words in a `#SBATCH` line.
use veloce_ce.Base.{
  String, false, none, some, List, [], ◌∷◌, ◌==◌, string_eq, has, append_nil, is_whitespace, ◌≡◌,
  refl, sym, ap, ◌∙◌, arith,
}
use Prim.Native.Char.{Char}
use Prim.Native.String as raw
use Prim.Native.String.append
use veloce_ce.Slurm.Script.{appended, split_from, shellish_split}

-- Each word in double quotes, with a space behind
abbrev pub quoted_line : List String → String
quoted_line [] = ""
quoted_line (w ∷ ws) =
    String.◌∷◌ "\"" (raw.◌++◌ w (String.◌∷◌ "\"" (String.◌∷◌ " " (quoted_line ws))))

abbrev pub IsWord : String → Type 0
IsWord w = (has b'"' w ≡ false) × ((w == "") ≡ false)

abbrev pub AllWords : List String → Type 0
AllWords [] = Unit
AllWords (w ∷ ws) = IsWord w × AllWords ws

append-appended :
    (cur : String) (c : Char) (w : String)
    → raw.◌++◌ (appended cur c) w ≡ raw.◌++◌ cur (String.◌∷◌ c w)
append-appended String.[] c w =
    ap (λ t. raw.◌++◌ t w) (append.nil (String.◌∷◌ c ""))
    ∙ append.cons c "" w
    ∙ ap (String.◌∷◌ c) (append.nil w)
    ∙ sym (append.nil (String.◌∷◌ c w))
append-appended (String.◌∷◌ d cur) c w =
    ap (λ t. raw.◌++◌ t w) (append.cons d cur (String.◌∷◌ c ""))
    ∙ append.cons d (appended cur c) w
    ∙ ap (String.◌∷◌ d) (append-appended cur c w)
    ∙ sym (append.cons d cur (String.◌∷◌ c w))

-- What stands in quotes is pushed as it is.
split_from-quoted :
    (w cur s : String)
    → has b'"' w ≡ false
    → split_from (raw.◌++◌ w (String.◌∷◌ "\"" s)) (some b'"') cur
      ≡ split_from s none (raw.◌++◌ cur w)
unfolding split_from
split_from-quoted String.[] cur s h =
    ap (λ t. split_from t (some b'"') cur) (append.nil (String.◌∷◌ "\"" s))
    ∙ ap (split_from s none) (sym (append_nil cur))
split_from-quoted (String.◌∷◌ c w) cur s h =
    ap (λ t. split_from t (some b'"') cur) (append.cons c w (String.◌∷◌ "\"" s))
    ∙ pushed
    ∙ split_from-quoted w (appended cur c) s (ground (arith, h))
    ∙ ap (split_from s none) (append-appended cur c w)
  where
    tail : String
    tail = raw.◌++◌ w (String.◌∷◌ "\"" s)

    pushed :
        split_from (String.◌∷◌ c tail) (some b'"') cur
        ≡ split_from tail (some b'"') (appended cur c)
    pushed = ground (arith, h)

-- Words in double quotes are cut apart as they are, white space and single quotes included, if they
-- are not empty and have no double quote.
pub shellish_split-quoted_line :
    (ws : List String) → AllWords ws → shellish_split (quoted_line ws) ≡ ws
unfolding shellish_split split_from is_whitespace
shellish_split-quoted_line [] h = refl
shellish_split-quoted_line (w ∷ ws) ((q, n), hs) =
    split_from-quoted w "" (String.◌∷◌ " " (quoted_line ws)) q
    ∙ ap (split_from (String.◌∷◌ " " (quoted_line ws)) none) (append.nil w)
    ∙ rw (n) (ap (◌∷◌ w) (shellish_split-quoted_line ws hs))
