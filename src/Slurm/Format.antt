-- ===== src/Slurm/Format.antt =====
-- veloce-slurm/src/format.rs: Slurm-shaped lines from the answers of `veloce --json`.
use veloce_ce.Base.{
  ℕ, ◌-◌, ◌/◌, ◌%◌, ℤ, pos, negsuc, is_zero, String, Bool, false, ◌||◌, not, Option, none, some,
  List, [], ◌∷◌, map, if◌then◌else◌, ◌==◌, string_eq, Result, ok, err, ◌>>=◌, format, decimal, join,
  split, ltb, nat_beq, length, contains, all_chars, is_ascii_digit, u32_mod, trim,
}
use Prim.Native.Char.{code}
use veloce_ce.Slurm.Spec.{Skip}

-- What is used of `serde_json`
pub record Json : Type 1 where
  pub Value : Type 0
  pub from_str : String → Result String Value
  pub get : String → Value → Option Value
  pub as_u64 : Value → Option ℕ
  pub as_i64 : Value → Option ℤ
  pub as_str : Value → Option String
  pub as_bool : Value → Option Bool
  pub as_array : Value → Option (List Value)
  -- the entries of an object, in its order
  pub as_object : Value → Option (List (String × Value))

unfoldable pub format_skip : Skip → String
format_skip skip =
    format
      ("veloce-slurm: skipping unsupported option " ∷ skip.option ∷ " (" ∷ skip.reason ∷ ")" ∷ [])

-- `as i32` of an i64
unfoldable pub as_i32 : ℤ → ℤ
as_i32 (pos n) =
    let low = n % u32_mod in if ltb low 2147483648 then pos low else negsuc (u32_mod - 1 - low)
as_i32 (negsuc n) =
    let low = n % u32_mod in if ltb low 2147483648 then negsuc low else pos (u32_mod - 1 - low)

abbrev pub and_then {ℓ κ} : {A : Type ℓ} {B : Type κ} → Option A → (A → Option B) → Option B
and_then none f = none
and_then (some a) f = f a

abbrev pub or_default {ℓ} : {A : Type ℓ} → A → Option A → A
or_default d none = d
or_default d (some a) = a

-- The exit code of `srun`
abbrev pub exit_code_of : String → ℤ → ℤ
exit_code_of status exit =
    if status == "failed"
    then (if is_zero exit then pos 1 else exit)
    else if status == "killed"
    then pos 1
    else exit

-- `rsplit_once(sep)`
pub rsplit_once : ℕ → String → Option (String × String)
rsplit_once sep String.[] = none
rsplit_once sep (String.◌∷◌ c s) = elim (rsplit_once sep s) [
  | some (a, b) ↦ some (String.◌∷◌ c a, b)
  | none ↦ if nat_beq (code c) sep then some (String.[], s) else none
]

unfoldable pub strip_port : String → String
unfolding rsplit_once
strip_port id = elim (rsplit_once b':' id) [
  | none ↦ id
  | some (h, p) ↦ if all_chars is_ascii_digit p then h else id
]

abbrev two_digits : ℕ → String
two_digits n = if ltb n 10 then format ("0" ∷ decimal n ∷ []) else decimal n

unfoldable pub elapsed : ℕ → ℕ → String → String
elapsed start now st =
    if not (st == "R") || nat_beq start 0 || ltb now start
    then "0:00"
    else (let secs = now - start in
        let h = secs / 3600 in
        let m = (secs % 3600) / 60 in
        let s = secs % 60 in
        if ltb 0 h
        then format (decimal h ∷ ":" ∷ two_digits m ∷ ":" ∷ two_digits s ∷ [])
        else format (decimal m ∷ ":" ∷ two_digits s ∷ []))

abbrev status_text : String → String
status_text s =
    if s == "Pending"
    then "PD"
    else if s == "Running"
    then "R"
    else if s == "Killed"
    then "CA"
    else "UK"

abbrev not_empty : List String → List String
not_empty [] = []
not_empty (s ∷ ss) = let rest = not_empty ss in if s == "" then rest else s ∷ rest

module _ (J : Json) where
  -- `v.get("job_id")`, …: the first key that has such a value
  abbrev first_of {ℓ} : {A : Type ℓ} → (J.Value → Option A) → J.Value → List String → Option A
  first_of read v [] = none
  first_of read v (k ∷ keys) = elim (and_then (J.get k v) read) [
    | some a ↦ some a
    | none ↦ first_of read v keys
  ]

  abbrev pub json_str : J.Value → List String → Option String
  json_str v keys = first_of J.as_str v keys

  abbrev pub json_u64 : J.Value → List String → Option ℕ
  json_u64 v keys = first_of J.as_u64 v keys

  unfoldable pub read_json : String → String → Result String J.Value
  read_json tool stdout = elim (J.from_str (trim stdout)) [
    | ok v ↦ ok v
    | err e ↦
        err (
          format ("veloce " ∷ tool ∷ " did not return JSON: " ∷ e ∷ "; stdout was: " ∷ stdout ∷ []))
  ]

  unfoldable pub format_sbatch_submitted : String → Result String String
  unfolding read_json
  format_sbatch_submitted stdout = do
    v ← read_json "submit" stdout
    elim (json_u64 v ("job_id" ∷ "base_job_id" ∷ [])) [
      | some id ↦ ok (format ("Submitted batch job " ∷ decimal id ∷ []))
      | none ↦ err (format ("veloce submit JSON missing job_id: " ∷ stdout ∷ []))
    ]

  abbrev or_get : Option J.Value → Option J.Value → Option J.Value
  or_get none v = v
  or_get (some v) other = some v

  abbrev wait_line : Option ℕ → String → String
  wait_line (some id) status = format ("srun: job " ∷ decimal id ∷ " " ∷ status ∷ [])
  wait_line none status = format ("srun: " ∷ status ∷ [])

  unfoldable pub format_srun_wait : String → Result String (String × ℤ)
  unfolding read_json
  format_srun_wait stdout = do
    v ← read_json "wait" stdout
    let id = and_then (or_get (J.get "job_id" v) (J.get "parent_job_id" v)) J.as_u64 in
        let status = or_default "unknown" (and_then (J.get "status" v) J.as_str) in
        let exit = as_i32 (or_default (pos 0) (and_then (J.get "exit_code" v) J.as_i64)) in
        ok (wait_line id status, exit_code_of status exit)

  abbrev keys_of : List (String × J.Value) → List String
  keys_of [] = []
  keys_of ((k, v) ∷ m) = k ∷ keys_of m

  abbrev object_status : Option (List (String × J.Value)) → String
  object_status none = "UK"
  object_status (some m) =
      if contains "Completed" (keys_of m)
      then "CD"
      else if contains "Failed" (keys_of m)
      then "F"
      else "UK"

  pub status_code : Option J.Value → String
  status_code none = "UK"
  status_code (some v) = elim (J.as_str v) [
    | some s ↦ status_text s
    | none ↦ object_status (J.as_object v)
  ]

  abbrev texts : List J.Value → List String
  texts [] = []
  texts (v ∷ vs) = let rest = texts vs in elim (J.as_str v) [ some s ↦ s ∷ rest | none ↦ rest ]

  abbrev workers_text : Option (List J.Value) → String
  workers_text none = ""
  workers_text (some a) = join "," (map strip_port (texts a))

  pub queue_line : ℕ → J.Value → String
  unfolding status_code
  queue_line now job =
      let st = status_code (J.get "status" job) in
      let workers = workers_text (and_then (J.get "assigned_workers" job) J.as_array) in
      let nodes =
        or_default (length (not_empty (split b',' workers)))
          (and_then (J.get "req_nodes" job) J.as_u64) in
      join " " (
        decimal (or_default 0 (json_u64 job ("id" ∷ "job_id" ∷ [])))
        ∷ or_default "-" (json_str job ("qos" ∷ []))
        ∷ or_default "unnamed" (json_str job ("job_name" ∷ []))
        ∷ or_default "-" (json_str job ("user_id" ∷ []))
        ∷ st
        ∷ elapsed (or_default 0 (json_u64 job ("start_time" ∷ []))) now st
        ∷ decimal nodes
        ∷ workers
        ∷ [])

  unfoldable pub format_squeue : J.Value → ℕ → Result String String
  unfolding queue_line
  format_squeue jobs now = elim (J.as_array jobs) [
    | none ↦ err "veloce jobs list JSON was not an array"
    | some arr ↦
        ok (
          join "\n" ("JOBID PARTITION NAME USER ST TIME NODES NODELIST" ∷ map (queue_line now) arr))
  ]

  abbrev gres_entries : List (String × J.Value) → List String
  gres_entries [] = []
  gres_entries ((k, v) ∷ m) =
      format (k ∷ ":" ∷ decimal (or_default 0 (J.as_u64 v)) ∷ []) ∷ gres_entries m

  abbrev or_null : String → String
  or_null s = if s == "" then "(null)" else s

  pub info_line : J.Value → String
  info_line n =
      let online = or_default false (and_then (J.get "online" n) J.as_bool) in
      join " " (
        or_default "-" (json_str n ("hostname" ∷ "id" ∷ []))
        ∷ (if online then "idle" else "down")
        ∷ decimal (or_default 0 (json_u64 n ("total_cores" ∷ [])))
        ∷ decimal (or_default 0 (json_u64 n ("total_memory" ∷ [])) / 1048576)
        ∷ decimal (or_default 0 (json_u64 n ("available_cores" ∷ [])))
        ∷ (elim (and_then (J.get "gres" n) J.as_object) [
          | none ↦ "(null)"
          | some m ↦ or_null (join "," (gres_entries m))
        ])
        ∷ [])

  unfoldable pub format_sinfo : J.Value → Result String String
  unfolding info_line
  format_sinfo nodes = elim (J.as_array nodes) [
    | none ↦ err "veloce nodes list JSON was not an array"
    | some arr ↦ ok (join "\n" ("NODELIST STATE CPUS MEMORY AVAIL_CPUS GRES" ∷ map info_line arr))
  ]

  unfoldable pub format_scancel : String → Result String String
  unfolding read_json
  format_scancel stdout = do
    v ← read_json "kill" stdout
    ok (
        format
          ("scancel: Terminating job " ∷ decimal (or_default 0 (json_u64 v ("job_id" ∷ []))) ∷ []))
