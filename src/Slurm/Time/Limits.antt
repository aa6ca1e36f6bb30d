-- ===== src/Slurm/Time/Limits.antt =====
-- The forms of a time limit that the comment of `parse_slurm_time` lists, as they are written and as
-- they are meant.
use veloce_ce.Base.{
  ℕ, ◌+◌, ◌*◌, ◌<◌, min, String, true, false, ◌≡◌, refl, ap, ◌∙◌, arith, List, [], ◌∷◌, some,
  nat_beq, if◌then◌else◌, u64_mod, Result, ok, ◌>>=◌, format, decimal, string_eq, split, split_once,
  trim, parse_u64-decimal, has-decimal, plain-decimal, is_plain, trim_plain, all_plain,
  plain-format, any_has, is_whitespace, has, has-format, format-decimal_not_empty, split-format,
  split_once-format, split_once_plain, split_plain, format_one,
}
use veloce_ce.Slurm.Time.{u64_max, parse_u64, clock, days_and_rest, seconds, parse_slurm_time}

pub data Limit : Type 0 where
  minutes : ℕ → Limit
  minutes_seconds : ℕ → ℕ → Limit
  hours_minutes_seconds : ℕ → ℕ → ℕ → Limit
  days_hours : ℕ → ℕ → Limit
  days_hours_minutes : ℕ → ℕ → ℕ → Limit
  days_hours_minutes_seconds : ℕ → ℕ → ℕ → ℕ → Limit

-- The parts of the written form, its numbers in decimal.
abbrev pub pieces : Limit → List String
pieces (minutes m) = decimal m ∷ []
pieces (minutes_seconds m s) = decimal m ∷ ":" ∷ decimal s ∷ []
pieces (hours_minutes_seconds h m s) = decimal h ∷ ":" ∷ decimal m ∷ ":" ∷ decimal s ∷ []
pieces (days_hours d h) = decimal d ∷ "-" ∷ decimal h ∷ []
pieces (days_hours_minutes d h m) = decimal d ∷ "-" ∷ decimal h ∷ ":" ∷ decimal m ∷ []
pieces (days_hours_minutes_seconds d h m s) =
    decimal d ∷ "-" ∷ decimal h ∷ ":" ∷ decimal m ∷ ":" ∷ decimal s ∷ []

-- The seconds that are meant.
abbrev pub meaning : Limit → ℕ
meaning (minutes m) = m * 60
meaning (minutes_seconds m s) = m * 60 + s
meaning (hours_minutes_seconds h m s) = h * 3600 + m * 60 + s
meaning (days_hours d h) = d * 86400 + h * 3600
meaning (days_hours_minutes d h m) = d * 86400 + h * 3600 + m * 60
meaning (days_hours_minutes_seconds d h m s) = d * 86400 + h * 3600 + m * 60 + s

-- The numbers are u64.
abbrev pub Fits : Limit → Type 0
Fits (minutes m) = m < u64_mod
Fits (minutes_seconds m s) = (m < u64_mod) × (s < u64_mod)
Fits (hours_minutes_seconds h m s) = (h < u64_mod) × (m < u64_mod) × (s < u64_mod)
Fits (days_hours d h) = (d < u64_mod) × (h < u64_mod)
Fits (days_hours_minutes d h m) = (d < u64_mod) × (h < u64_mod) × (m < u64_mod)
Fits (days_hours_minutes_seconds d h m s) =
    (d < u64_mod) × (h < u64_mod) × (m < u64_mod) × (s < u64_mod)

-- How the parser reads the two forms that have days, and no seconds: with no days they are minutes.
abbrev pub read_as : Limit → Limit
read_as (days_hours d h) = if nat_beq d 0 then minutes h else days_hours d h
read_as (days_hours_minutes d h m) =
    if nat_beq d 0 then minutes_seconds h m else days_hours_minutes d h m
read_as l = l

parse_u64_field : (n : ℕ) (field : String) → n < u64_mod → parse_u64 (decimal n) field ≡ ok n
unfolding parse_u64
parse_u64_field n field h = ground (arith, parse_u64-decimal n h)

module _ (ss : List String) (plain : all_plain ss ≡ true) where
  trim-format : trim (format ss) ≡ format ss
  trim-format = trim_plain (format ss) (plain-format ss ∙ plain)

-- The colons of a clock.
split_two :
    (a b : ℕ)
    → a < u64_mod
    → b < u64_mod
    → split b':' (format (decimal a ∷ ":" ∷ decimal b ∷ [])) ≡ decimal a ∷ decimal b ∷ []
split_two a b p q =
    split-format ":" (decimal a) (decimal b ∷ []) (has-decimal b':' a refl p)
    ∙ ap (◌∷◌ (decimal a)) (
        ap (split b':') (format_one (decimal b))
        ∙ split_plain b':' (decimal b) (has-decimal b':' b refl q))

split_three :
    (a b c : ℕ)
    → a < u64_mod
    → b < u64_mod
    → c < u64_mod
    → split b':' (format (decimal a ∷ ":" ∷ decimal b ∷ ":" ∷ decimal c ∷ []))
      ≡ decimal a ∷ decimal b ∷ decimal c ∷ []
split_three a b c p q r =
    split-format ":" (decimal a) (decimal b ∷ ":" ∷ decimal c ∷ []) (has-decimal b':' a refl p)
    ∙ ap (◌∷◌ (decimal a)) (split_two b c q r)

split_one : (a : ℕ) → a < u64_mod → split b':' (format (decimal a ∷ [])) ≡ decimal a ∷ []
split_one a p =
    ap (split b':') (format_one (decimal a))
    ∙ split_plain b':' (decimal a) (has-decimal b':' a refl p)

-- A text with days, and one without.
with_days :
    (d : ℕ) (ss : List String)
    → d < u64_mod
    → days_and_rest (format (decimal d ∷ "-" ∷ ss)) ≡ ok (d, format ss)
unfolding days_and_rest
with_days d ss h =
    let cut : split_once b'-' (format (decimal d ∷ "-" ∷ ss)) ≡ some (decimal d, format ss) =
      split_once-format "-" (decimal d) ss (has-decimal b'-' d refl h) in
    ground (arith, cut, parse_u64_field d "days" h)

without_days :
    (ss : List String) → any_has b'-' ss ≡ false → days_and_rest (format ss) ≡ ok (0, format ss)
unfolding days_and_rest
without_days ss h = ground (arith, split_once_plain b'-' (format ss) (has-format b'-' ss ∙ h))

-- The parser after the days are read.
parsed :
    (n d : ℕ) (ss rest : List String) {r : Result String (ℕ × ℕ × ℕ)}
    → all_plain (decimal n ∷ ss) ≡ true
    → days_and_rest (format (decimal n ∷ ss)) ≡ ok (d, format rest)
    → clock (format (decimal n ∷ ss)) d (split b':' (format rest)) ≡ r
    → parse_slurm_time (format (decimal n ∷ ss)) ≡ (r >>= λ t. ok (seconds d t))
unfolding parse_slurm_time
parsed n d ss rest p h e =
    rw (trim-format (decimal n ∷ ss) p, format-decimal_not_empty n ss, h, e) refl

saturated : (d h m s : ℕ) → seconds d (h, m, s) ≡ min (d * 86400 + h * 3600 + m * 60 + s) u64_max
unfolding seconds
saturated d h m s = omega arith

-- A number has no dash and no white space.
number_pieces :
    (n : ℕ) → n < u64_mod → (is_plain (decimal n) ≡ true) × (has b'-' (decimal n) ≡ false)
number_pieces n h = (plain-decimal n h, has-decimal b'-' n refl h)

clock_one :
    (raw : String) (d a : ℕ)
    → a < u64_mod
    → clock raw d (decimal a ∷ []) ≡ ok (if nat_beq d 0 then (0, a, 0) else (a, 0, 0))
unfolding clock
clock_one raw d a p = ground (arith, parse_u64_field a "minutes" p, parse_u64_field a "hours" p)

clock_two :
    (raw : String) (d a b : ℕ)
    → a < u64_mod
    → b < u64_mod
    → clock raw d (decimal a ∷ decimal b ∷ []) ≡ ok (if nat_beq d 0 then (0, a, b) else (a, b, 0))
unfolding clock
clock_two raw d a b p q = ground (
  arith,
  parse_u64_field a "minutes" p,
  parse_u64_field a "hours" p,
  parse_u64_field b "minutes" q,
  parse_u64_field b "seconds" q,
)

clock_three :
    (raw : String) (d a b c : ℕ)
    → a < u64_mod
    → b < u64_mod
    → c < u64_mod
    → clock raw d (decimal a ∷ decimal b ∷ decimal c ∷ []) ≡ ok (a, b, c)
unfolding clock
clock_three raw d a b c p q r = ground (
  arith,
  parse_u64_field a "hours" p,
  parse_u64_field b "minutes" q,
  parse_u64_field c "seconds" r,
)

clock_of :
    (raw : String) (d : ℕ) {parts : List String} {t : ℕ × ℕ × ℕ} (text : String)
    → split b':' text ≡ parts
    → clock raw d parts ≡ ok t
    → clock raw d (split b':' text) ≡ ok t
clock_of raw d text e h = rw e h

-- Each form is read as `read_as` says, up to saturation.
parse-read_as :
    (l : Limit)
    → Fits l
    → parse_slurm_time (format (pieces l)) ≡ ok (min (meaning (read_as l)) u64_max)
unfolding is_whitespace
parse-read_as (minutes m) p =
    parsed m 0 [] (decimal m ∷ []) (ground (arith, number_pieces m p))
      (without_days (decimal m ∷ []) (ground (arith, number_pieces m p)))
      (clock_of _ 0 _ (split_one m p) (clock_one _ 0 m p))
    ∙ ap ok (saturated 0 0 m 0 ∙ omega arith)
parse-read_as (minutes_seconds m s) (p, q) =
    let ss : List String = ":" ∷ decimal s ∷ [] in
    parsed m 0 ss (decimal m ∷ ss) (ground (arith, number_pieces m p, number_pieces s q))
      (without_days (decimal m ∷ ss) (ground (arith, number_pieces m p, number_pieces s q)))
      (clock_of _ 0 _ (split_two m s p q) (clock_two _ 0 m s p q))
    ∙ ap ok (saturated 0 0 m s ∙ omega arith)
parse-read_as (hours_minutes_seconds h m s) (p, q, r) =
    let ss : List String = ":" ∷ decimal m ∷ ":" ∷ decimal s ∷ [] in
    parsed h 0 ss (decimal h ∷ ss)
      (ground (arith, number_pieces h p, number_pieces m q, number_pieces s r))
      (without_days (decimal h ∷ ss)
        (ground (arith, number_pieces h p, number_pieces m q, number_pieces s r)))
      (clock_of _ 0 _ (split_three h m s p q r) (clock_three _ 0 h m s p q r))
    ∙ ap ok (saturated 0 h m s ∙ omega arith)
parse-read_as (days_hours d h) (p, q) =
    let ss : List String = decimal h ∷ [] in
    parsed d d ("-" ∷ ss) ss (ground (arith, number_pieces d p, number_pieces h q))
      (with_days d ss p) (clock_of _ d _ (split_one h q) (clock_one _ d h q))
    ∙ ap ok (ground (arith, saturated d h 0 0, saturated d 0 h 0))
parse-read_as (days_hours_minutes d h m) (p, q, r) =
    let ss : List String = decimal h ∷ ":" ∷ decimal m ∷ [] in
    parsed d d ("-" ∷ ss) ss
      (ground (arith, number_pieces d p, number_pieces h q, number_pieces m r)) (with_days d ss p)
      (clock_of _ d _ (split_two h m q r) (clock_two _ d h m q r))
    ∙ ap ok (ground (arith, saturated d h m 0, saturated d 0 h m))
parse-read_as (days_hours_minutes_seconds d h m s) (p, q, r, t) =
    let ss : List String = decimal h ∷ ":" ∷ decimal m ∷ ":" ∷ decimal s ∷ [] in
    parsed d d ("-" ∷ ss) ss
      (ground (arith, number_pieces d p, number_pieces h q, number_pieces m r, number_pieces s t))
      (with_days d ss p) (clock_of _ d _ (split_three h m s q r t) (clock_three _ d h m s q r t))
    ∙ ap ok (saturated d h m s)

-- The two forms that the parser can misread name a day at least.
abbrev pub NamesDay : Limit → Type 0
NamesDay (days_hours d h) = 0 < d
NamesDay (days_hours_minutes d h m) = 0 < d
NamesDay l = Unit

read_as_same : (l : Limit) → NamesDay l → read_as l ≡ l
read_as_same (minutes m) h = refl
read_as_same (minutes_seconds m s) h = refl
read_as_same (hours_minutes_seconds h m s) n = refl
read_as_same (days_hours d h) n = ground arith
read_as_same (days_hours_minutes d h m) n = ground arith
read_as_same (days_hours_minutes_seconds d h m s) n = refl

-- If the numbers of a limit fit u64, and days with no seconds are above 0, the written limit
-- is read as the seconds it means, or as u64::MAX if they are more.
pub parse_slurm_time-pieces :
    (l : Limit)
    → Fits l
    → NamesDay l
    → parse_slurm_time (format (pieces l)) ≡ ok (min (meaning l) u64_max)
parse_slurm_time-pieces l p n =
    parse-read_as l p ∙ ap (λ (k : Limit). ok (min (meaning k) u64_max)) (read_as_same l n)

-- If hours and minutes fit u64, `0-hours` is read as so many minutes, and `0-hours:minutes` as so
-- many minutes and seconds.
pub parse_slurm_time_no_days :
    (h m : ℕ)
    → h < u64_mod
    → m < u64_mod
    → (parse_slurm_time (format (pieces (days_hours 0 h))) ≡ ok (min (h * 60) u64_max))
      × (parse_slurm_time (format (pieces (days_hours_minutes 0 h m)))
          ≡ ok (min (h * 60 + m) u64_max))
parse_slurm_time_no_days h m p q = (
  parse-read_as (days_hours 0 h) (omega arith, p),
  parse-read_as (days_hours_minutes 0 h m) (omega arith, p, q),
)
