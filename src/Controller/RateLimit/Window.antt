-- ===== src/Controller/RateLimit/Window.antt =====
-- How many requests of one client pass in a minute.
use veloce_ce.Base.{
  ℕ, ◌-◌, ◌/◌, ◌%◌, ◌<◌, String, ◌≡◌, arith, Option, none, some, get, string_eq, nat_beq, leb,
  if◌then◌else◌, ok, err, add32, u32_mod,
}
use veloce_ce.Controller.RateLimit.{ApiRateLimiter, RateBucket, current, charge}

-- What the bucket holds of a minute.
abbrev pub used_of : ℕ → Option RateBucket → ℕ
used_of w none = 0
used_of w (some b) = if nat_beq b.window_start w then b.count else 0

abbrev pub used : ℕ → String → ApiRateLimiter → ℕ
used w key l = used_of w (get key l.buckets)

-- The counter of a bucket is a u32.
abbrev pub FitsBucket : Option RateBucket → Type 0
FitsBucket none = Unit
FitsBucket (some b) = b.count < u32_mod

-- What a request does to what its bucket holds of its minute.
pub charge_now :
    (limit now : ℕ) (b : Option RateBucket)
    → FitsBucket b
    → used_of (now / 60) (some (charge limit now (current (now / 60) b)).0) ≡ (
        if leb limit (used_of (now / 60) b)
        then used_of (now / 60) b
        else add32 (used_of (now / 60) b) 1)
unfolding charge current add32
charge_now limit now none f = ground arith
charge_now limit now (some b) f = ground arith

pub charge_answer :
    (limit now : ℕ) (b : Option RateBucket)
    → (charge limit now (current (now / 60) b)).1
      ≡ (if leb limit (used_of (now / 60) b) then err (60 - now % 60) else ok tt)
unfolding charge current
charge_answer limit now none = ground arith
charge_answer limit now (some b) = ground arith

pub charge_fits :
    (limit now : ℕ) (b : Option RateBucket)
    → FitsBucket (some (charge limit now (current (now / 60) b)).0)
unfolding charge current add32
charge_fits limit now none = ground arith
charge_fits limit now (some b) = ground arith

pub charge_window :
    (limit now : ℕ) (b : Option RateBucket)
    → (charge limit now (current (now / 60) b)).0.window_start ≡ now / 60
unfolding charge current
charge_window limit now none = ground arith
charge_window limit now (some b) = ground arith
