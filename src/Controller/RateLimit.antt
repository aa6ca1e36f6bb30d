-- ===== src/Controller/RateLimit.antt =====
-- `ApiRateLimiter` of controller/src/rate_limit.rs. A request reads the clock, then takes the entry of
-- its bucket and holds it to the end of the call, so that no other request is between its reads and
-- writes of the counters, which are plain numbers here; but another one may have held the bucket
-- between the reading of the clock and that. So the time is an argument of a call, and the calls one
-- after the other, in the order in which they hold the bucket, may come with any times.
pub mod Clients
pub mod Window
use veloce_ce.Base.{
  ℕ, ◌+◌, ◌-◌, ◌/◌, ◌%◌, String, Bool, true, false, not, ◌&&◌, ◌||◌, List, [], ◌∷◌, Option, none,
  some, Map, get, insert, ◌==◌, string_eq, nat_beq, leb, if◌then◌else◌, Result, ok, err, format,
  starts_with, has_text, add32, u32_mod,
}
use veloce_ce.Controller.Auth.{AuthenticatedPrincipal, is_admin_or_operator}

pub record RateBucket : Type 0 where
  pub window_start : ℕ  -- a minute
  pub count : ℕ

pub record ApiRateLimiter : Type 0 where
  pub buckets : Map String RateBucket
  pub read_limit : ℕ
  pub mutation_limit : ℕ
  pub admin_limit : ℕ

pub data RequestClass : Type 0 where
  read mutation admin : RequestClass

-- `http::Method`: the four that change something, and the others.
pub data Method : Type 0 where
  post put delete patch : Method
  other : String → Method

unfoldable pub new : ℕ → ℕ → ℕ → ApiRateLimiter
new r m a = record { buckets = []; read_limit = r; mutation_limit = m; admin_limit = a }

is_mutation : Method → Bool
is_mutation post = true
is_mutation put = true
is_mutation delete = true
is_mutation patch = true
is_mutation (other name) = false

unfoldable pub classify : Method → String → AuthenticatedPrincipal → RequestClass
unfolding is_mutation
classify method path principal =
    if starts_with "/api/v1/admin" path
      || (is_admin_or_operator principal && has_text "/admin" path)
    then admin
    else if is_mutation method
    then mutation
    else read

unfoldable pub limit_for : ApiRateLimiter → RequestClass → ℕ
limit_for l admin = l.admin_limit
limit_for l mutation = l.mutation_limit
limit_for l read = l.read_limit

-- `class as u8`
abbrev pub tag : RequestClass → String
tag read = "0"
tag mutation = "1"
tag admin = "2"

unfoldable pub bucket_key : String → RequestClass → String
bucket_key principal class = format (principal ∷ ":" ∷ tag class ∷ [])

-- `fetch_sub`
abbrev pub sub32 : ℕ → ℕ → ℕ
sub32 a b = (a + u32_mod - b) % u32_mod

-- The bucket of the key, set back if its window is over.
pub current : ℕ → Option RateBucket → RateBucket
current now_min none = record { window_start = now_min; count = 0 }
current now_min (some b) =
    if nat_beq b.window_start now_min then b else record { window_start = now_min; count = 0 }

-- One more request of the bucket; the count is taken back if there were enough.
pub charge : ℕ → ℕ → RateBucket → RateBucket × Result ℕ (Unit {0})
charge limit now b =
    let added = add32 b.count 1 in
    if leb limit b.count
    then (record b { count = sub32 added 1 }, err (60 - now % 60))
    else (record b { count = added }, ok tt)

-- The first argument is the time in seconds; `err` says after how many to come again.
unfoldable pub check :
    ℕ
    → String
    → Method
    → String
    → AuthenticatedPrincipal
    → ApiRateLimiter
    → ApiRateLimiter × Result ℕ (Unit {0})
unfolding current charge
check now principal method path p l =
    let class = classify method path p in
    let limit = limit_for l class in
    if nat_beq limit 0
    then (l, ok tt)
    else let key = bucket_key principal class in
      let (b, answer) = charge limit now (current (now / 60) (get key l.buckets)) in
      (record l { buckets = insert key b l.buckets }, answer)
