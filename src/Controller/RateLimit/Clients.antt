-- ===== src/Controller/RateLimit/Clients.antt =====
-- The requests of one client among those of all.
pub mod Bound
use veloce_ce.Base.{
  ℕ, zero, suc, ◌+◌, ◌-◌, ◌/◌, ◌%◌, ◌≤◌, ◌<◌, String, ◌≡◌, refl, sym, ap, ◌∙◌, subst, arith, Bool,
  true, false, not, ◌&&◌, ◌||◌, List, [], ◌∷◌, Option, none, some, Map, get, get-insert, insert,
  ◌==◌, string_eq, nat_beq, leb, if◌then◌else◌, Result, ok, err, add32, add32_exact, u32_mod, ◌≢◌,
  Bool-cases, inl, inr, beq-cases, ◌⊎◌,
}
use veloce_ce.Controller.Auth.{AuthenticatedPrincipal}
use veloce_ce.Controller.RateLimit.{
  ApiRateLimiter, RateBucket, RequestClass, read, mutation, admin, Method, new, classify, limit_for,
  bucket_key, current, charge, check,
}
use veloce_ce.Controller.RateLimit.Window.{
  used, used_of, FitsBucket, charge_now, charge_answer, charge_fits, charge_window,
}

pub record Call : Type 0 where
  pub now : ℕ
  pub principal : String
  pub method : Method
  pub path : String
  pub p : AuthenticatedPrincipal

abbrev pub class_of : Call → RequestClass
class_of c = classify c.method c.path c.p

abbrev pub same_class : RequestClass → RequestClass → Bool
same_class read read = true
same_class mutation mutation = true
same_class admin admin = true
same_class _ _ = false

abbrev pub answer : Call → ApiRateLimiter → ApiRateLimiter × Result ℕ (Unit {0})
answer c l = check c.now c.principal c.method c.path c.p l

abbrev pub is_ok : Result ℕ (Unit {0}) → Bool
is_ok (ok u) = true
is_ok (err e) = false

-- Does the request count for the client, its class and the minute?
abbrev pub counts : String → RequestClass → ℕ → Call → Bool
counts a class w c = a == c.principal && same_class class (class_of c) && nat_beq w (c.now / 60)

-- The requests of the client and class that pass in the minute.
unfoldable pub passed : String → RequestClass → ℕ → ApiRateLimiter → List Call → ℕ
passed a class w l [] = 0
passed a class w l (c ∷ cs) =
    (if counts a class w c && is_ok (answer c l).1 then 1 else 0)
    + passed a class w (answer c l).0 cs

-- The times that the requests read, in the order in which they hold a bucket, never go back, and
-- start at `t` or later.
abbrev pub Ordered : ℕ → List Call → Type 0
Ordered t [] = Unit
Ordered t (c ∷ cs) = (t ≤ c.now) × Ordered c.now cs

-- The limits are u32.
pub record LimitsFit (l : ApiRateLimiter) : Type 0 where
  pub read_fits : l.read_limit < u32_mod
  pub mutation_fits : l.mutation_limit < u32_mod
  pub admin_fits : l.admin_limit < u32_mod

pub limit_fits :
    (class : RequestClass) (l : ApiRateLimiter) → LimitsFit l → limit_for l class < u32_mod
unfolding limit_for
limit_fits read l f = f.read_fits
limit_fits mutation l f = f.mutation_fits
limit_fits admin l f = f.admin_fits

-- A request changes no limit.
pub check_limit_for :
    (class : RequestClass) (c : Call) (l : ApiRateLimiter)
    → limit_for (answer c l).0 class ≡ limit_for l class
unfolding check limit_for
check_limit_for read c l = ground arith
check_limit_for mutation c l = ground arith
check_limit_for admin c l = ground arith

pub check_LimitsFit : (c : Call) (l : ApiRateLimiter) → LimitsFit l → LimitsFit (answer c l).0
unfolding check
check_LimitsFit c l f = ground arith

-- The bucket that a request leaves.
abbrev pub charged : Call → Option RateBucket → ApiRateLimiter → RateBucket
charged c b l = (charge (limit_for l (class_of c)) c.now (current (c.now / 60) b)).0

abbrev pub own_key : Call → String
own_key c = bucket_key c.principal (class_of c)

-- Is the bucket of the key charged?
abbrev pub is_charged : String → Call → ApiRateLimiter → Bool
is_charged key c l = not (nat_beq (limit_for l (class_of c)) 0) && (own_key c == key)

pub check_bucket :
    (key : String) (c : Call) (l : ApiRateLimiter)
    → get key (answer c l).0.buckets
      ≡ (if is_charged key c l then some (charged c (get key l.buckets) l) else get key l.buckets)
unfolding check
check_bucket key c l = elim (beq-cases (own_key c) key) [
  | inl e ↦
      subst
        (λ k.
          get k (answer c l).0.buckets
          ≡ (if is_charged k c l then some (charged c (get k l.buckets) l) else get k l.buckets))
        e
        (ground (
          arith,
          get-insert (own_key c) (own_key c) (charged c (get (own_key c) l.buckets) l) l.buckets,
          string_eq.beq_correct (own_key c) (own_key c),
        ))
  | inr ne ↦
      ground (arith, get-insert (own_key c) key (charged c (get (own_key c) l.buckets) l) l.buckets)
]

pub check_answer :
    (c : Call) (l : ApiRateLimiter)
    → (answer c l).1 ≡ (
        if nat_beq (limit_for l (class_of c)) 0
        then ok tt
        else (charge
            (limit_for l (class_of c))
            c.now
            (current (c.now / 60) (get (own_key c) l.buckets))).1)
unfolding check
check_answer c l = ground arith
