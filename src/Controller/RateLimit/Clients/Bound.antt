-- ===== src/Controller/RateLimit/Clients/Bound.antt =====
-- The bound on the requests that pass, and what a refused client is told.
use veloce_ce.Base.{
  nat_beq_iff, Bool, ◌*◌, ℕ, ◌+◌, ◌-◌, ◌/◌, ◌%◌, ◌≤◌, ◌<◌, String, ◌≡◌, refl, sym, ap, ◌∙◌, arith,
  true, false, not, ◌&&◌, List, [], ◌∷◌, get, string_eq, nat_beq, leb, if◌then◌else◌, ok, err,
  add32_exact, Bool-cases, inl, inr,
}
use veloce_ce.Controller.RateLimit.{
  ApiRateLimiter, RequestClass, read, mutation, admin, new, limit_for, bucket_key,
}
use veloce_ce.Controller.RateLimit.Window.{
  used, used_of, FitsBucket, charge_now, charge_answer, charge_fits, charge_window,
}
use veloce_ce.Controller.RateLimit.Clients.{
  Call, class_of, same_class, answer, is_ok, counts, passed, Ordered, LimitsFit, limit_fits,
  check_limit_for, check_LimitsFit, own_key, is_charged, check_bucket, check_answer,
}

-- What a request of the minute leaves of it in the bucket
step_used :
    (key : String) (c : Call) (l : ApiRateLimiter) (w : ℕ)
    → LimitsFit l
    → FitsBucket (get key l.buckets)
    → w ≡ c.now / 60
    → used w key (answer c l).0 ≡ (
        if is_charged key c l && not (leb (limit_for l (class_of c)) (used w key l))
        then used w key l + 1
        else used w key l)
step_used key c l w limits fits e = rw (check_bucket key c l) (
    ground (
      arith,
      e,
      fits,
      charge_now (limit_for l (class_of c)) c.now (get key l.buckets) fits,
      limit_fits (class_of c) l limits,
      add32_exact (used w key l) 1,
    ))

step_FitsBucket :
    (key : String) (c : Call) (l : ApiRateLimiter)
    → FitsBucket (get key l.buckets)
    → FitsBucket (get key (answer c l).0.buckets)
step_FitsBucket key c l fits =
    rw (check_bucket key c l)
      (ground (arith, fits, charge_fits (limit_for l (class_of c)) c.now (get key l.buckets)))

-- The request is charged to the key, whatever the limits of a limiter with the same ones.
is_charged_after :
    (key : String) (c d : Call) (l : ApiRateLimiter)
    → is_charged key d (answer c l).0 ≡ is_charged key d l
is_charged_after key c d l = rw (check_limit_for (class_of d) c l) refl

-- One more entry is one more limit.
times_entries :
    (limit n : ℕ) (inside : Bool)
    → limit * ((if inside then 0 else 1) + n) ≡ (if inside then 0 else limit) + limit * n
times_entries limit n true = omega arith
times_entries limit n false = omega arith

-- How often the requests that are charged to the key, in the order in which they hold its bucket, come
-- to the minute from another one
abbrev pub entries : String → ApiRateLimiter → ℕ → Bool → List Call → ℕ
entries key l w inside [] = 0
entries key l w inside (c ∷ cs) =
    if not (is_charged key c l)
    then entries key l w inside cs
    else if nat_beq w (c.now / 60)
    then (if inside then 0 else 1) + entries key l w true cs
    else entries key l w false cs

entries_after :
    (key : String) (c : Call) (l : ApiRateLimiter) (w : ℕ) (inside : Bool) (cs : List Call)
    → entries key (answer c l).0 w inside cs ≡ entries key l w inside cs
entries_after key c l w inside [] = refl
entries_after key c l w inside (d ∷ cs) = ground (
  arith,
  is_charged_after key c d l,
  entries_after key c l w inside cs,
  entries_after key c l w true cs,
  entries_after key c l w false cs,
)

module _ (a : String) (class : RequestClass) (w : ℕ) where
  -- A request that counts for the client has its key, its class and the minute.
  counts_key :
      (c : Call)
      → counts a class w c ≡ true
      → (own_key c ≡ bucket_key a class) × (class ≡ class_of c) × (w ≡ c.now / 60)
  counts_key c h =
      let same : a ≡ c.principal = ground (arith, string_eq.beq_correct a c.principal) in
      let of_class : class ≡ class_of c = same_class_eq class (class_of c) (ground arith) in
      (
        ap (λ i. bucket_key i (class_of c)) (sym same) ∙ ap (bucket_key a) (sym of_class),
        of_class,
        ground arith,
      )
    where
      same_class_eq : (x y : RequestClass) → same_class x y ≡ true → x ≡ y
      same_class_eq read read e = refl
      same_class_eq mutation mutation e = refl
      same_class_eq admin admin e = refl
      same_class_eq read mutation e = absurd (ground arith)
      same_class_eq read admin e = absurd (ground arith)
      same_class_eq mutation read e = absurd (ground arith)
      same_class_eq mutation admin e = absurd (ground arith)
      same_class_eq admin read e = absurd (ground arith)
      same_class_eq admin mutation e = absurd (ground arith)

  -- The client's own request passes if the bucket of the minute has room.
  own_answer :
      (c : Call) (l : ApiRateLimiter)
      → counts a class w c ≡ true
      → 0 < limit_for l class
      → (is_ok (answer c l).1 ≡ not (leb (limit_for l class) (used w (bucket_key a class) l)))
        × (is_charged (bucket_key a class) c l ≡ true)
        × (limit_for l (class_of c) ≡ limit_for l class)
  own_answer c l mine pos =
      let (same_key, same, now) = counts_key c mine in
      let room : used (c.now / 60) (own_key c) l ≡ used w (bucket_key a class) l =
        ap (λ m. used m (own_key c) l) (sym now) ∙ ap (λ k. used w k l) same_key in
      let same_limit : limit_for l (class_of c) ≡ limit_for l class = ap (limit_for l) (sym same) in
      (
        ground (
          arith,
          check_answer c l,
          charge_answer (limit_for l (class_of c)) c.now (get (own_key c) l.buckets),
        ),
        ground (arith, string_eq.beq_correct (own_key c) (bucket_key a class)),
        same_limit,
      )

  -- A request that is not charged to the client's key does not count for it.
  uncharged :
      (c : Call) (l : ApiRateLimiter)
      → is_charged (bucket_key a class) c l ≡ false
      → 0 < limit_for l class
      → counts a class w c ≡ false
  uncharged c l free pos = elim (Bool-cases (counts a class w c)) [
    | inl mine ↦ absurd (ground (arith, free, own_answer c l mine pos))
    | inr other ↦ other
  ]

  -- What the minute still has room for
  abbrev room : ApiRateLimiter → Bool → ℕ
  room l inside = if inside then limit_for l class - used w (bucket_key a class) l else 0

  passed-entries :
      (l : ApiRateLimiter) (inside : Bool) (cs : List Call)
      → LimitsFit l
      → FitsBucket (get (bucket_key a class) l.buckets)
      → 0 < limit_for l class
      → passed a class w l cs
        ≤ limit_for l class * entries (bucket_key a class) l w inside cs + room l inside
  unfolding passed
  passed-entries l inside [] limits fits pos = omega arith
  passed-entries l inside (c ∷ cs) limits fits pos =
      let key = bucket_key a class in
      let l' = (answer c l).0 in
      let L = limit_for l class in
      let rest : (i : Bool)
          → passed a class w l' cs
            ≤ L * entries key l w i cs + (if i then L - used w key l' else 0) =
        λ i.
          rw (← check_limit_for class c l, ← entries_after key c l w i cs)
            (passed-entries l' i cs (check_LimitsFit c l limits) (step_FitsBucket key c l fits)
              (rw (check_limit_for class c l) pos)) in
      elim (Bool-cases (is_charged key c l)) [
        | inr free ↦
            let other = uncharged c l free pos in
            let kept : used w key l' ≡ used w key l =
              ap (used_of w) (check_bucket key c l ∙ rw (free) refl) in
            ground (arith, free, other, kept, rest inside)
        | inl mine ↦ elim (Bool-cases (nat_beq w (c.now / 60))) [
          | inr away ↦
              let other : counts a class w c ≡ false = ground (arith, away) in
              ground (arith, mine, away, other, rest false)
          | inl now ↦
              let e : w ≡ c.now / 60 = (nat_beq_iff w (c.now / 60)).0 now in
              let step = step_used key c l w limits fits e in
              let E = entries key l w true cs in
              let here : entries key l w inside (c ∷ cs) ≡ (if inside then 0 else 1) + E =
                ground (arith, mine, now) in
              let times = ap (λ n. L * n) here ∙ times_entries L E inside in
              let more = rest true in
              elim (Bool-cases (counts a class w c)) [
                | inr other ↦ elim (Bool-cases inside) [
                  | inl i ↦ ground (arith, times, more, step, other, i)
                  | inr o ↦ ground (arith, times, more, step, other, o)
                ]
                | inl own ↦ elim (Bool-cases inside) [
                  | inl i ↦ ground (arith, times, more, step, own, own_answer c l own pos, i)
                  | inr o ↦ ground (arith, times, more, step, own, own_answer c l own pos, o)
                ]
              ]
        ]
      ]

-- If the limits of a new limiter are u32 and that of a class is not 0, then of the requests of all
-- clients, in the order in which they hold a bucket, and whatever times they read from the clock
-- before, at most so many pass for a client in a minute as the limit of the class times how often the
-- client's bucket comes to the minute.
pub passed_bound :
    (r m a : ℕ) (client : String) (class : RequestClass) (w : ℕ) (cs : List Call)
    → LimitsFit (new r m a)
    → 0 < limit_for (new r m a) class
    → passed client class w (new r m a) cs
      ≤ limit_for (new r m a) class * entries (bucket_key client class) (new r m a) w false cs
unfolding new
passed_bound r m a client class w cs fits pos =
    omega (arith, passed-entries client class w (new r m a) false cs fits tt pos)

module _ (key : String) (l : ApiRateLimiter) (w : ℕ) where
  entries_past :
      (t : ℕ) (inside : Bool) (cs : List Call)
      → w < t / 60
      → Ordered t cs
      → entries key l w inside cs ≡ 0
  entries_past t inside [] h o = refl
  entries_past t inside (c ∷ cs) h (o, os) =
      let later : w < c.now / 60 = omega arith in
      ground
        (arith, later, entries_past c.now inside cs later os, entries_past c.now false cs later os)

  entries_inside :
      (t : ℕ) (cs : List Call) → w ≤ t / 60 → Ordered t cs → entries key l w true cs ≡ 0
  entries_inside t [] h o = refl
  entries_inside t (c ∷ cs) h (o, os) =
      let later : w ≤ c.now / 60 = omega arith in
      ground (arith, later, entries_inside c.now cs later os, entries_past c.now false cs)

  -- If the times that the requests read never go back, the bucket comes to the minute once at most.
  pub entries-Ordered : (t : ℕ) (cs : List Call) → Ordered t cs → entries key l w false cs ≤ 1
  entries-Ordered t [] o = omega arith
  entries-Ordered t (c ∷ cs) (o, os) =
      ground (arith, entries_inside c.now cs, entries-Ordered c.now cs os)

-- When a request is refused, and for how long.
refused_until :
    (c : Call) (l : ApiRateLimiter) (s : ℕ)
    → (answer c l).1 ≡ err s
    → (s ≡ 60 - c.now % 60) × (nat_beq (limit_for l (class_of c)) 0 ≡ false)
refused_until c l s refused =
    let b = get (own_key c) l.buckets in
    (
      ground (arith, check_answer c l, charge_answer (limit_for l (class_of c)) c.now b),
      ground (arith, check_answer c l),
    )

-- In the next minute the bucket is as good as new.
fresh_minute :
    (c : Call) (l : ApiRateLimiter) (s : ℕ)
    → (answer c l).1 ≡ err s
    → used ((c.now + s) / 60) (own_key c) (answer c l).0 ≡ 0
fresh_minute c l s refused =
    let (wait, some_limit) = refused_until c l s refused in
    rw (check_bucket (own_key c) c l) (
      ground (
        arith,
        string_eq.beq_correct (own_key c) (own_key c),
        charge_window (limit_for l (class_of c)) c.now (get (own_key c) l.buckets),
      ))

-- If a request is refused, it is told to wait for at most a minute, and is let through when it
-- comes again after that time, if no other came between.
pub check_retry :
    (c : Call) (l : ApiRateLimiter) (s : ℕ)
    → (answer c l).1 ≡ err s
    → (s ≤ 60) × ((answer (record c { now = c.now + s }) (answer c l).0).1 ≡ ok tt)
check_retry c l s refused =
    let (wait, some_limit) = refused_until c l s refused in
    let again : Call = record c { now = c.now + s } in
    let l' = (answer c l).0 in
    (
      omega arith,
      ground (
        arith,
        check_answer again l',
        check_limit_for (class_of c) c l,
        charge_answer (limit_for l' (class_of c)) (c.now + s) (get (own_key c) l'.buckets),
        fresh_minute c l s refused,
      ),
    )
