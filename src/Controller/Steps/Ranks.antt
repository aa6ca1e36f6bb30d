-- ===== src/Controller/Steps/Ranks.antt =====
-- The ranks that `perform_step_dispatch` of controller/src/scheduler/steps.rs assigns.
use native.Mathlib.Nat.{div-add-mod, mod-lt, mod-eq_of_lt}
use veloce_ce.Base.{
  ℕ, zero, suc, ◌+◌, ◌-◌, ◌*◌, ◌/◌, ◌%◌, ◌<◌, String, ◌≡◌, refl, sym, ap, ◌∙◌, List, [], ◌∷◌, ◌++◌,
  arith, length, range, range_from, as_u32, u32_mod,
}
use veloce_ce.Controller.Steps.{ranks_to_assign, assign_ranks}

-- The ranks of all workers, in the order of the workers
abbrev pub all_ranks : List (String × List ℕ) → List ℕ
all_ranks [] = []
all_ranks ((id, ranks) ∷ rest) = ranks ++ all_ranks rest

range_from-append : (i a b : ℕ) → range_from i (a + b) ≡ range_from i a ++ range_from (i + a) b
range_from-append i zero b =
    let z : zero + b ≡ b = omega arith in let y : i + zero ≡ i = omega arith in rw (z, y) refl
range_from-append i (suc a) b =
    let z : suc a + b ≡ suc (a + b) = omega arith in
    let y : i + suc a ≡ i + 1 + a = omega arith in
    rw (z, y) (ap (◌∷◌ i) (range_from-append (i + 1) a b))

-- How many ranks the workers from place `i` on are given
total_ranks : ℕ → ℕ → ℕ → List String → ℕ
total_ranks ntasks n i [] = 0
total_ranks ntasks n i (id ∷ ids) = ranks_to_assign ntasks n i + total_ranks ntasks n (i + 1) ids

all_ranks-assign_ranks :
    (ntasks n i current : ℕ) (ids : List String)
    → all_ranks (assign_ranks ntasks n i current ids)
      ≡ range_from current (total_ranks ntasks n i ids)
unfolding assign_ranks total_ranks
all_ranks-assign_ranks ntasks n i current [] = refl
all_ranks-assign_ranks ntasks n i current (id ∷ ids) =
    let k = ranks_to_assign ntasks n i in
    ap (◌++◌ (range_from current k)) (all_ranks-assign_ranks ntasks n (i + 1) (current + k) ids)
    ∙ sym (range_from-append current k (total_ranks ntasks n (i + 1) ids))

total_ranks-eq :
    (ntasks n i : ℕ) (ids : List String)
    → i + length ids ≡ n
    → 0 < n
    → n < u32_mod
    → total_ranks ntasks n i ids ≡ ntasks / n * length ids + (ntasks % n - i)
unfolding total_ranks ranks_to_assign as_u32
total_ranks-eq ntasks n i [] e p h = omega (arith, mod-lt ntasks p)
total_ranks-eq ntasks n i (id ∷ ids) e p h =
    let rest = total_ranks-eq ntasks n (i + 1) ids (omega arith) p h in
    let small : i % u32_mod ≡ i = mod-eq_of_lt (omega arith) in ground (arith, rest, small)

-- If there is a worker and a u32 counts them, the ranks that the workers are assigned, one worker
-- after the other, are 0, 1, … up to below `ntasks`.
pub all_ranks-dispatch :
    (ntasks : ℕ) (workers : List String)
    → 0 < length workers
    → length workers < u32_mod
    → all_ranks (assign_ranks ntasks (as_u32 (length workers)) 0 0 workers) ≡ range ntasks
unfolding as_u32
all_ranks-dispatch ntasks workers p h =
    let n : length workers % u32_mod ≡ length workers = mod-eq_of_lt h in
    rw n (
      all_ranks-assign_ranks ntasks (length workers) 0 0 workers
      ∙ ap range (
          omega (
            arith,
            total_ranks-eq ntasks (length workers) 0 workers (omega arith) p h,
            div-add-mod ntasks (length workers),
          )))
