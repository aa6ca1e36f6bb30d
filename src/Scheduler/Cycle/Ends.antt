-- ===== src/Scheduler/Cycle/Ends.antt =====
-- The fuel of `has_cycle` (controller/src/scheduler/mod.rs).
use veloce_ce.Base.{
  ℕ, zero, suc, ◌+◌, ◌<◌, ◌≤◌, String, Bool, true, false, some, List, [], ◌∷◌, Map, keys, nat_eq,
  ◌≡◌, refl, inl, inr, Bool-cases, nat_beq, nat_beq_iff, contains, contains-keys, if◌then◌else◌,
  arith, length, beq-cases, ◌↔◌,
}
use veloce_ce.Types.Job.{JobInfo}
use veloce_ce.Scheduler.Cycle.{parents, Search, search_each, has_cycle}
use veloce_ce.Scheduler.Cycle.Found.{Complete, has_cycle-Explores, Leads, has_cycle_answer}

-- How many of the ids have not been visited
pub fresh : List ℕ → List ℕ → ℕ
fresh [] visited = 0
fresh (k ∷ ks) visited = (if contains k visited then 0 else 1) + fresh ks visited

fresh_mono :
    (ks v w : List ℕ)
    → ((x : ℕ) → contains x v ≡ true → contains x w ≡ true)
    → fresh ks w ≤ fresh ks v
unfolding fresh
fresh_mono [] v w h = omega arith
fresh_mono (k ∷ ks) v w h = ground (arith, h k, fresh_mono ks v w h)

fresh-cons :
    (ks v : List ℕ) (id : ℕ)
    → contains id ks ≡ true
    → contains id v ≡ false
    → fresh ks (id ∷ v) < fresh ks v
unfolding fresh
fresh-cons [] v id c n = absurd (ground arith)
fresh-cons (k ∷ ks) v id c n = elim (beq-cases k id) [
  | inl e ↦ ground (arith, nat_beq_iff id k, fresh_mono ks v (id ∷ v) (λ x h. ground arith))
  | inr other ↦ ground (arith, nat_beq_iff id k, nat_beq_iff k id, fresh-cons ks v id)
]

fresh-nil : (ks : List ℕ) → fresh ks [] ≡ length ks
unfolding fresh
fresh-nil [] = refl
fresh-nil (k ∷ ks) = omega (arith, fresh-nil ks)

module _ (lower : String → String) (jobs : Map ℕ JobInfo) (target : ℕ) where
  -- An answer for every set that leaves fewer stored jobs than the fuel
  abbrev Answers : ℕ → Search → Type 0
  Answers n search =
      (id : ℕ) (visited : List ℕ)
      → fresh (keys jobs) visited < n
      → (r : Bool × List ℕ) × (search id visited ≡ some r)

  search_each-Answers :
      (n : ℕ) (search : Search)
      → Answers n search
      → Complete lower jobs target search
      → (ids visited : List ℕ) → fresh (keys jobs) visited < n
      → (r : Bool × List ℕ) × (search_each search ids visited ≡ some r)
  unfolding search_each
  search_each-Answers n search total all [] visited h = ((false, visited), refl)
  search_each-Answers n search total all (id ∷ ids) visited h =
      let ((found, v), e) = total id visited h in
      elim (Bool-cases found) [
        | inl f ↦ ((true, v), ground arith)
        | inr f ↦
            let (there, first) = all id visited v (ground arith) in
            let (r, q) =
              search_each-Answers n search total all ids v
                (omega (arith, fresh_mono (keys jobs) visited v first.grows)) in
            (r, ground arith)
      ]

  unknown_parents : (id : ℕ) → contains id (keys jobs) ≡ false → parents lower jobs id ≡ []
  unfolding parents
  unknown_parents id h = ground (arith, contains-keys id jobs)

  pub has_cycle-Answers : (fuel : ℕ) → Answers fuel (has_cycle lower jobs target fuel)
  unfolding has_cycle search_each
  has_cycle-Answers zero id visited h = absurd (omega arith)
  has_cycle-Answers (suc fuel) id visited h = elim (Bool-cases (nat_beq id target)) [
    | inl e ↦ ((true, visited), ground arith)
    | inr other ↦ elim (Bool-cases (contains id visited)) [
      | inl old ↦ ((false, visited), ground arith)
      | inr new ↦ elim (Bool-cases (contains id (keys jobs))) [
        | inl known ↦
            let (r, q) =
              search_each-Answers fuel (has_cycle lower jobs target fuel) (has_cycle-Answers fuel)
                (has_cycle-Explores lower jobs target fuel) (parents lower jobs id) (id ∷ visited)
                (omega (arith, fresh-cons (keys jobs) visited id known new)) in
            (r, ground arith)
        | inr unknown ↦ ((false, id ∷ visited), ground (arith, unknown_parents id unknown))
      ]
    ]
  ]

  -- With more fuel than there are stored jobs the search from an empty set answers, and the answer
  -- is whether the job leads to the target.
  pub has_cycle_decides :
      (fuel id : ℕ)
      → length (keys jobs) < fuel
      → (found : Bool) × (visited : List ℕ) × (has_cycle lower jobs target fuel id []
          ≡ some (found, visited))
        × ((found ≡ true) ↔ Leads lower jobs target id)
  has_cycle_decides fuel id h =
      let ((found, visited), e) =
        has_cycle-Answers fuel id [] (omega (arith, fresh-nil (keys jobs))) in
      (found, visited, e, has_cycle_answer lower jobs target fuel id found visited e)
