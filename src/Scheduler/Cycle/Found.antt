-- ===== src/Scheduler/Cycle/Found.antt =====
-- The answer of `has_cycle` (controller/src/scheduler/mod.rs), and reachability.
use mathlib.Core.Path.{subst}
use veloce_ce.Base.{
  string_eq, ℕ, zero, suc, String, Bool, true, false, some, List, [], ◌∷◌, Map, nat_eq, ◌≡◌, refl,
  sym, ◌↔◌, ◌⊎◌, inl, inr, Bool-cases, Option-cases, nat_beq, nat_beq_iff, contains, arith,
  beq-cases,
}
use veloce_ce.Types.Job.{JobInfo}
use veloce_ce.Scheduler.Cycle.Edges.{WaitsFor, contains-parents, parents-WaitsFor}
use veloce_ce.Scheduler.Cycle.{parents, Search, search_each, has_cycle}

module _ (lower : String → String) (jobs : Map ℕ JobInfo) (target : ℕ) where
  -- A job waits for the target, at any number of steps.
  pub data Leads : ℕ → Type 0 where
    here : Leads target
    step : {a b : ℕ} → WaitsFor lower jobs a b → Leads b → Leads a

  -- A positive answer is right.
  abbrev pub Sound : Search → Type 0
  Sound search =
      (id : ℕ) (visited visited' : List ℕ) → search id visited ≡ some (true, visited') → Leads id

  search_each-Leads :
      (search : Search)
      → Sound search
      → (ids visited visited' : List ℕ) → search_each search ids visited ≡ some (true, visited')
      → (b : ℕ) × (contains b ids ≡ true) × Leads b
  unfolding search_each
  search_each-Leads search sound [] visited visited' h = absurd (ground arith)
  search_each-Leads search sound (id ∷ ids) visited visited' h =
      elim (Option-cases (search id visited)) [
        | inl e ↦ absurd (ground arith)
        | inr ((found, v), e) ↦ elim (Bool-cases found) [
          | inl f ↦ (id, ground (arith, nat_beq_iff id id), sound id visited v (ground arith))
          | inr f ↦
              let (b, c, l) = search_each-Leads search sound ids v visited' (ground arith) in
              (b, ground arith, l)
        ]
      ]

  pub has_cycle-Leads : (fuel : ℕ) → Sound (has_cycle lower jobs target fuel)
  unfolding has_cycle
  has_cycle-Leads zero id visited visited' h = absurd (ground arith)
  has_cycle-Leads (suc fuel) id visited visited' h = elim (beq-cases id target) [
    | inl e ↦ subst Leads (sym e) here
    | inr other ↦
        let (b, c, l) =
          search_each-Leads (has_cycle lower jobs target fuel) (has_cycle-Leads fuel)
            (parents lower jobs id) (id ∷ visited) visited' (ground arith) in
        step (parents-WaitsFor lower jobs id b c) l
  ]

  -- What a search adds to the set is not the target, and has its parents there in the end.
  pub record Explores (before after : List ℕ) : Type 0 where
    pub grows : (x : ℕ) → contains x before ≡ true → contains x after ≡ true
    pub closed :
        (x : ℕ)
        → contains x after ≡ true
        → (contains x before ≡ true)
          ⊎ ((nat_beq x target ≡ false)
              × ((c : ℕ) → contains c (parents lower jobs x) ≡ true → contains c after ≡ true))

  Explores-refl : (v : List ℕ) → Explores v v
  Explores-refl v = record { grows = λ x h. h; closed = λ x h. inl h }

  Explores-trans : (u v w : List ℕ) → Explores u v → Explores v w → Explores u w
  Explores-trans u v w p q = record {
    grows = λ x h. q.grows x (p.grows x h);
    closed = λ x h. elim (q.closed x h) [
      | inr new ↦ inr new
      | inl old ↦ elim (p.closed x old) [
        | inl older ↦ inl older
        | inr (other, up) ↦ inr (other, λ c e. q.grows c (up c e))
      ]
    ];
  }

  -- A negative answer: the job is in the set, and what was added is explored.
  abbrev pub Complete : Search → Type 0
  Complete search =
      (id : ℕ) (visited visited' : List ℕ)
      → search id visited ≡ some (false, visited')
      → (contains id visited' ≡ true) × Explores visited visited'

  search_each-Explores :
      (search : Search)
      → Complete search
      → (ids visited visited' : List ℕ) → search_each search ids visited ≡ some (false, visited')
      → ((c : ℕ) → contains c ids ≡ true → contains c visited' ≡ true) × Explores visited visited'
  unfolding search_each
  search_each-Explores search all [] visited visited' h = (
    λ c e. absurd (ground arith),
    subst (Explores visited) (ground arith) (Explores-refl visited),
  )
  search_each-Explores search all (id ∷ ids) visited visited' h =
      elim (Option-cases (search id visited)) [
        | inl e ↦ absurd (ground arith)
        | inr ((found, v), e) ↦ elim (Bool-cases found) [
          | inl f ↦ absurd (ground arith)
          | inr f ↦
              let (there, first) = all id visited v (ground arith) in
              let (others, rest) = search_each-Explores search all ids v visited' (ground arith) in
              (
                λ c q. elim (beq-cases id c) [
                  | inl same ↦ rest.grows c (subst (λ k. contains k v ≡ true) same there)
                  | inr other ↦ others c (ground arith)
                ],
                Explores-trans visited v visited' first rest,
              )
        ]
      ]

  pub has_cycle-Explores : (fuel : ℕ) → Complete (has_cycle lower jobs target fuel)
  unfolding has_cycle
  has_cycle-Explores zero id visited visited' h = absurd (ground arith)
  has_cycle-Explores (suc fuel) id visited visited' h = elim (Bool-cases (contains id visited)) [
    | inl old ↦
        let e : visited ≡ visited' = ground arith in
        subst (λ v. (contains id v ≡ true) × Explores visited v) e (old, Explores-refl visited)
    | inr new ↦
        let (up, rest) =
          search_each-Explores (has_cycle lower jobs target fuel) (has_cycle-Explores fuel)
            (parents lower jobs id) (id ∷ visited) visited' (ground arith) in
        (
          rest.grows id (ground (arith, nat_beq_iff id id)),
          record {
            grows = λ x q. rest.grows x (ground arith);
            closed = λ x q. elim (rest.closed x q) [
              | inr other ↦ inr other
              | inl there ↦ elim (beq-cases id x) [
                | inl same ↦ inr (
                  ground arith,
                  λ c d. up c (subst (λ k. contains c (parents lower jobs k) ≡ true) (sym same) d),
                )
                | inr old ↦ inl (ground arith)
              ]
            ];
          },
        )
  ]

  unreached : (after : List ℕ) → Explores [] after → {x : ℕ} → Leads x → contains x after ≡ true → ⊥
  unreached after e here there = elim (e.closed target there) [
    | inl old ↦ absurd (ground arith)
    | inr (other, up) ↦ absurd (ground (arith, other, nat_beq_iff target target))
  ]
  unreached after e (step {a} {b} c l) there = elim (e.closed a there) [
    | inl old ↦ absurd (ground arith)
    | inr (other, up) ↦ unreached after e l (up b (contains-parents lower jobs a b c))
  ]

  -- With no job visited yet, the answer is whether the job leads to the target.
  pub has_cycle_answer :
      (fuel id : ℕ) (found : Bool) (visited' : List ℕ)
      → has_cycle lower jobs target fuel id [] ≡ some (found, visited')
      → (found ≡ true) ↔ Leads id
  has_cycle_answer fuel id true visited' h = (λ _. has_cycle-Leads fuel id [] visited' h, λ _. refl)
  has_cycle_answer fuel id false visited' h =
      let (there, e) = has_cycle-Explores fuel id [] visited' h in
      (λ q. absurd (ground arith), λ l. absurd (unreached visited' e l there))
