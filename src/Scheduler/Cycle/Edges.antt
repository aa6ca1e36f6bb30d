-- ===== src/Scheduler/Cycle/Edges.antt =====
-- Which job waits for which, for `has_cycle` of controller/src/scheduler/mod.rs.
use veloce_ce.Base.{
  ℕ, String, true, ◌||◌, some, List, [], ◌∷◌, Map, get, contains, contains-append, nat_eq,
  string_eq, eq_iff, nat_beq_iff, ◌==◌, Bool-cases, Option-cases, Result-cases, inl, inr, ok, ◌≡◌,
  sym, ap, subst, ◌∙◌, arith,
}
use veloce_ce.Types.Job.{JobInfo}
use veloce_ce.Types.Dependency.{DependencySpec, parse}
use veloce_ce.Scheduler.Dependencies.{opt}
use veloce_ce.Scheduler.Cycle.{spec_parents, parents}

-- A stored job waits for another: it names it as a plain dependency, or in a spec that parses.
pub data WaitsFor (lower : String → String) (jobs : Map ℕ JobInfo) (a b : ℕ) : Type 0 where
  plainly :
      (job : JobInfo) (deps : List ℕ)
      → get a jobs ≡ some job
      → job.dependencies ≡ some deps
      → contains b deps ≡ true
      → WaitsFor lower jobs a b
  by_spec :
      (job : JobInfo) (texts : List String) (text : String) (spec : DependencySpec)
      → get a jobs ≡ some job
      → job.dependency_specs ≡ some texts
      → contains text texts ≡ true
      → parse lower text ≡ ok spec
      → spec.parent_id ≡ b
      → WaitsFor lower jobs a b

module _ (lower : String → String) where
  Spec : List String → ℕ → Type 0
  Spec texts b =
      (text : String) × (spec : DependencySpec) × (contains text texts ≡ true)
      × (parse lower text ≡ ok spec)
      × (spec.parent_id ≡ b)

  spec_parents-Spec :
      (texts : List String) (b : ℕ) → contains b (spec_parents lower texts) ≡ true → Spec texts b
  unfolding spec_parents Spec
  spec_parents-Spec [] b h = absurd (ground (arith, h))
  spec_parents-Spec (text ∷ texts) b h = elim (Result-cases (parse lower text)) [
    | inr (e, q) ↦
        let (t, sp, there, parsed, same) = spec_parents-Spec texts b (ground (arith, h, q)) in
        (t, sp, ground (arith, there), parsed, same)
    | inl (spec, q) ↦ elim (Bool-cases (spec.parent_id == b)) [
      | inl e ↦
          (text, spec, ground (arith, eq_iff text text), q, (nat_beq_iff spec.parent_id b).0 e)
      | inr e ↦
          let (t, sp, there, parsed, same) = spec_parents-Spec texts b (ground (arith, h, q, e)) in
          (t, sp, ground (arith, there), parsed, same)
    ]
  ]

  contains-spec_parents :
      (texts : List String) (text : String) (spec : DependencySpec)
      → contains text texts ≡ true
      → parse lower text ≡ ok spec
      → contains spec.parent_id (spec_parents lower texts) ≡ true
  unfolding spec_parents
  contains-spec_parents [] text spec h p = absurd (ground (arith, h))
  contains-spec_parents (x ∷ texts) text spec h p = elim (Bool-cases (x == text)) [
    | inl e ↦
        let q : parse lower x ≡ ok spec = ap (parse lower) ((eq_iff x text).0 e) ∙ p in
        rw (q, spec_parents) (ground (arith, nat_beq_iff spec.parent_id spec.parent_id))
    | inr e ↦
        let rest = contains-spec_parents texts text spec (ground (arith, h, e)) p in
        elim (Result-cases (parse lower x)) [
          | inr (w, q) ↦ rw (q, spec_parents) rest
          | inl (sp, q) ↦ rw (q, spec_parents) (ground (arith, rest))
        ]
  ]

  module _ (jobs : Map ℕ JobInfo) (a b : ℕ) where
    contains-opt :
        (job : JobInfo)
        → get a jobs ≡ some job
        → contains b (parents lower jobs a) ≡ (
            contains b (opt job.dependencies)
            || contains b (spec_parents lower (opt job.dependency_specs)))
    unfolding parents
    contains-opt job stored =
        rw (stored, parents)
          (contains-append b (opt job.dependencies) (spec_parents lower (opt job.dependency_specs)))

    pub contains-parents : WaitsFor lower jobs a b → contains b (parents lower jobs a) ≡ true
    contains-parents (plainly job deps stored named there) =
        let mine = ap (λ o. contains b (opt o)) named ∙ there in
        contains-opt job stored ∙ ground (arith, mine)
    contains-parents (by_spec job texts text spec stored named there parsed same) =
        let mine =
          ap (λ o. contains b (spec_parents lower (opt o))) named
          ∙ subst (λ k. contains k (spec_parents lower texts) ≡ true) same
              (contains-spec_parents texts text spec there parsed) in
        contains-opt job stored ∙ ground (arith, mine)

    from_deps :
        (job : JobInfo)
        → get a jobs ≡ some job
        → contains b (opt job.dependencies) ≡ true
        → WaitsFor lower jobs a b
    from_deps job stored there = elim (Option-cases job.dependencies) [
      | inl e ↦ absurd (ground (arith, sym (ap (λ o. contains b (opt o)) e) ∙ there))
      | inr (deps, e) ↦ plainly job deps stored e (sym (ap (λ o. contains b (opt o)) e) ∙ there)
    ]

    from_specs :
        (job : JobInfo)
        → get a jobs ≡ some job
        → contains b (spec_parents lower (opt job.dependency_specs)) ≡ true
        → WaitsFor lower jobs a b
    unfolding spec_parents Spec
    from_specs job stored there = elim (Option-cases job.dependency_specs) [
      | inl e ↦
          absurd (ground (arith, sym (ap (λ o. contains b (spec_parents lower (opt o))) e) ∙ there))
      | inr (texts, e) ↦
          let named = sym (ap (λ o. contains b (spec_parents lower (opt o))) e) ∙ there in
          let (text, spec, member, parsed, same) = spec_parents-Spec texts b named in
          by_spec job texts text spec stored e member parsed same
    ]

    pub parents-WaitsFor : contains b (parents lower jobs a) ≡ true → WaitsFor lower jobs a b
    unfolding parents
    parents-WaitsFor h = elim (Option-cases (get a jobs)) [
      | inl e ↦ absurd (ground (arith, h, e))
      | inr (job, stored) ↦ elim (Bool-cases (contains b (opt job.dependencies))) [
        | inl plain ↦ from_deps job stored plain
        | inr other ↦
            from_specs job stored (ground (arith, sym (contains-opt job stored) ∙ h, other))
      ]
    ]
