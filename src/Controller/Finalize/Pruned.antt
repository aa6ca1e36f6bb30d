-- ===== src/Controller/Finalize/Pruned.antt =====
-- Which jobs `prune_jobs` of controller/src/scheduler/finalize.rs removes.
use veloce_ce.Base.{
  ℕ, ◌+◌, ◌-◌, ◌<◌, Bool, true, false, Option, none, some, get, Distinct, nat_eq, ltb, arith, add64,
  u64_mod, Bool-cases, inl, inr, ◌⊎◌, ◌≡◌, refl, ◌∙◌,
}
use veloce_ce.Types.Job.{JobInfo, JobStatus, pending, running, completed, failed, killed}
use veloce_ce.Controller.State.{GlobalState, is_leader}
use veloce_ce.Controller.Finalize.{prune_jobs, is_old}
use veloce_ce.Controller.Finalize.Outcome.{prune_jobs-is_old}

abbrev pub is_ended : JobStatus → Bool
is_ended pending = false
is_ended running = false
is_ended _ = true

-- More than the retention has passed since the end; where that is not known, since a day after the
-- submission.
abbrev pub IsPast : ℕ → ℕ → ℕ → Option ℕ → Type 0
IsPast now retention queued (some end_time) = end_time + retention < now
IsPast now retention queued none = queued + 86400 + retention < now

abbrev pub IsDue : ℕ → ℕ → JobInfo → Type 0
IsDue now retention job =
    (is_ended job.status ≡ true) × IsPast now retention job.queued_time job.end_time

module _ (now retention : ℕ) (fits : retention + 86400 < u64_mod) where
  abbrev Judged : JobInfo → Type 0
  Judged job =
      ((is_old now retention job ≡ true) × IsDue now retention job)
      ⊎ ((is_old now retention job ≡ false) × (¬ IsDue now retention job))

  is_old-with :
      (job : JobInfo) (status : JobStatus) (end_time : Option ℕ)
      → Judged (record job { status = status; end_time = end_time })
  unfolding is_old add64
  is_old-with job pending end_time = inr (refl, λ h. ground (arith, h.0))
  is_old-with job running end_time = inr (refl, λ h. ground (arith, h.0))
  is_old-with job (completed code) (some t) = elim (Bool-cases (ltb retention (now - t))) [
    | inl e ↦ inl (e, (refl, ground (arith, e)))
    | inr e ↦ inr (e, λ h. ground (arith, e, h.1))
  ]
  is_old-with job (completed code) none =
      elim (Bool-cases (ltb (add64 retention 86400) (now - job.queued_time))) [
        | inl e ↦ inl (e, (refl, ground (arith, e, fits)))
        | inr e ↦ inr (e, λ h. ground (arith, e, h.1, fits))
      ]
  is_old-with job (failed why) (some t) = elim (Bool-cases (ltb retention (now - t))) [
    | inl e ↦ inl (e, (refl, ground (arith, e)))
    | inr e ↦ inr (e, λ h. ground (arith, e, h.1))
  ]
  is_old-with job (failed why) none =
      elim (Bool-cases (ltb (add64 retention 86400) (now - job.queued_time))) [
        | inl e ↦ inl (e, (refl, ground (arith, e, fits)))
        | inr e ↦ inr (e, λ h. ground (arith, e, h.1, fits))
      ]
  is_old-with job killed (some t) = elim (Bool-cases (ltb retention (now - t))) [
    | inl e ↦ inl (e, (refl, ground (arith, e)))
    | inr e ↦ inr (e, λ h. ground (arith, e, h.1))
  ]
  is_old-with job killed none =
      elim (Bool-cases (ltb (add64 retention 86400) (now - job.queued_time))) [
        | inl e ↦ inl (e, (refl, ground (arith, e, fits)))
        | inr e ↦ inr (e, λ h. ground (arith, e, h.1, fits))
      ]

  -- If the retention and a day fit u64, and each job is stored once, then of the jobs that a leader
  -- has stored, pruning removes each that has ended and is past its retention, or, where its end is
  -- not known, was submitted a day more than the retention ago, and keeps every other as it is.
  pub prune_jobs-IsDue :
      (s : GlobalState) (j : ℕ) (job : JobInfo)
      → is_leader s.role ≡ true
      → Distinct s.jobs
      → get j s.jobs ≡ some job
      → (IsDue now retention job × (get j (prune_jobs now retention s).jobs ≡ none))
        ⊎ ((¬ IsDue now retention job) × (get j (prune_jobs now retention s).jobs ≡ some job))
  prune_jobs-IsDue s j job leads d stored =
      let left = prune_jobs-is_old now retention s d j in
      elim (is_old-with job job.status job.end_time) [
        | inl (old, due) ↦ inl (due, left ∙ ground (arith, stored, leads, old))
        | inr (young, no_due) ↦ inr (no_due, left ∙ ground (arith, stored, leads, young))
      ]
