-- ===== src/Controller/Steps/Capacity.antt =====
-- Cores in `schedule_steps`, and the answers of `submit_step` (controller/src/scheduler/steps.rs).
use veloce_ce.Base.{
  ℕ, ◌+◌, ◌<◌, ◌≤◌, ◌%◌, ◌^◌, String, ◌≡◌, refl, ◌⊎◌, inl, inr, true, false, Bool-cases,
  Option-cases, none, some, List, [], ◌∷◌, if◌then◌else◌, leb, arith, Map, get, nat_eq, pair_eq,
  add32, add32_exact, u32_mod, ok, err, is_empty, get-insert, ◌==◌,
}
use veloce_ce.Types.Job.{JobInfo, is_running}
use veloce_ce.Types.Step.{StepInfo}
use veloce_ce.Controller.State.{GlobalState}
use veloce_ce.Controller.Steps.{StepRequest, new_step, submit_step, choose_steps}

-- The cores that a list of steps asks for
abbrev pub cores_asked : Map (ℕ × ℕ) StepInfo → List (ℕ × ℕ) → ℕ
cores_asked steps [] = 0
cores_asked steps (k ∷ ks) = elim (get k steps) [
  | none ↦ cores_asked steps ks
  | some step ↦ step.req_cores + cores_asked steps ks
]

-- No step of the job asks for 2^31 cores or more.
abbrev pub Modest : ℕ → Map (ℕ × ℕ) StepInfo → Type 0
Modest job_id steps =
    (i : ℕ) (step : StepInfo) → get (job_id, i) steps ≡ some step → step.req_cores < 2 ^ 31

-- If no step of the job, nor the job, asks for 2^31 cores or more, and the cores in use are within
-- the job's, then the cores in use and those of the chosen steps together are within the job's.
pub choose_steps_fit :
    (job_id cap : ℕ) (steps : Map (ℕ × ℕ) StepInfo) (used : ℕ) (ids : List ℕ)
    → Modest job_id steps
    → cap < 2 ^ 31
    → used ≤ cap
    → used + cores_asked steps (choose_steps job_id cap steps used ids) ≤ cap
unfolding choose_steps
choose_steps_fit job_id cap steps used [] m c h = omega arith
choose_steps_fit job_id cap steps used (i ∷ ids) m c h =
    elim (Option-cases (get (job_id, i) steps)) [
      | inl e ↦ rw (e, choose_steps) (choose_steps_fit job_id cap steps used ids m c h)
      | inr (step, e) ↦
          let fits : add32 used step.req_cores ≡ used + step.req_cores =
            add32_exact used step.req_cores (omega (arith, m i step e)) in
          elim (Bool-cases (leb (add32 used step.req_cores) cap)) [
            | inl y ↦
                let rest =
                  choose_steps_fit job_id cap steps (add32 used step.req_cores) ids m c
                    (ground arith) in
                ground (arith, rest)
            | inr n ↦
                let rest = choose_steps_fit job_id cap steps used ids m c h in ground (arith, rest)
          ]
    ]

-- A step whose cores and those in use, above 0, add up to 2^32 is chosen, whatever the job's cores.
pub choose_steps_wraps :
    (job_id i used cap : ℕ) (steps : Map (ℕ × ℕ) StepInfo) (step : StepInfo)
    → get (job_id, i) steps ≡ some step
    → used < u32_mod
    → 0 < used
    → step.req_cores + used ≡ u32_mod
    → choose_steps job_id cap steps used (i ∷ []) ≡ (job_id, i) ∷ []
unfolding choose_steps add32
choose_steps_wraps job_id i used cap steps step e h p w =
    let z : (used + step.req_cores) % u32_mod ≡ 0 = omega arith in ground (arith, z)

-- What a submission does on each of its branches: it is refused with the state unchanged, or the
-- step is stored as pending under the fresh id, and no other step changes.
pub submit_step-cases :
    (parent_job_id : ℕ) (r : StepRequest) (s : GlobalState)
    → let (t, answer) = submit_step parent_job_id r s in
      ((t ≡ s)
        × ((complaint : String) × (answer ≡ err complaint))
        × ((job : JobInfo)
            → get parent_job_id s.jobs ≡ some job
            → (is_running job.status ≡ false) ⊎ (is_empty job.assigned_workers ≡ true)))
      ⊎ ((answer ≡ ok s.next_step_id)
          × (t.next_step_id ≡ add32 s.next_step_id 1)
          × (t.jobs ≡ s.jobs)
          × (t.workers ≡ s.workers)
          × ((k : ℕ × ℕ)
              → get k t.steps ≡ (
                  if (parent_job_id, s.next_step_id) == k
                  then some (new_step parent_job_id s.next_step_id r)
                  else get k s.steps)))
unfolding submit_step
submit_step-cases parent_job_id r s = elim (Option-cases (get parent_job_id s.jobs)) [
  | inl e ↦
      rw (e, submit_step)
        (inl (refl, ("Parent job not found", refl), λ job h. absurd (ground arith)))
  | inr (job, e) ↦ elim (Bool-cases (is_running job.status)) [
    | inr idle ↦
        rw (e, submit_step, idle)
          (inl (refl, ("Parent job is not running", refl), λ other h. inl (ground arith)))
    | inl runs ↦ elim (Bool-cases (is_empty job.assigned_workers)) [
      | inl bare ↦
          rw (e, submit_step, runs, bare)
            (inl
              (refl, ("Parent job has no assigned workers", refl), λ other h. inr (ground arith)))
      | inr named ↦
          rw (e, submit_step, runs, named)
            (inr
              (refl, refl, refl, refl, λ k. get-insert (parent_job_id, s.next_step_id) k _ s.steps))
    ]
  ]
]
