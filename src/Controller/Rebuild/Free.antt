-- ===== src/Controller/Rebuild/Free.antt =====
-- What is free on a worker that registers.
use veloce_ce.Base.{
  ℕ, String, ◌≡◌, ap, ◌∙◌, Bool, false, not, ◌&&◌, ◌||◌, none, some, List, [], ◌∷◌, Map, get,
  get_or, adjust, get-adjust, contains, count, nat_eq, string_eq, nat_beq_iff, ◌==◌, if◌then◌else◌,
  count-range, ltb, arith, beq-cases, inl, inr, Option-cases,
}
use veloce_ce.Types.Cluster.{Resources}
use veloce_ce.Types.Job.{JobInfo}
use veloce_ce.Controller.Worker.{gres_limit, all_gres}
use veloce_ce.Controller.Worker.Release.{all_gres-get}
use veloce_ce.Controller.Rebuild.{
  RebuiltWorkerAllocations, keep_out, keep_out_gres, take_cores, take_gres, take_job, runs_here,
  rebuild_from, rebuild_worker_allocations,
}

-- Is the core among those of the job on the worker?
abbrev pub has_core : String → ℕ → JobInfo → Bool
has_core worker_id c job = elim (get worker_id job.allocated_cores) [
  | none ↦ false
  | some cores ↦ contains c cores
]

-- Is the id of the resource in the map?
abbrev pub lists_id : String → ℕ → Map String (List ℕ) → Bool
lists_id name i [] = false
lists_id name i ((n, ids) ∷ gres) = (n == name && contains i ids) || lists_id name i gres

abbrev pub has_id : String → String → ℕ → JobInfo → Bool
has_id worker_id name i job = elim (get worker_id job.allocated_gres) [
  | none ↦ false
  | some gres ↦ lists_id name i gres
]

-- Does a job that runs on the worker pass the test?
abbrev pub some_runs : String → (JobInfo → Bool) → Map ℕ JobInfo → Bool
some_runs worker_id p [] = false
some_runs worker_id p ((id, job) ∷ jobs) =
    (runs_here worker_id job && p job) || some_runs worker_id p jobs

count-keep_out :
    (c : ℕ) (ids xs : List ℕ)
    → count c (keep_out ids xs) ≡ (if contains c ids then 0 else count c xs)
unfolding keep_out
count-keep_out c ids [] = ground arith
count-keep_out c ids (x ∷ xs) = elim (beq-cases x c) [
  | inl e ↦ ground (arith, count-keep_out c ids xs, ap (λ i. contains i ids) e, nat_beq_iff x c)
  | inr ne ↦ ground (arith, count-keep_out c ids xs)
]

ids_of : String → ℕ → Map String (List ℕ) → ℕ
ids_of name i m = count i (get_or [] name m)

adjust-keep_out :
    (name n : String) (i : ℕ) (ids : List ℕ) (m : Map String (List ℕ))
    → ids_of name i (adjust n (keep_out ids) m)
      ≡ (if n == name && contains i ids then 0 else ids_of name i m)
unfolding ids_of
adjust-keep_out name n i ids m = elim (Option-cases (get name m)) [
  | inl e ↦ ground (arith, get-adjust n name (keep_out ids) m)
  | inr (xs, e) ↦ ground (arith, get-adjust n name (keep_out ids) m, count-keep_out i ids xs)
]

ids_of-keep_out_gres :
    (name : String) (i : ℕ) (gres m : Map String (List ℕ))
    → ids_of name i (keep_out_gres gres m) ≡ (if lists_id name i gres then 0 else ids_of name i m)
unfolding keep_out_gres
ids_of-keep_out_gres name i [] m = ground arith
ids_of-keep_out_gres name i ((n, ids) ∷ gres) m = ground (
  arith,
  ids_of-keep_out_gres name i gres (adjust n (keep_out ids) m),
  adjust-keep_out name n i ids m,
)

module _ (worker_id : String) (job : JobInfo) (r : RebuiltWorkerAllocations) where
  take_job_cores :
      (c : ℕ)
      → count c (take_job worker_id job r).available_core_ids ≡ (
          if runs_here worker_id job && has_core worker_id c job
          then 0
          else count c r.available_core_ids)
  unfolding take_job take_cores take_gres
  take_job_cores c = elim (Option-cases (get worker_id job.allocated_cores)) [
    | inl e ↦ elim (Option-cases (get worker_id job.allocated_gres)) [
      | inl h ↦ ground arith
      | inr (gres, h) ↦ ground arith
    ]
    | inr (cores, e) ↦ elim (Option-cases (get worker_id job.allocated_gres)) [
      | inl h ↦ ground (arith, count-keep_out c cores r.available_core_ids)
      | inr (gres, h) ↦ ground (arith, count-keep_out c cores r.available_core_ids)
    ]
  ]

  take_job_gres :
      (name : String) (i : ℕ)
      → ids_of name i (take_job worker_id job r).available_gres_ids ≡ (
          if runs_here worker_id job && has_id worker_id name i job
          then 0
          else ids_of name i r.available_gres_ids)
  unfolding take_job take_cores take_gres
  take_job_gres name i = elim (Option-cases (get worker_id job.allocated_cores)) [
    | inl e ↦ elim (Option-cases (get worker_id job.allocated_gres)) [
      | inl h ↦ ground arith
      | inr (gres, h) ↦ ground (arith, ids_of-keep_out_gres name i gres r.available_gres_ids)
    ]
    | inr (cores, e) ↦ elim (Option-cases (get worker_id job.allocated_gres)) [
      | inl h ↦ ground arith
      | inr (gres, h) ↦ ground (arith, ids_of-keep_out_gres name i gres r.available_gres_ids)
    ]
  ]

module _ (worker_id : String) where
  free_cores :
      (c : ℕ) (jobs : Map ℕ JobInfo) (r : RebuiltWorkerAllocations)
      → count c (rebuild_from worker_id jobs r).available_core_ids ≡ (
          if some_runs worker_id (has_core worker_id c) jobs
          then 0
          else count c r.available_core_ids)
  unfolding rebuild_from
  free_cores c [] r = ground arith
  free_cores c ((id, job) ∷ jobs) r =
      ground (arith, free_cores c jobs (take_job worker_id job r), take_job_cores worker_id job r c)

  free_ids :
      (name : String) (i : ℕ) (jobs : Map ℕ JobInfo) (r : RebuiltWorkerAllocations)
      → ids_of name i (rebuild_from worker_id jobs r).available_gres_ids ≡ (
          if some_runs worker_id (has_id worker_id name i) jobs
          then 0
          else ids_of name i r.available_gres_ids)
  unfolding rebuild_from
  free_ids name i [] r = ground arith
  free_ids name i ((id, job) ∷ jobs) r =
      ground (
        arith,
        free_ids name i jobs (take_job worker_id job r),
        take_job_gres worker_id job r name i,
      )

ids_of-all_gres :
    (name : String) (i : ℕ) (gres : Map String ℕ)
    → ids_of name i (all_gres gres) ≡ (if ltb i (gres_limit gres name) then 1 else 0)
unfolding ids_of
ids_of-all_gres name i gres =
    ap (count i) (all_gres-get gres name) ∙ count-range i (gres_limit gres name)

-- After the rebuilding a core, or an id of a resource, is available once if the machine has it and
-- no stored job that runs on the worker has it, and is not available otherwise.
pub rebuild_worker_allocations_free :
    (worker_id : String) (resources : Resources) (jobs : Map ℕ JobInfo)
    → let r = rebuild_worker_allocations worker_id resources jobs in
      ((c : ℕ)
        → count c r.available_core_ids ≡ (
            if ltb c resources.cpu_cores && not (some_runs worker_id (has_core worker_id c) jobs)
            then 1
            else 0))
      × ((name : String) (i : ℕ)
          → count i (get_or [] name r.available_gres_ids) ≡ (
              if ltb i (gres_limit resources.gres name)
                && not (some_runs worker_id (has_id worker_id name i) jobs)
              then 1
              else 0))
unfolding rebuild_worker_allocations ids_of
rebuild_worker_allocations_free worker_id resources jobs = (
  λ c. free_cores worker_id c jobs _ ∙ ground (arith, count-range c resources.cpu_cores),
  λ name i.
      free_ids worker_id name i jobs _ ∙ ground (arith, ids_of-all_gres name i resources.gres),
)
