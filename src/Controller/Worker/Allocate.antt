-- ===== src/Controller/Worker/Allocate.antt =====
-- One worker in the allocation of `schedule_jobs` of controller/src/scheduler/mod.rs.
use veloce_ce.Base.{
  ℕ, ◌+◌, ◌≤◌, String, ◌≡◌, refl, ap, ◌∙◌, ◌⊎◌, inl, inr, Option-cases, true, false, none, some,
  List, [], ◌∷◌, Map, get, get_or, insert, contains, contains_key, count, Distinct, nat_eq,
  string_eq, ◌==◌, eq_iff, arith, length, take, drop, take-append-drop, get-insert, count-append,
  adjoin, contains-adjoin, Distinct-insert, add64,
}
use veloce_ce.Types.Job.{JobSpec}
use veloce_ce.Controller.State.{WorkerHandle}
use veloce_ce.Controller.Worker.{Gres, drain, allocate_name, allocate_gres, allocate_on}
use veloce_ce.Controller.Worker.Owned.{
  WorkerOk, owned-insert, owned_gres-insert, AllDistinct-insert,
}
use veloce_ce.Controller.Worker.Release.{count-insert_gres}

pub count-take-drop :
    (c n : ℕ) (xs : List ℕ) → count c (take n xs) + count c (drop n xs) ≡ count c xs
count-take-drop c n xs =
    omega (arith, count-append c (take n xs) (drop n xs), ap (count c) (take-append-drop n xs))

module _ (name : String) (n : ℕ) (available taken a t : Gres) where
  -- A step that does not panic passes the name over, or moves the first `n` ids of it.
  allocate_name_cases :
      allocate_name name n available taken ≡ some (a, t)
      → ((get name available ≡ none) × (a ≡ available) × (t ≡ taken))
        ⊎ ((ids : List ℕ) × (get name available ≡ some ids)
            × (n ≤ length ids)
            × (a ≡ insert name (drop n ids) available)
            × (t ≡ insert name (take n ids) taken))
  unfolding allocate_name drain
  allocate_name_cases done = elim (Option-cases (get name available)) [
    | inl e ↦ inl (e, ground arith, ground arith)
    | inr (ids, e) ↦ inr (ids, e, ground arith, ground arith, ground arith)
  ]

  count-allocate_name :
      allocate_name name n available taken ≡ some (a, t)
      → get name taken ≡ none
      → (nm : String) (i : ℕ)
      → count i (get_or [] nm a) + count i (get_or [] nm t)
        ≡ count i (get_or [] nm available) + count i (get_or [] nm taken)
  count-allocate_name done fresh nm i = elim (allocate_name_cases done) [
    | inl (_, ea, et) ↦ rw (ea, et) refl
    | inr (ids, e, le, ea, et) ↦
        rw (ea, et)
          (ground (
            arith,
            count-insert_gres name (drop n ids) available nm i,
            count-insert_gres name (take n ids) taken nm i,
            count-take-drop i n ids,
            eq_iff name nm,
          ))
  ]

  Distinct-allocate_name :
      allocate_name name n available taken ≡ some (a, t) → Distinct taken → Distinct t
  Distinct-allocate_name done d = elim (allocate_name_cases done) [
    | inl (_, ea, et) ↦ rw et d
    | inr (ids, e, le, ea, et) ↦ rw et (Distinct-insert name (take n ids) taken d)
  ]

  get-allocate_name :
      allocate_name name n available taken ≡ some (a, t)
      → (nm : String) → (name == nm) ≡ false
      → get nm t ≡ get nm taken
  get-allocate_name done nm h = elim (allocate_name_cases done) [
    | inl (_, ea, et) ↦ rw et refl
    | inr (ids, e, le, ea, et) ↦ rw et (ground (arith, get-insert name nm (take n ids) taken))
  ]

-- No name of the request is taken yet.
abbrev Fresh : Map String ℕ → Gres → Type 0
Fresh request taken = (nm : String) → contains_key nm request ≡ true → get nm taken ≡ none

module _ (name : String) (n : ℕ) (request : Map String ℕ) (taken t : Gres) where
  Fresh-tail :
      get name request ≡ none
      → Fresh ((name, n) ∷ request) taken
      → ((nm : String) → (name == nm) ≡ false → get nm t ≡ get nm taken)
      → Fresh request t
  Fresh-tail d f same nm h = ground (arith, f nm, same nm, eq_iff name nm)

  Fresh-head : Fresh ((name, n) ∷ request) taken → get name taken ≡ none
  Fresh-head f = ground (arith, f name, eq_iff name name)

allocate_gres_cases :
    (name : String) (n : ℕ) (request : Map String ℕ) (available taken a t : Gres)
    → allocate_gres ((name, n) ∷ request) available taken ≡ some (a, t)
    → (b : Gres) × (u : Gres) × (allocate_name name n available taken ≡ some (b, u))
      × (allocate_gres request b u ≡ some (a, t))
unfolding allocate_gres
allocate_gres_cases name n request available taken a t done =
    elim (Option-cases (allocate_name name n available taken)) [
      | inl e ↦ absurd (ground arith)
      | inr ((b, u), e) ↦ (b, u, e, ground arith)
    ]

pub count-allocate_gres :
    (request : Map String ℕ) (available taken a t : Gres)
    → allocate_gres request available taken ≡ some (a, t)
    → Distinct request
    → Fresh request taken
    → (nm : String) (i : ℕ)
    → count i (get_or [] nm a) + count i (get_or [] nm t)
      ≡ count i (get_or [] nm available) + count i (get_or [] nm taken)
unfolding allocate_gres
count-allocate_gres [] available taken a t done d f nm i = ground arith
count-allocate_gres ((name, n) ∷ request) available taken a t done d f nm i =
    let (b, u, step, rest) = allocate_gres_cases name n request available taken a t done in
    count-allocate_gres request b u a t rest d.1
      (Fresh-tail name n request taken u d.0 f (get-allocate_name name n available taken b u step))
      nm i
    ∙ count-allocate_name name n available taken b u step (Fresh-head name n request taken u f) nm i

pub Distinct-allocate_gres :
    (request : Map String ℕ) (available taken a t : Gres)
    → allocate_gres request available taken ≡ some (a, t)
    → Distinct taken
    → Distinct t
unfolding allocate_gres
Distinct-allocate_gres [] available taken a t done d =
    let e : taken ≡ t = ground arith in rw (← e) d
Distinct-allocate_gres ((name, n) ∷ request) available taken a t done d =
    let (b, u, step, rest) = allocate_gres_cases name n request available taken a t done in
    Distinct-allocate_gres request b u a t rest
      (Distinct-allocate_name name n available taken b u step d)

-- What an allocation that does not panic has done.
pub record Allocated (job_id : ℕ) (spec : JobSpec) (w w' : WorkerHandle) : Type 0 where
  pub available : Gres
  pub taken : Gres
  pub enough : spec.req_cores ≤ length w.available_core_ids
  pub shared : allocate_gres spec.gres_req w.available_gres_ids [] ≡ some (available, taken)
  pub result : w' ≡ record w {
    assigned_jobs = adjoin job_id w.assigned_jobs;
    available_core_ids = drop spec.req_cores w.available_core_ids;
    job_core_assignments =
        insert job_id (take spec.req_cores w.available_core_ids) w.job_core_assignments;
    allocated_memory = add64 w.allocated_memory spec.req_memory;
    available_gres_ids = available;
    job_gres_assignments = insert job_id taken w.job_gres_assignments;
  }

pub allocate_on-Allocated :
    (job_id : ℕ) (spec : JobSpec) (w w' : WorkerHandle)
    → allocate_on job_id spec w ≡ some w'
    → Allocated job_id spec w w'
unfolding allocate_on drain
allocate_on-Allocated job_id spec w w' done =
    elim (Option-cases (allocate_gres spec.gres_req w.available_gres_ids [])) [
      | inl e ↦ absurd (ground arith)
      | inr ((a, t), e) ↦ record {
        available = a;
        taken = t;
        enough = ground arith;
        shared = e;
        result = ground arith;
      }
    ]

module _ (job_id : ℕ) (spec : JobSpec) (w w' : WorkerHandle) (ok : WorkerOk w) where
  -- If the worker's books are exact, it does not have the job, and the request names each resource
  -- once, then they are exact after an allocation that does not panic.
  pub allocate_on-WorkerOk :
      contains job_id w.assigned_jobs ≡ false
      → Distinct spec.gres_req
      → allocate_on job_id spec w ≡ some w'
      → WorkerOk w'
  allocate_on-WorkerOk new d done =
      let al = allocate_on-Allocated job_id spec w w' done in
      let cores = take spec.req_cores w.available_core_ids in
      let absent : get job_id w.job_core_assignments ≡ none =
        ground (arith, ok.cores_tracked job_id) in
      let absent_gres : get job_id w.job_gres_assignments ≡ none =
        ground (arith, ok.gres_tracked job_id) in
      rw al.result (record {
        cores_exact = λ c. omega (
          arith,
          ok.cores_exact c,
          owned-insert c job_id w.job_core_assignments cores absent,
          count-take-drop c spec.req_cores w.available_core_ids,
        );
        gres_exact = λ name i. omega (
          arith,
          ok.gres_exact name i,
          owned_gres-insert name i job_id w.job_gres_assignments al.taken absent_gres,
          count-allocate_gres spec.gres_req w.available_gres_ids [] al.available al.taken al.shared
              d (λ nm h. refl) name i,
        );
        cores_tracked = λ j. ground (
          arith,
          ok.cores_tracked j,
          get-insert job_id j cores w.job_core_assignments,
          contains-adjoin job_id j w.assigned_jobs,
        );
        gres_tracked = λ j. ground (
          arith,
          ok.gres_tracked j,
          get-insert job_id j al.taken w.job_gres_assignments,
          contains-adjoin job_id j w.assigned_jobs,
        );
        cores_distinct = Distinct-insert job_id cores w.job_core_assignments ok.cores_distinct;
        gres_distinct = Distinct-insert job_id al.taken w.job_gres_assignments ok.gres_distinct;
        names_distinct =
            AllDistinct-insert job_id w.job_gres_assignments al.taken ok.names_distinct (
              Distinct-allocate_gres spec.gres_req w.available_gres_ids [] al.available al.taken
                al.shared tt);
      })

-- Every name of the request has enough ids.
abbrev pub Enough : Map String ℕ → Gres → Type 0
Enough [] available = Unit
Enough ((name, n) ∷ request) available =
    (n ≤ length (get_or [] name available)) × Enough request available

Enough-insert :
    (request : Map String ℕ) (name : String) (ids : List ℕ) (available : Gres)
    → get name request ≡ none
    → Enough request available
    → Enough request (insert name ids available)
Enough-insert [] name ids available d e = tt
Enough-insert ((nm, n) ∷ request) name ids available d e = ground (
  arith,
  get-insert name nm ids available,
  eq_iff name nm,
  eq_iff nm name,
  Enough-insert request name ids available,
)

allocate_gres_total :
    (request : Map String ℕ) (available taken : Gres)
    → Distinct request
    → Enough request available
    → (a : Gres) × (t : Gres) × (allocate_gres request available taken ≡ some (a, t))
unfolding allocate_gres allocate_name drain
allocate_gres_total [] available taken d e = (available, taken, refl)
allocate_gres_total ((name, n) ∷ request) available taken d e =
    elim (Option-cases (get name available)) [
      | inl h ↦
          let (a, t, r) = allocate_gres_total request available taken d.1 e.1 in
          (a, t, ground (arith, r))
      | inr (ids, h) ↦
          let (a, t, r) =
            allocate_gres_total request (insert name (drop n ids) available)
              (insert name (take n ids) taken) d.1
              (Enough-insert request name (drop n ids) available d.0 e.1) in
          (a, t, ground (arith, r))
    ]

-- If the request names each resource once, and the worker has as many cores available as are asked
-- for, and as many ids of each resource, then the allocation does not panic.
pub allocate_on_total :
    (job_id : ℕ) (spec : JobSpec) (w : WorkerHandle)
    → Distinct spec.gres_req
    → spec.req_cores ≤ length w.available_core_ids
    → Enough spec.gres_req w.available_gres_ids
    → (w' : WorkerHandle) × (allocate_on job_id spec w ≡ some w')
unfolding allocate_on drain
allocate_on_total job_id spec w d c e =
    let (a, t, r) = allocate_gres_total spec.gres_req w.available_gres_ids [] d e in
    (
      record w {
        assigned_jobs = adjoin job_id w.assigned_jobs;
        available_core_ids = drop spec.req_cores w.available_core_ids;
        job_core_assignments =
            insert job_id (take spec.req_cores w.available_core_ids) w.job_core_assignments;
        allocated_memory = add64 w.allocated_memory spec.req_memory;
        available_gres_ids = a;
        job_gres_assignments = insert job_id t w.job_gres_assignments;
      },
      ground (arith, r),
    )
