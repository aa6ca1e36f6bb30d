-- ===== src/Controller/Worker/Release.antt =====
-- One worker in `release_job_resources_internal` of controller/src/scheduler/finalize.rs.
use veloce_ce.Base.{
  ℕ, ◌+◌, ◌≤◌, String, ◌≡◌, refl, inl, inr, Bool-cases, nat_beq, true, false, none, some, List, [],
  ◌∷◌, ◌++◌, Map, get, get_or, insert, contains, contains_key, count, Distinct, nat_eq, string_eq,
  ◌==◌, eq_iff, if◌then◌else◌, ltb, arith, get-insert, get-remove, nat_beq_iff, count-append,
  contains-count, sort, count-sort, as_u32, range, count-range, contains-without, Distinct-remove,
  is_empty, ◌∙◌, ap,
}
use veloce_ce.Types.Job.{JobInfo}
use veloce_ce.Controller.State.{WorkerHandle}
use veloce_ce.Controller.Worker.{
  Gres, gres_limit, give_back, give_back_gres, put_back, all_gres, released_cores, released_gres,
  reset_if_idle, take_back, release_on,
}
use veloce_ce.Controller.Worker.Owned.{
  WorkerOk, owned, owned_gres, below, owned-remove, owned_gres-remove, AllDistinct-get,
  AllDistinct-remove,
}

-- Ids that nobody else holds all come back.
pub count-give_back :
    (limit : ℕ) (ids available : List ℕ)
    → ((x : ℕ) → count x ids + count x available ≤ below x limit)
    → (c : ℕ) → count c (give_back limit ids available) ≡ count c ids + count c available
unfolding give_back
count-give_back limit [] available h c = omega arith
count-give_back limit (i ∷ ids) available h c = elim (Bool-cases (ltb i limit)) [
  | inl low ↦ elim (Bool-cases (contains i available)) [
    | inl there ↦ absurd (ground (arith, h i, contains-count i available))
    | inr free ↦
        rw (low, free)
          (omega (
            arith,
            count-give_back limit ids (available ++ i ∷ [])
                (λ x. omega (arith, h x, count-append x available (i ∷ []))) c,
            count-append c available (i ∷ []),
          ))
  ]
  | inr high ↦ absurd (ground (arith, h i))
]

-- A count that only one name has
abbrev pub at_name : String → String → ℕ → ℕ
at_name name nm n = if name == nm then n else 0

pub count-cons_gres :
    (name : String) (ids : List ℕ) (g : Gres) (nm : String) (x : ℕ)
    → get name g ≡ none
    → count x (get_or [] nm ((name, ids) ∷ g))
      ≡ at_name name nm (count x ids) + count x (get_or [] nm g)
count-cons_gres name ids g nm x h = ground (arith, eq_iff name nm)

pub count-insert_gres :
    (name : String) (ids : List ℕ) (g : Gres) (nm : String) (x : ℕ)
    → count x (get_or [] nm (insert name ids g))
      ≡ (if name == nm then count x ids else count x (get_or [] nm g))
count-insert_gres name ids g nm x = ground (arith, get-insert name nm ids g)

module _ (totals : Map String ℕ) where
  count-put_back :
      (name : String) (ids : List ℕ) (available : Gres)
      → ((x : ℕ)
          → count x ids + count x (get_or [] name available) ≤ below x (gres_limit totals name))
      → (nm : String) (x : ℕ)
      → count x (get_or [] nm (put_back totals name ids available))
        ≡ at_name name nm (count x ids) + count x (get_or [] nm available)
  unfolding put_back
  count-put_back name ids available h nm x =
      let back = give_back (gres_limit totals name) ids (get_or [] name available) in
      ground (
        arith,
        count-insert_gres name (sort back) available nm x,
        count-sort x back,
        count-give_back (gres_limit totals name) ids (get_or [] name available) h x,
        eq_iff name nm,
      )

  pub count-give_back_gres :
      (g available : Gres)
      → Distinct g
      → ((nm : String) (x : ℕ)
          → count x (get_or [] nm g) + count x (get_or [] nm available)
            ≤ below x (gres_limit totals nm))
      → (nm : String) (c : ℕ)
      → count c (get_or [] nm (give_back_gres totals g available))
        ≡ count c (get_or [] nm g) + count c (get_or [] nm available)
  unfolding give_back_gres
  count-give_back_gres [] available d h nm c = omega arith
  count-give_back_gres ((name, ids) ∷ g) available d h nm c = omega (
    arith,
    count-give_back_gres g (put_back totals name ids available) d.1
        (λ n x. omega (
          arith,
          h n x,
          count-put_back name ids available own n x,
          count-cons_gres name ids g n x d.0,
        ))
        nm c,
    count-put_back name ids available own nm c,
    count-cons_gres name ids g nm c d.0,
  )
    where
      own :
          (x : ℕ)
          → count x ids + count x (get_or [] name available) ≤ below x (gres_limit totals name)
      own x = ground (arith, h name x, eq_iff name name)

-- A worker with no jobs has every core and every id available.
pub all_gres-get :
    (totals : Map String ℕ) (nm : String)
    → get_or [] nm (all_gres totals) ≡ range (gres_limit totals nm)
unfolding all_gres as_u32
all_gres-get [] nm = refl
all_gres-get ((name, n) ∷ totals) nm = ground (arith, all_gres-get totals nm)

-- What holds of the books before an idle worker's lists are reset: the job's ids are available again.
module _ (worker_id : String) (job_id : ℕ) (job : JobInfo) (w : WorkerHandle) (ok : WorkerOk w)
    (held : contains job_id w.assigned_jobs ≡ true) where
  recorded_cores :
      (cores : List ℕ) × (get job_id w.job_core_assignments ≡ some cores)
      × (released_cores worker_id job_id job w ≡ cores)
  unfolding released_cores
  recorded_cores = ground (arith, ok.cores_tracked job_id)

  recorded_gres :
      (g : Gres) × (get job_id w.job_gres_assignments ≡ some g)
      × (released_gres worker_id job_id job w ≡ g)
  unfolding released_gres
  recorded_gres = ground (arith, ok.gres_tracked job_id)

  take_back-WorkerOk : WorkerOk (take_back worker_id job_id job w)
  unfolding take_back
  take_back-WorkerOk =
      let (cores, hc, rc) = recorded_cores in
      let (g, hg, rg) = recorded_gres in
      record {
        cores_exact = λ c. rw rc (
            omega (
              arith,
              count-sort c (give_back w.resources.cpu_cores cores w.available_core_ids),
              count-give_back w.resources.cpu_cores cores w.available_core_ids
                  (λ x. omega (
                    arith,
                    ok.cores_exact x,
                    owned-remove x job_id w.job_core_assignments cores ok.cores_distinct hc,
                  ))
                  c,
              owned-remove c job_id w.job_core_assignments cores ok.cores_distinct hc,
              ok.cores_exact c,
            ));
        gres_exact = λ name i. rw rg (
            omega (
              arith,
              count-give_back_gres w.resources.gres g w.available_gres_ids
                  (AllDistinct-get job_id w.job_gres_assignments g ok.names_distinct hg)
                  (λ n x. omega (
                    arith,
                    ok.gres_exact n x,
                    owned_gres-remove n x job_id w.job_gres_assignments g ok.gres_distinct hg,
                  ))
                  name i,
              owned_gres-remove name i job_id w.job_gres_assignments g ok.gres_distinct hg,
              ok.gres_exact name i,
            ));
        cores_tracked = λ j. ground (
          arith,
          ok.cores_tracked j,
          get-remove job_id j w.job_core_assignments,
          contains-without job_id j w.assigned_jobs,
        );
        gres_tracked = λ j. ground (
          arith,
          ok.gres_tracked j,
          get-remove job_id j w.job_gres_assignments,
          contains-without job_id j w.assigned_jobs,
        );
        cores_distinct = Distinct-remove job_id w.job_core_assignments ok.cores_distinct;
        gres_distinct = Distinct-remove job_id w.job_gres_assignments ok.gres_distinct;
        names_distinct = AllDistinct-remove job_id w.job_gres_assignments ok.names_distinct;
      }

-- With no job left nothing is owned.
owned-untracked :
    (c : ℕ) (m : Map ℕ (List ℕ)) → ((j : ℕ) → contains_key j m ≡ false) → owned c m ≡ 0
owned-untracked c [] h = refl
owned-untracked c ((j, cores) ∷ m) h = absurd (ground (arith, h j, nat_beq_iff j j))

owned_gres-untracked :
    (name : String) (i : ℕ) (m : Map ℕ Gres)
    → ((j : ℕ) → contains_key j m ≡ false)
    → owned_gres name i m ≡ 0
owned_gres-untracked name i [] h = refl
owned_gres-untracked name i ((j, g) ∷ m) h = absurd (ground (arith, h j, nat_beq_iff j j))

idle-contains : (xs : List ℕ) → is_empty xs ≡ true → (j : ℕ) → contains j xs ≡ false
idle-contains [] h j = refl
idle-contains (x ∷ xs) h j = cc

reset_if_idle-WorkerOk : (w : WorkerHandle) → WorkerOk w → WorkerOk (reset_if_idle w)
unfolding reset_if_idle
reset_if_idle-WorkerOk w ok = elim (Bool-cases (is_empty w.assigned_jobs)) [
  | inr busy ↦ rw busy ok
  | inl idle ↦ rw idle (record {
    cores_exact = λ c. omega (
      arith,
      count-range c w.resources.cpu_cores,
      owned-untracked c w.job_core_assignments
          (λ j. ok.cores_tracked j ∙ idle-contains w.assigned_jobs idle j),
    );
    gres_exact = λ name i. omega (
      arith,
      ap (count i) (all_gres-get w.resources.gres name),
      count-range i (gres_limit w.resources.gres name),
      owned_gres-untracked name i w.job_gres_assignments
          (λ j. ok.gres_tracked j ∙ idle-contains w.assigned_jobs idle j),
    );
    cores_tracked = ok.cores_tracked;
    gres_tracked = ok.gres_tracked;
    cores_distinct = ok.cores_distinct;
    gres_distinct = ok.gres_distinct;
    names_distinct = ok.names_distinct;
  })
]

-- If the worker's books are exact, they are exact after the release of any job, held or not.
pub release_on-WorkerOk :
    (worker_id : String) (job_id : ℕ) (job : JobInfo) (w : WorkerHandle)
    → WorkerOk w
    → WorkerOk (release_on worker_id job_id job w)
unfolding release_on
release_on-WorkerOk worker_id job_id job w ok =
    elim (Bool-cases (contains job_id w.assigned_jobs)) [
      | inl held ↦
          rw held (reset_if_idle-WorkerOk _ (take_back-WorkerOk worker_id job_id job w ok held))
      | inr free ↦ rw free ok
    ]

-- A release forgets its own job, and leaves the others.
pub contains-release_on :
    (id : String) (job_id j : ℕ) (job : JobInfo) (w : WorkerHandle)
    → contains j (release_on id job_id job w).assigned_jobs
      ≡ (if nat_beq job_id j then false else contains j w.assigned_jobs)
unfolding release_on reset_if_idle take_back
contains-release_on id job_id j job w =
    ground (arith, contains-without job_id j w.assigned_jobs, nat_beq_iff job_id j)
