-- ===== src/Scheduler/Selection.antt =====
-- `schedule_jobs` of controller/src/scheduler/mod.rs: which workers a job is given, and which jobs it
-- evicts from them. A group's place is that of its first member.
pub mod Sorting
pub mod Once
pub mod Room
use veloce_ce.Base.{
  ℕ, zero, ◌-◌, ◌+◌, String, Bool, true, false, not, ◌&&◌, ◌||◌, Option, none, some, List, [], ◌∷◌,
  ◌++◌, map, Map, get, get_or, insert, adjoin, string_eq, nat_eq, pair_eq, if◌then◌else◌, ltb, leb,
  length, take, add64,
}
use veloce_ce.Types.Job.{JobInfo, is_preemptible, is_interactive}
use veloce_ce.Types.Cluster.{Reservation}
use veloce_ce.Controller.State.{WorkerHandle}
use veloce_ce.Scheduler.Fits.{is_reserved, free_mb, is_open}

module _ {ℓ} {A : Type ℓ} where
  -- A stable sort by a test for `Ordering::Greater`
  abbrev pub insert_by : (A → A → Bool) → A → List A → List A
  insert_by gt x [] = x ∷ []
  insert_by gt x (y ∷ ys) = let rest = insert_by gt x ys in if gt x y then y ∷ rest else x ∷ y ∷ ys

  unfoldable pub sort_by : (A → A → Bool) → List A → List A
  sort_by gt [] = []
  sort_by gt (x ∷ xs) = insert_by gt x (sort_by gt xs)

-- How many cores are available; `unwrap` never meets a worker that is not there.
abbrev pub cores_at : Map String WorkerHandle → String → ℕ
cores_at ws id = elim (get id ws) [ none ↦ 0 | some w ↦ length w.available_core_ids ]

-- Most available first
unfoldable pub sort_available : Map String WorkerHandle → List String → List String
sort_available ws = sort_by (λ a b. ltb (cores_at ws a) (cores_at ws b))

module _ {ℓ} {A : Type ℓ} (ws : Map String WorkerHandle) (id_of : A → String) where
  -- `groups.entry(key).or_default().push(…)` for each that is there
  unfoldable pub group : List A → Map (String × String) (List A) → Map (String × String) (List A)
  group [] groups = groups
  group (x ∷ xs) groups = elim (get (id_of x) ws) [
    | none ↦ group xs groups
    | some w ↦
        let key : String × String = (w.resources.cpu_model, w.resources.arch) in
        group xs (insert key (get_or [] key groups ++ x ∷ []) groups)
  ]

  -- The first group that is large enough, truncated
  unfoldable pub first_large : ℕ → Map (String × String) (List A) → Option (List A)
  first_large n [] = none
  first_large n ((key, xs) ∷ groups) =
      if leb n (length xs) then some (take n xs) else first_large n groups

  -- The nodes among the candidates. The outer `none` is the panic of `candidates[0]` on no candidates.
  unfoldable pub select_nodes : ℕ → List A → Option (Option (List A))
  select_nodes n xs =
      if leb n (length xs)
      then if ltb 1 n
        then some (first_large n (group xs []))
        else elim xs [ [] ↦ none | x ∷ _ ↦ some (some (x ∷ [])) ]
      else some none

-- What preempting a worker's preemptible jobs would give.
pub record Evictable : Type 0 where
  pub jobs_on_worker : List ℕ
  pub cores_count : ℕ
  pub mem : ℕ
  pub gres : Map String ℕ

unfoldable pub tally_gres : Map String (List ℕ) → Map String ℕ → Map String ℕ
tally_gres [] counts = counts
tally_gres ((name, ids) ∷ rest) counts =
    tally_gres rest (insert name (get_or 0 name counts + length ids) counts)

unfoldable pub add_evictable : ℕ → JobInfo → WorkerHandle → Evictable → Evictable
add_evictable id job w e = record {
  jobs_on_worker = e.jobs_on_worker ++ id ∷ [];
  cores_count = e.cores_count + length (get_or [] id w.job_core_assignments);
  mem = add64 e.mem job.req_memory;
  gres = tally_gres (get_or [] id w.job_gres_assignments) e.gres;
}

unfoldable pub evictable : Map ℕ JobInfo → WorkerHandle → List ℕ → Evictable → Evictable
evictable jobs w [] e = e
evictable jobs w (id ∷ ids) e = elim (get id jobs) [
  | none ↦ evictable jobs w ids e
  | some job ↦
      if is_preemptible job.qos
      then evictable jobs w ids (add_evictable id job w e)
      else evictable jobs w ids e
]

-- Each name of the request, available and preemptible together
unfoldable pub gres_within : Map String ℕ → Map String (List ℕ) → Map String ℕ → Bool
gres_within [] available preempt = true
gres_within ((name, n) ∷ request) available preempt =
    leb n (length (get_or [] name available) + get_or 0 name preempt)
    && gres_within request available preempt

unfoldable pub fits_with_eviction :
    ℕ → JobInfo → Map String Reservation → String → WorkerHandle → Evictable → Bool
fits_with_eviction now job reservations id w e =
    not (is_reserved now job id reservations)
    && leb job.req_cores (length w.available_core_ids + e.cores_count)
    && leb job.req_memory (add64 (free_mb w) e.mem)
    && gres_within job.gres_req w.available_gres_ids e.gres

unfoldable pub preempt_candidates :
    ℕ
    → JobInfo
    → Map String Reservation
    → Map ℕ JobInfo
    → Map String WorkerHandle
    → List (String × List ℕ)
preempt_candidates now job reservations jobs [] = []
preempt_candidates now job reservations jobs ((id, w) ∷ ws) =
    let rest = preempt_candidates now job reservations jobs ws in
    let e =
      evictable jobs w w.assigned_jobs
        (record { jobs_on_worker = []; cores_count = 0; mem = 0; gres = [] }) in
    if is_open w && fits_with_eviction now job reservations id w e
    then (id, e.jobs_on_worker) ∷ rest
    else rest

-- The workers of a job, and the jobs to preempt first
pub record Choice : Type 0 where
  pub selected_ids : List String
  pub jobs_to_preempt : List ℕ

unfoldable pub adjoin_all : List ℕ → List ℕ → List ℕ
adjoin_all [] set = set
adjoin_all (id ∷ ids) set = adjoin_all ids (adjoin id set)

unfoldable pub all_evicted : List (String × List ℕ) → List ℕ → List ℕ
all_evicted [] set = set
all_evicted ((id, ids) ∷ nodes) set = all_evicted nodes (adjoin_all ids set)

-- Least evictions first
unfoldable pub choose_preempting :
    ℕ
    → JobInfo
    → Map String Reservation
    → Map ℕ JobInfo
    → Map String WorkerHandle
    → Option (Option Choice)
choose_preempting now job reservations jobs ws =
    let candidates =
      sort_by (λ (a : String × List ℕ) b. ltb (length b.1) (length a.1))
        (preempt_candidates now job reservations jobs ws) in
    elim (select_nodes ws (λ (c : String × List ℕ). c.0) job.req_nodes candidates) [
      | none ↦ none
      | some none ↦ some none
      | some (some nodes) ↦ some (
          some (record {
            selected_ids = map (λ (c : String × List ℕ). c.0) nodes;
            jobs_to_preempt = all_evicted nodes [];
          }))
    ]

-- Workers with room first; only an interactive job preempts.
unfoldable pub choose :
    ℕ
    → JobInfo
    → Map String Reservation
    → Map ℕ JobInfo
    → Map String WorkerHandle
    → List String
    → Option (Option Choice)
choose now job reservations jobs ws available =
    elim (select_nodes ws (λ id. id) job.req_nodes available) [
      | none ↦ none
      | some (some ids) ↦ some (some (record { selected_ids = ids; jobs_to_preempt = [] }))
      | some none ↦
          if is_interactive job.qos
          then choose_preempting now job reservations jobs ws
          else some none
    ]
