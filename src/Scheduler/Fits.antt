-- ===== src/Scheduler/Fits.antt =====
-- `schedule_jobs` of controller/src/scheduler/mod.rs: whether a job fits on one worker, now or at a
-- later time. The reservation test stands three times in that file, each time the same.
use veloce_ce.Base.{
  ℕ, ◌-◌, ◌*◌, ◌/◌, String, Bool, false, not, ◌&&◌, ◌||◌, List, [], ◌∷◌, ◌++◌, Map, get_or, values,
  contains, string_eq, ◌==◌, if◌then◌else◌, ltb, leb, length, add64, as_u32, nat_beq, format, join,
}
use veloce_ce.Types.Job.{JobInfo}
use veloce_ce.Types.Cluster.{Reservation}
use veloce_ce.Controller.State.{WorkerHandle}

-- A job without a limit counts as a day.
unfoldable pub reserved_walltime : JobInfo → ℕ
reserved_walltime job = if nat_beq job.walltime 0 then 24 * 3600 else job.walltime

-- One reservation keeps a job that would start at `t` off a worker: it is another's, and it is
-- active then, or starts before the job would end.
unfoldable pub blocks : ℕ → JobInfo → String → Reservation → Bool
blocks t job worker_id r =
    contains worker_id r.nodes
    && ((leb r.start_time t && ltb t r.end_time && not (r.owner == job.user_id))
        || (ltb t r.start_time
            && not (r.owner == job.user_id)
            && ltb r.start_time (add64 t (reserved_walltime job))))

unfoldable pub any_blocks : ℕ → JobInfo → String → List Reservation → Bool
any_blocks t job worker_id [] = false
any_blocks t job worker_id (r ∷ rs) = blocks t job worker_id r || any_blocks t job worker_id rs

unfoldable pub is_reserved : ℕ → JobInfo → String → Map String Reservation → Bool
is_reserved t job worker_id reservations = any_blocks t job worker_id (values reservations)

-- Unallocated memory in MB
unfoldable pub free_mb : WorkerHandle → ℕ
free_mb w = w.resources.total_memory / 1024 / 1024 - w.allocated_memory

-- One reason for each name that is short
unfoldable pub gres_reasons : Map String ℕ → Map String (List ℕ) → List String
gres_reasons [] available = []
gres_reasons ((name, n) ∷ request) available =
    (if ltb (length (get_or [] name available)) n then "GRES" ∷ [] else [])
    ++ gres_reasons request available

abbrev when : Bool → String → List String
when b s = if b then s ∷ [] else []

unfoldable pub worker_fail_reasons :
    ℕ → JobInfo → Map String Reservation → String → WorkerHandle → List String
worker_fail_reasons now job reservations id w =
    when (is_reserved now job id reservations) "Reserved"
    ++ when (ltb (as_u32 (length w.available_core_ids)) job.req_cores) "CPU"
    ++ when (ltb (free_mb w) job.req_memory) "Mem"
    ++ gres_reasons job.gres_req w.available_gres_ids

-- `if worker.draining || !worker.connected { continue; }`
abbrev pub is_open : WorkerHandle → Bool
is_open w = not (w.draining || not w.connected)

abbrev pub sift : String → List String → List String × List String → List String × List String
sift id [] (available, failed) = (id ∷ available, failed)
sift id (r ∷ rs) (available, failed) =
    (available, format (id ∷ ": [" ∷ join "," (r ∷ rs) ∷ "]" ∷ []) ∷ failed)

-- The workers that have room for the job, and why the others do not
unfoldable pub find_available :
    ℕ → JobInfo → Map String Reservation → Map String WorkerHandle → List String × List String
find_available now job reservations [] = ([], [])
find_available now job reservations ((id, w) ∷ ws) =
    let rest = find_available now job reservations ws in
    if is_open w then sift id (worker_fail_reasons now job reservations id w) rest else rest
