-- ===== src/Controller/Sessions/Idle/Rests.antt =====
-- A job that all of its workers keep saying is idle loses its QoS in the end.
use veloce_ce.Base.{
  ℕ, ◌-◌, ◌≤◌, String, Bool, true, false, ◌&&◌, Option, some, List, [], ◌∷◌, Map, get, insert,
  get-insert, string_eq, nat_eq, nat_beq_iff, beq_refl, ◌==◌, leb, Bool-cases, Option-cases, inl,
  inr, ◌≡◌, refl, sym, ap, subst, ◌∙◌, arith,
}
use mathlib.Core.Option
use veloce_ce.Types.Floats.{Floats}
use veloce_ce.Types.Job.{JobInfo}
use veloce_ce.Controller.Sessions.{
  JobStats, WorkerStats, Monitor, Total, total_of, globally_idle, above_preemptible, note_stats,
  note_job, set_idle, set_start, degrade,
}
use veloce_ce.Controller.Sessions.Idle.{
  said_idle, all_said_idle, Report, heard_of, stats_of, noted, note_each,
  globally_idle-all_said_idle, heard_of-note_stats, get-note_stats_same, note_stats_start,
}

all_said_idle-insert :
    (heard : Map String WorkerStats) (w : String) (said : WorkerStats) (ws : List String)
    → said_idle (some said) ≡ true
    → all_said_idle heard ws ≡ true
    → all_said_idle (insert w said heard) ws ≡ true
all_said_idle-insert heard w said [] idle every = refl
all_said_idle-insert heard w said (x ∷ ws) idle every =
    let here : said_idle (get x (insert w said heard)) ≡ true =
      ap said_idle (get-insert w x said heard) ∙ ground (arith, idle, every) in
    let rest = all_said_idle-insert heard w said ws idle (ground (arith, every)) in
    ground (arith, here, rest)

-- What no lowering of the QoS changes
degrade_same :
    (timeout : ℕ) (job : JobInfo)
    → ((degrade timeout job).id ≡ job.id)
      × ((degrade timeout job).is_idle ≡ job.is_idle)
      × ((degrade timeout job).assigned_workers ≡ job.assigned_workers)
unfolding degrade
degrade_same timeout job =
    elim (Bool-cases (job.is_idle && leb timeout job.idle_duration && above_preemptible job.qos)) [
      | inl e ↦ (rw (e, degrade) refl, rw (e, degrade) refl, rw (e, degrade) refl)
      | inr e ↦ (rw (e, degrade) refl, rw (e, degrade) refl, rw (e, degrade) refl)
    ]

degrade_idle :
    (timeout : ℕ) (job : JobInfo)
    → job.is_idle ≡ true
    → timeout ≤ job.idle_duration
    → above_preemptible (degrade timeout job).qos ≡ false
unfolding degrade
degrade_idle timeout job idle long =
    elim (Bool-cases (job.is_idle && leb timeout job.idle_duration && above_preemptible job.qos)) [
      | inl e ↦ rw (e, degrade) refl
      | inr e ↦ rw (e, degrade) (ground (arith, e, idle, long))
    ]

set_idle_idle :
    (now : ℕ) (starts : Map ℕ ℕ) (job : JobInfo)
    → let after = set_idle now true starts job in
      (after.id ≡ job.id) × (after.is_idle ≡ true) × (after.assigned_workers ≡ job.assigned_workers)
unfolding set_idle
set_idle_idle now starts job = elim (Bool-cases job.is_idle) [
  | inl e ↦ elim (Option-cases (get job.id starts)) [
    | inl q ↦ (rw (e, q, set_idle) refl, rw (e, q, set_idle) e, rw (e, q, set_idle) refl)
    | inr (t, q) ↦ (rw (e, q, set_idle) refl, rw (e, q, set_idle) e, rw (e, q, set_idle) refl)
  ]
  | inr e ↦ (rw (e, set_idle) refl, rw (e, set_idle) refl, rw (e, set_idle) refl)
]

set_idle_since :
    (now t : ℕ) (starts : Map ℕ ℕ) (job : JobInfo)
    → job.is_idle ≡ true
    → get job.id starts ≡ some t
    → (set_idle now true starts job).idle_duration ≡ now - t
unfolding set_idle
set_idle_since now t starts job idle since = rw (idle, since, set_idle) refl

note_job_idle :
    (now timeout : ℕ) (stats : JobStats) (t : Total) (starts : Map ℕ ℕ) (job : JobInfo)
    → globally_idle t job ≡ true
    → let after = note_job now timeout stats t starts job in
      (after.id ≡ job.id) × (after.is_idle ≡ true) × (after.assigned_workers ≡ job.assigned_workers)
unfolding note_job
note_job_idle now timeout stats t starts job every =
    let heard = record job {
      current_cpu_usage = t.total_cpu;
      current_memory_usage = t.total_mem;
      cgroup_active = stats.cgroup_active;
    } in
    let set = set_idle_idle now starts heard in
    let same = degrade_same timeout (set_idle now true starts heard) in
    rw (every, note_job) (same.0 ∙ set.0, same.1 ∙ set.1, same.2 ∙ set.2)

note_job_long :
    (now timeout t : ℕ) (stats : JobStats) (total : Total) (starts : Map ℕ ℕ) (job : JobInfo)
    → globally_idle total job ≡ true
    → job.is_idle ≡ true
    → get job.id starts ≡ some t
    → timeout ≤ now - t
    → above_preemptible (note_job now timeout stats total starts job).qos ≡ false
unfolding note_job
note_job_long now timeout t stats total starts job every idle since long =
    let heard = record job {
      current_cpu_usage = total.total_cpu;
      current_memory_usage = total.total_mem;
      cgroup_active = stats.cgroup_active;
    } in
    let set = set_idle_idle now starts heard in
    let time = set_idle_since now t starts heard idle since in
    rw (every, note_job)
      (degrade_idle timeout (set_idle now true starts heard) set.1
        (subst (λ n. timeout ≤ n) (sym time) long))

module _ (f : Floats) (timeout : ℕ) where
  -- The job is marked as idle since a time, and all of its workers have said that it is.
  record Resting (id t : ℕ) (m : Monitor) : Type 0 where
    job : JobInfo
    stored : get id m.state.jobs ≡ some job
    own : job.id ≡ id
    marked : job.is_idle ≡ true
    since : get id m.global_idle_start ≡ some t
    every : all_said_idle (heard_of f id m) job.assigned_workers ≡ true

  abbrev after_report : Report → Monitor → Monitor
  after_report r m = note_stats f r.now timeout r.worker r.stats m

  -- A report on the job, which says that it is idle
  abbrev pub says_idle : ℕ → Report → Bool
  says_idle id r = r.stats.job_id == id && r.stats.is_idle

  abbrev pub all_say_idle : ℕ → List Report → Bool
  all_say_idle id [] = true
  all_say_idle id (r ∷ rs) = says_idle id r && all_say_idle id rs

  -- What the workers have said of a job when the report has come as well
  abbrev heard_with : Report → Monitor → Map String WorkerStats
  heard_with r m = insert r.worker (stats_of f r.stats) (heard_of f r.stats.job_id m)

  after_report-Resting :
      (r : Report) (m : Monitor) (job : JobInfo) (t : ℕ)
      → get r.stats.job_id m.state.jobs ≡ some job
      → job.id ≡ r.stats.job_id
      → all_said_idle (heard_with r m) job.assigned_workers ≡ true
      → get r.stats.job_id (set_start r.now true job m.global_idle_start) ≡ some t
      → Resting r.stats.job_id t (after_report r m)
  after_report-Resting r m job t stored own every started =
      let id = r.stats.job_id in
      let total = total_of f job.assigned_workers (some (heard_with r m)) in
      let made =
        note_job_idle r.now timeout r.stats total m.global_idle_start job
          (globally_idle-all_said_idle f (heard_with r m) job ∙ every) in
      let said : heard_of f id (after_report r m) ≡ heard_with r m =
        heard_of-note_stats f r.now timeout r.worker r.stats m id ∙ rw (beq_refl id) refl in
      let start = note_stats_start f r.now timeout r.worker r.stats m job stored in
      record {
        job = noted f r.now timeout r.worker r.stats m job;
        stored = get-note_stats_same f r.now timeout r.worker r.stats m job stored;
        own = made.0 ∙ own;
        marked = made.1;
        since =
            ap (get id) (start ∙ ap (λ idle. set_start r.now idle job m.global_idle_start) every)
            ∙ started;
        every =
            ap
              (λ heard.
                all_said_idle heard (noted f r.now timeout r.worker r.stats m job).assigned_workers)
              said
            ∙ ap (all_said_idle (heard_with r m)) made.2
            ∙ every;
      }

  first-Resting :
      (r : Report) (m : Monitor) (job : JobInfo)
      → get r.stats.job_id m.state.jobs ≡ some job
      → job.id ≡ r.stats.job_id
      → job.is_idle ≡ false
      → all_said_idle (heard_with r m) job.assigned_workers ≡ true
      → Resting r.stats.job_id r.now (after_report r m)
  unfolding set_start
  first-Resting r m job stored own fresh every =
      after_report-Resting r m job r.now stored own every (
        rw (fresh) (
          subst (λ i. get r.stats.job_id (insert i r.now m.global_idle_start) ≡ some r.now)
            (sym own)
            (get-insert r.stats.job_id r.stats.job_id r.now m.global_idle_start
              ∙ rw (beq_refl r.stats.job_id) refl)))

  next-Resting :
      (r : Report) (m : Monitor) (t : ℕ)
      → r.stats.is_idle ≡ true
      → Resting r.stats.job_id t m
      → Resting r.stats.job_id t (after_report r m)
  unfolding set_start
  next-Resting r m t idle h =
      after_report-Resting r m h.job t h.stored h.own
        (all_said_idle-insert (heard_of f r.stats.job_id m) r.worker (stats_of f r.stats)
          h.job.assigned_workers idle h.every)
        (rw (h.marked) h.since)

  all-Resting :
      (id t : ℕ) (rs : List Report) (m : Monitor)
      → all_say_idle id rs ≡ true
      → Resting id t m
      → Resting id t (note_each f timeout rs m)
  all-Resting id t [] m idle h = h
  all-Resting id t (r ∷ rs) m idle h =
      let own : r.stats.job_id ≡ id = (nat_beq_iff r.stats.job_id id).0 (ground (arith, idle)) in
      let next =
        next-Resting r m t (ground (arith, idle)) (subst (λ i. Resting i t m) (sym own) h) in
      all-Resting id t rs (after_report r m) (ground (arith, idle))
        (subst (λ i. Resting i t (after_report r m)) own next)

  abbrev pub qos_above : ℕ → Monitor → Option Bool
  qos_above id m = Option.map (λ (j : JobInfo). above_preemptible j.qos) (get id m.state.jobs)

  last-Resting :
      (r : Report) (m : Monitor) (t : ℕ)
      → r.stats.is_idle ≡ true
      → Resting r.stats.job_id t m
      → timeout ≤ r.now - t
      → qos_above r.stats.job_id (after_report r m) ≡ some false
  last-Resting r m t idle h long =
      let total = total_of f h.job.assigned_workers (some (heard_with r m)) in
      let every =
        all_said_idle-insert (heard_of f r.stats.job_id m) r.worker (stats_of f r.stats)
          h.job.assigned_workers idle h.every in
      ap (Option.map (λ (j : JobInfo). above_preemptible j.qos))
        (get-note_stats_same f r.now timeout r.worker r.stats m h.job h.stored)
      ∙ ap some (
          note_job_long r.now timeout t r.stats total m.global_idle_start h.job
            (globally_idle-all_said_idle f (heard_with r m) h.job ∙ every) h.marked
            (subst (λ i. get i m.global_idle_start ≡ some t) (sym h.own) h.since) long)

  -- If a stored job is not marked as idle, and with a report all of its workers have said that it is,
  -- and so do any later reports on it, the last of which comes at least the timeout after the first,
  -- then the job's QoS is not above `preemptible` in the end.
  pub note_each-all_say_idle :
      (first last : Report) (rs : List Report) (m : Monitor) (job : JobInfo)
      → get first.stats.job_id m.state.jobs ≡ some job
      → job.id ≡ first.stats.job_id
      → job.is_idle ≡ false
      → all_said_idle
          (insert first.worker (stats_of f first.stats) (heard_of f first.stats.job_id m))
          job.assigned_workers
        ≡ true
      → all_say_idle first.stats.job_id rs ≡ true
      → says_idle first.stats.job_id last ≡ true
      → timeout ≤ last.now - first.now
      → qos_above first.stats.job_id
          (note_each f timeout (last ∷ []) (note_each f timeout (first ∷ rs) m))
        ≡ some false
  note_each-all_say_idle first last rs m job stored own fresh every later end long =
      let id = first.stats.job_id in
      let rests =
        all-Resting id first.now rs (after_report first m) later
          (first-Resting first m job stored own fresh every) in
      let before = note_each f timeout (first ∷ rs) m in
      let same : last.stats.job_id ≡ id =
        (nat_beq_iff last.stats.job_id id).0 (ground (arith, end)) in
      subst (λ i. qos_above i (after_report last before) ≡ some false) same
        (last-Resting last before first.now (ground (arith, end))
          (subst (λ i. Resting i first.now before) (sym same) rests) long)
