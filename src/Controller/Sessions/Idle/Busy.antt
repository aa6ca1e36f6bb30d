-- ===== src/Controller/Sessions/Idle/Busy.antt =====
-- A job that one of its workers does not say to be idle keeps its QoS.
use veloce_ce.Base.{
  ℕ, String, Bool, true, false, ◌&&◌, not, some, List, [], ◌∷◌, Map, get, insert, get-insert,
  string_eq, nat_eq, nat_beq_iff, eq_iff, ◌==◌, contains, if◌then◌else◌, Bool-cases, inl, inr, ◌≡◌,
  refl, sym, ap, subst, ◌∙◌, arith,
}
use mathlib.Core.Option
use veloce_ce.Types.Floats.{Floats}
use veloce_ce.Types.Job.{JobInfo}
use veloce_ce.Controller.Sessions.{
  JobStats, WorkerStats, Monitor, Total, total_of, globally_idle, note_stats, note_job, set_idle,
  degrade,
}
use veloce_ce.Controller.Sessions.Idle.{
  said_idle, all_said_idle, Report, heard_of, stats_of, noted, note_each,
  globally_idle-all_said_idle, heard_of-note_stats, get-note_stats_same, get-note_stats_other,
}

all_said_idle-contains :
    (heard : Map String WorkerStats) (b : String) (ws : List String)
    → contains b ws ≡ true
    → said_idle (get b heard) ≡ false
    → all_said_idle heard ws ≡ false
all_said_idle-contains heard b [] h busy = ground (arith, h)
all_said_idle-contains heard b (w ∷ ws) h busy = elim (Bool-cases (w == b)) [
  | inl e ↦
      let same : w ≡ b = (eq_iff w b).0 e in
      subst (λ x. (said_idle (get x heard) && all_said_idle heard ws) ≡ false) (sym same)
        (rw (busy) refl)
  | inr e ↦ ground (arith, all_said_idle-contains heard b ws, h, e, busy)
]

note_job_busy :
    (now timeout : ℕ) (stats : JobStats) (t : Total) (starts : Map ℕ ℕ) (job : JobInfo)
    → globally_idle t job ≡ false
    → let after = note_job now timeout stats t starts job in
      (after.spec ≡ job.spec) × (after.assigned_workers ≡ job.assigned_workers)
unfolding note_job set_idle degrade
note_job_busy now timeout stats t starts job busy =
    (rw (busy, note_job) refl, rw (busy, note_job) refl)

module _ (f : Floats) (timeout id : ℕ) (b : String) where
  -- The job is stored, and its worker has not said that it is idle.
  pub record Busy (job : JobInfo) (m : Monitor) : Type 0 where
    pub stored : get id m.state.jobs ≡ some job
    pub named : contains b job.assigned_workers ≡ true
    pub busy : said_idle (get b (heard_of f id m)) ≡ false

  -- The worker does not say so in the report.
  abbrev pub says_busy : Report → Bool
  says_busy r = not (r.worker == b && r.stats.job_id == id && r.stats.is_idle)

  abbrev pub all_say_busy : List Report → Bool
  all_say_busy [] = true
  all_say_busy (r ∷ rs) = says_busy r && all_say_busy rs

  -- The job that is stored after a report
  record Kept (job : JobInfo) (m : Monitor) : Type 0 where
    after : JobInfo
    still : Busy after m
    same : after.spec ≡ job.spec

  busy-note_stats :
      (r : Report) (m : Monitor)
      → says_busy r ≡ true
      → said_idle (get b (heard_of f id m)) ≡ false
      → said_idle (get b (heard_of f id (note_stats f r.now timeout r.worker r.stats m))) ≡ false
  busy-note_stats r m quiet busy =
      ap (λ heard. said_idle (get b heard))
        (heard_of-note_stats f r.now timeout r.worker r.stats m id)
      ∙ elim (Bool-cases (r.stats.job_id == id)) [
        | inl e ↦
            let own : r.stats.job_id ≡ id = (nat_beq_iff r.stats.job_id id).0 e in
            rw (e) (
              ap said_idle
                (get-insert r.worker b (stats_of f r.stats) (heard_of f r.stats.job_id m))
              ∙ subst
                  (λ i.
                    said_idle
                      (if r.worker == b then some (stats_of f r.stats) else get b (heard_of f i m))
                    ≡ false)
                  (sym own) (ground (arith, quiet, busy, e)))
        | inr e ↦ rw (e) busy
      ]

  note_stats-Busy :
      (r : Report) (m : Monitor) (job : JobInfo)
      → says_busy r ≡ true
      → Busy job m
      → Kept job (note_stats f r.now timeout r.worker r.stats m)
  note_stats-Busy r m job quiet h =
      let busy = busy-note_stats r m quiet h.busy in
      elim (Bool-cases (r.stats.job_id == id)) [
        | inl e ↦
            let own : id ≡ r.stats.job_id = sym ((nat_beq_iff r.stats.job_id id).0 e) in
            let stored : get r.stats.job_id m.state.jobs ≡ some job =
              subst (λ i. get i m.state.jobs ≡ some job) own h.stored in
            let heard = insert r.worker (stats_of f r.stats) (heard_of f r.stats.job_id m) in
            let said : heard_of f id (note_stats f r.now timeout r.worker r.stats m) ≡ heard =
              heard_of-note_stats f r.now timeout r.worker r.stats m id ∙ rw (e) refl in
            let not_all =
              all_said_idle-contains heard b job.assigned_workers h.named
                (ap (λ x. said_idle (get b x)) (sym said) ∙ busy) in
            let made =
              note_job_busy r.now timeout r.stats (total_of f job.assigned_workers (some heard))
                m.global_idle_start job (globally_idle-all_said_idle f heard job ∙ not_all) in
            record {
              after = noted f r.now timeout r.worker r.stats m job;
              still = record {
                stored =
                    subst
                      (λ i.
                        get i (note_stats f r.now timeout r.worker r.stats m).state.jobs
                        ≡ some (noted f r.now timeout r.worker r.stats m job))
                      (sym own) (get-note_stats_same f r.now timeout r.worker r.stats m job stored);
                named = ap (contains b) made.1 ∙ h.named;
                busy = busy;
              };
              same = made.0;
            }
        | inr e ↦ record {
          after = job;
          still = record {
            stored = get-note_stats_other f r.now timeout r.worker r.stats m id e ∙ h.stored;
            named = h.named;
            busy = busy;
          };
          same = refl;
        }
      ]

  -- If a worker of a stored job has not said that the job is idle, and does not say so in any of the
  -- reports, then after these, of any workers on any jobs, the job's spec, with its QoS, is as it was.
  pub note_each-Busy :
      (rs : List Report) (m : Monitor) (job : JobInfo)
      → all_say_busy rs ≡ true
      → Busy job m
      → Option.map (λ (j : JobInfo). j.spec) (get id (note_each f timeout rs m).state.jobs)
        ≡ some job.spec
  note_each-Busy [] m job quiet h = rw (h.stored) refl
  note_each-Busy (r ∷ rs) m job quiet h =
      let next = note_stats-Busy r m job (ground (arith, quiet)) h in
      note_each-Busy rs (note_stats f r.now timeout r.worker r.stats m) next.after
        (ground (arith, quiet)) next.still
      ∙ ap some next.same
