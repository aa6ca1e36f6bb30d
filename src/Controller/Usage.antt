-- ===== src/Controller/Usage.antt =====
-- common/src/usage.rs, and the effective priority of controller/src/scheduler/mod.rs. The clock and
-- the two environment variables are arguments.
use veloce_ce.Base.{ℕ, ◌-◌, String, Map, [], ◌∷◌, get_or, insert, string_eq, if◌then◌else◌, ltb}
use veloce_ce.Types.Floats.{F64, bits, Floats, zero_float}
use veloce_ce.Types.Job.{JobInfo, QosLevel, background, preemptible, production, interactive}
use veloce_ce.Controller.State.{UsageTracker}

module _ (f : Floats) where
  -- `accrue`
  pub accrue : String → F64 → UsageTracker → UsageTracker
  accrue user cost t = record t {
    usage = insert user (f.add (get_or zero_float user t.usage) cost) t.usage;
  }

  scale_all : F64 → Map String F64 → Map String F64
  scale_all factor [] = []
  scale_all factor ((user, x) ∷ m) = (user, f.mul x factor) ∷ scale_all factor m

  -- `apply_decay`: the factor is 0.9 to the power of the minutes that passed.
  unfoldable pub apply_decay : ℕ → UsageTracker → UsageTracker
  unfolding scale_all
  apply_decay now t =
      let elapsed = now - t.last_decay in
      let factor =
        f.powf (bits 0x3feccccccccccccd) (f.div (f.of_nat elapsed) (bits 0x404e000000000000)) in
      if ltb 60 elapsed then record { usage = scale_all factor t.usage; last_decay = now } else t

  -- `calculate_effective_priority`
  unfoldable pub effective_priority : ℕ → ℕ → F64 → JobInfo → UsageTracker → F64
  effective_priority now starvation_threshold boost_rate job t =
      let wait_time = f.of_nat (now - job.queued_time) in
      let aging_bonus = f.mul wait_time (bits 0x3fe0000000000000) in
      let usage_penalty = f.mul (get_or zero_float job.user_id t.usage) (bits 0x3f847ae147ae147b) in
      let excess_mins =
        f.div (f.sub wait_time (f.of_nat starvation_threshold)) (bits 0x404e000000000000) in
      let boosting_bonus =
        if f.gt wait_time (f.of_nat starvation_threshold)
        then f.mul (f.mul excess_mins excess_mins) boost_rate
        else zero_float in
      f.sub (f.add (f.add (f.of_nat job.priority) aging_bonus) boosting_bonus) usage_penalty

-- The boost of a quality of service in the order of the queue
unfoldable pub qos_boost : QosLevel → F64
qos_boost interactive = bits 0x40c3880000000000
qos_boost production = zero_float
qos_boost preemptible = bits 0xc0b3880000000000
qos_boost background = bits 0xc0c3880000000000
