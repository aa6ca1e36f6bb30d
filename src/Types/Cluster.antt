-- ===== src/Types/Cluster.antt =====
-- Machines and reservations of common/src/types/mod.rs.
use veloce_ce.Base.{ℕ, String, Bool, List, Map}
use veloce_ce.Types.Floats.{F64}

pub record Resources : Type 0 where
  pub cpu_cores : ℕ
  pub total_memory : ℕ
  pub free_memory : ℕ
  pub cpu_usage : F64
  pub cpu_model : String
  pub arch : String
  pub os_name : String
  pub os_version : String
  pub kernel_version : String
  pub host_name : String
  pub load_avg : F64 × F64 × F64
  pub disk_total : ℕ
  pub disk_free : ℕ
  pub uptime : ℕ
  pub boot_time : ℕ
  pub process_count : ℕ
  pub swap_total : ℕ
  pub swap_free : ℕ
  pub version : String
  pub gres : Map String ℕ
  pub cgroup_enabled : Bool

-- `nodes` is a set.
pub record Reservation : Type 0 where
  pub id : String
  pub nodes : List String
  pub start_time : ℕ
  pub end_time : ℕ
  pub owner : String
