-- ===== src/Controller/State.antt =====
-- controller/src/state.rs: the state behind the controller's lock, and `send_to_worker` of
-- controller/src/handlers/worker.rs. Channels for logs, terminals and step output are not part of it.
pub mod Reachable
use veloce_ce.Base.{
  ℕ, String, Bool, true, false, Option, none, some, List, [], ◌∷◌, ◌++◌, Map, get, string_eq,
  if◌then◌else◌, format, decimal, Result, ok, err,
}
use veloce_ce.Types.Floats.{F64}
use veloce_ce.Types.Job.{JobInfo}
use veloce_ce.Types.Step.{StepInfo}
use veloce_ce.Types.Cluster.{Resources, Reservation}
use veloce_ce.Controller.Messages.{Message, Effect, sent, forwarded}

-- The sending half of a channel, and whether its receiver is gone. A full channel takes the message
-- later, so it is no other case.
pub record Channel : Type 0 where
  pub closed : Bool

pub data WorkerRouting : Type 0 where
  direct : Channel → WorkerRouting
  gateway : String → WorkerRouting

pub record SocketAddr : Type 0 where
  pub ip : String
  pub is_ipv6 : Bool
  pub port : ℕ

-- `SocketAddr::to_string`
unfoldable pub show_addr : SocketAddr → String
show_addr a =
    if a.is_ipv6
    then format ("[" ∷ a.ip ∷ "]:" ∷ decimal a.port ∷ [])
    else format (a.ip ∷ ":" ∷ decimal a.port ∷ [])

pub record WorkerHandle : Type 0 where
  pub addr : SocketAddr
  pub hostname : String
  pub resources : Resources
  pub routing : WorkerRouting
  pub assigned_jobs : List ℕ  -- a set
  pub allocated_memory : ℕ
  pub connection_id : ℕ
  pub available_core_ids : List ℕ
  pub job_core_assignments : Map ℕ (List ℕ)
  pub available_gres_ids : Map String (List ℕ)
  pub job_gres_assignments : Map ℕ (Map String (List ℕ))
  pub connected : Bool
  pub last_seen : ℕ
  pub cgroup_enabled : Bool
  pub draining : Bool
  pub current_pulse_interval : F64
  pub features : ℕ

pub data ControllerRole : Type 0 where
  leader follower : ControllerRole

-- `role == ControllerRole::Leader`
abbrev pub is_leader : ControllerRole → Bool
is_leader leader = true
is_leader follower = false

pub record UsageTracker : Type 0 where
  pub usage : Map String F64
  pub last_decay : ℕ

pub record MultinodeJobTracking : Type 0 where
  pub dispatched_workers : Map ℕ (List String)
  pub worker_log_files : Map ℕ (Map String (Option String × Option String))
  pub done_workers : Map ℕ (List String)

pub record GlobalState : Type 0 where
  pub workers : Map String WorkerHandle
  pub jobs : Map ℕ JobInfo
  pub queue : List ℕ
  pub next_job_id : ℕ
  pub usage_tracker : UsageTracker
  pub steps : Map (ℕ × ℕ) StepInfo
  pub next_step_id : ℕ
  pub role : ControllerRole
  pub peers : Map String Channel
  pub multinode_job_tracking : MultinodeJobTracking
  pub api_port : ℕ
  pub reservations : Map String Reservation
  pub effects : List Effect

abbrev pub log_effect : Effect → GlobalState → GlobalState
log_effect x s = record s { effects = s.effects ++ x ∷ [] }

unreachable : String → GlobalState → GlobalState × Result String (Unit {0})
unreachable worker_id s =
    (s, err (format ("Worker " ∷ worker_id ∷ " not found or routing path unavailable" ∷ [])))

via_channel : Channel → Effect → String → GlobalState → GlobalState × Result String (Unit {0})
via_channel c x complaint s = if c.closed then (s, err complaint) else (log_effect x s, ok tt)

via_peer :
    Option Channel
    → String
    → String
    → Message
    → GlobalState
    → GlobalState × Result String (Unit {0})
unfolding unreachable via_channel
via_peer none peer worker_id msg s = unreachable worker_id s
via_peer (some c) peer worker_id msg s =
    via_channel c (forwarded peer worker_id msg) "Peer channel closed" s

via_routing :
    WorkerRouting → String → Message → GlobalState → GlobalState × Result String (Unit {0})
unfolding via_peer
via_routing (direct c) worker_id msg s =
    via_channel c (sent worker_id msg) "Worker channel closed" s
via_routing (gateway peer) worker_id msg s = via_peer (get peer s.peers) peer worker_id msg s

unfoldable pub send_to_worker :
    GlobalState → String → Message → GlobalState × Result String (Unit {0})
unfolding via_routing
send_to_worker s worker_id msg = elim (get worker_id s.workers) [
  | none ↦ unreachable worker_id s
  | some w ↦ via_routing w.routing worker_id msg s
]

-- `let _ = send_to_worker(…)`
abbrev pub send : String → Message → GlobalState → GlobalState
send worker_id msg s = (send_to_worker s worker_id msg).0
