-- ===== src/Controller/State/Reachable.antt =====
-- What is put on which channel for a worker that can be reached, by `send_to_worker` of
-- controller/src/handlers/worker.rs.
use veloce_ce.Base.{String, false, some, List, [], ◌∷◌, Map, get, string_eq, ◌≡◌, refl}
use veloce_ce.Controller.Messages.{Message, Effect, sent, forwarded}
use veloce_ce.Controller.State.{
  GlobalState, WorkerHandle, WorkerRouting, Channel, direct, gateway, send, send_to_worker,
  log_effect, via_routing, via_channel, via_peer,
}

-- The channel to the worker, or to the peer that it is connected to, is open.
abbrev pub IsOpen : Map String Channel → WorkerRouting → Type 0
IsOpen peers (direct c) = c.closed ≡ false
IsOpen peers (gateway peer) = (c : Channel) × (get peer peers ≡ some c) × (c.closed ≡ false)

-- The message on that channel
abbrev pub carried : WorkerRouting → String → Message → Effect
carried (direct c) id msg = sent id msg
carried (gateway peer) id msg = forwarded peer id msg

pub record Reachable (ws : Map String WorkerHandle) (peers : Map String Channel) (id : String)
    : Type 0 where
  pub handle : WorkerHandle
  pub stored : get id ws ≡ some handle
  pub is_open : IsOpen peers handle.routing

abbrev pub AllReachable : Map String WorkerHandle → Map String Channel → List String → Type 0
AllReachable ws peers [] = Unit
AllReachable ws peers (id ∷ ids) = Reachable ws peers id × AllReachable ws peers ids

-- The message, once for each of the workers, in order
abbrev pub carried_all :
    (ws : Map String WorkerHandle) (peers : Map String Channel) (ids : List String)
    → AllReachable ws peers ids
    → Message
    → List Effect
carried_all ws peers [] h msg = []
carried_all ws peers (id ∷ ids) (r, h) msg =
    carried r.handle.routing id msg ∷ carried_all ws peers ids h msg

-- With these effects, and otherwise as it is
abbrev pub with_effects : List Effect → GlobalState → GlobalState
with_effects effects s = record s { effects = effects }

via_routing-IsOpen :
    (r : WorkerRouting) (id : String) (msg : Message) (s : GlobalState)
    → IsOpen s.peers r
    → (via_routing r id msg s).0 ≡ log_effect (carried r id msg) s
unfolding via_routing via_channel via_peer
via_routing-IsOpen (direct c) id msg s h = rw (h) refl
via_routing-IsOpen (gateway peer) id msg s (c, stored, h) = rw (stored, h) refl

pub send-Reachable :
    (s : GlobalState) (id : String) (msg : Message) (r : Reachable s.workers s.peers id)
    → send id msg s ≡ log_effect (carried r.handle.routing id msg) s
unfolding send_to_worker
send-Reachable s id msg r =
    rw (r.stored, send, send_to_worker) (via_routing-IsOpen r.handle.routing id msg s r.is_open)
