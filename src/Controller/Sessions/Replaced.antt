-- ===== src/Controller/Sessions/Replaced.antt =====
-- What an old connection of a worker does when there is a new one.
use veloce_ce.Base.{
  ℕ, String, true, false, some, List, [], ◌∷◌, get, get-insert, string_eq, nat_beq, beq_refl, ◌≡◌,
  refl, ap, ◌∙◌,
}
use veloce_ce.Types.Floats.{Floats}
use veloce_ce.Types.Cluster.{Resources}
use veloce_ce.Controller.State.{WorkerHandle, is_leader}
use veloce_ce.Controller.Sessions.{
  JobStats, Monitor, Connection, registered, register, disconnect, heartbeat, beat_on_leader,
}

-- What may still happen on a connection: a heartbeat arrives, or it ends.
pub data Late : Type 0 where
  beats : ℕ → Resources → List JobStats → Late
  ends : ℕ → Late

module _ (f : Floats) (timeout : ℕ) (worker_id : String) (connection_id : ℕ) where
  abbrev pub happen : Late → Monitor → Monitor
  happen (beats now resources stats) m =
      heartbeat f now timeout worker_id connection_id resources stats m
  happen (ends now) m = record m { state = disconnect now worker_id connection_id m.state }

  abbrev pub happen_all : List Late → Monitor → Monitor
  happen_all [] m = m
  happen_all (e ∷ es) m = happen_all es (happen e m)

  happen_old :
      (e : Late) (m : Monitor) (w : WorkerHandle)
      → is_leader m.state.role ≡ true
      → get worker_id m.state.workers ≡ some w
      → nat_beq w.connection_id connection_id ≡ false
      → happen e m ≡ m
  unfolding heartbeat beat_on_leader disconnect
  happen_old (beats now resources stats) m w leads stored other =
      rw (heartbeat, leads, beat_on_leader, stored, other) refl
  happen_old (ends now) m w leads stored other = rw (disconnect, stored, other) refl

  happen_all_old :
      (es : List Late) (m : Monitor) (w : WorkerHandle)
      → is_leader m.state.role ≡ true
      → get worker_id m.state.workers ≡ some w
      → nat_beq w.connection_id connection_id ≡ false
      → happen_all es m ≡ m
  happen_all_old [] m w leads stored other = refl
  happen_all_old (e ∷ es) m w leads stored other =
      ap (happen_all es) (happen_old e m w leads stored other)
      ∙ happen_all_old es m w leads stored other

-- On the leader, after a worker has registered over a new connection, no heartbeat on an old one and
-- no end of an old one changes anything, in any number and order.
pub happen_all-register :
    (f : Floats) (now timeout : ℕ) (c : Connection) (old : ℕ) (es : List Late) (m : Monitor)
    → is_leader m.state.role ≡ true
    → nat_beq c.connection_id old ≡ false
    → let after = record m { state = register now c m.state } in
      happen_all f timeout c.worker_id old es after ≡ after
unfolding register registered
happen_all-register f now timeout c old es m leads other =
    happen_all_old f timeout c.worker_id old es (record m { state = register now c m.state })
      (registered now c m.state) leads
      (get-insert c.worker_id c.worker_id (registered now c m.state) m.state.workers
        ∙ rw (beq_refl c.worker_id) refl)
      other
