-- ===== src/Controller/Sessions/Grace.antt =====
-- How long a worker whose connection ended is kept.
use veloce_ce.Base.{
  ℕ, ◌+◌, ◌≤◌, String, true, false, some, Map, get, adjust, contains_key, get-adjust, Distinct,
  Distinct-adjust, string_eq, nat_beq, beq_refl, Option-cases, inl, inr, ◌≡◌, refl, ap, ◌∙◌, arith,
}
use veloce_ce.Types.Floats.{Floats}
use veloce_ce.Controller.State.{GlobalState, WorkerHandle}
use veloce_ce.Controller.Finalize.Alive.{here, Alive}
use veloce_ce.Controller.Timeouts.{Context, check_timeouts}
use veloce_ce.Controller.Timeouts.Alive.{check_timeouts-Alive}
use veloce_ce.Controller.Sessions.{disconnect}

contains_key-here :
    (now : ℕ) (id : String) (ws : Map String WorkerHandle)
    → here now (get id ws) ≡ true
    → contains_key id ws ≡ true
contains_key-here now id ws h = elim (Option-cases (get id ws)) [
  | inl e ↦ ground (arith, e, h)
  | inr (w, e) ↦ ground (arith, e)
]

disconnect-Alive :
    (t now : ℕ) (id : String) (connection_id : ℕ) (s : GlobalState) (w : WorkerHandle)
    → Distinct s.workers
    → get id s.workers ≡ some w
    → w.connection_id ≡ connection_id
    → now ≤ t + 60
    → Alive now id (disconnect t id connection_id s).workers
unfolding disconnect
disconnect-Alive t now id connection_id s w once stored mine soon =
    let g : WorkerHandle → WorkerHandle = λ h. record h { connected = false; last_seen = t } in
    let same : nat_beq w.connection_id connection_id ≡ true = ground (arith, mine) in
    let there : get id (adjust id g s.workers) ≡ some (g w) =
      get-adjust id id g s.workers ∙ rw (beq_refl id, stored) refl in
    rw (stored, disconnect, same)
      (Distinct-adjust id g s.workers once, ap (here now) there ∙ ground (arith, soon))

-- If every worker is stored once and the connection of one ends, the worker is still stored after a
-- check of timeouts that comes at most a minute later.
pub check_timeouts-disconnect :
    {Metrics : Type 0} (f : Floats) (t now : ℕ) (id : String) (connection_id : ℕ)
    (c : Context Metrics) (w : WorkerHandle)
    → Distinct c.state.workers
    → get id c.state.workers ≡ some w
    → w.connection_id ≡ connection_id
    → now ≤ t + 60
    → let ended = record c { state = disconnect t id connection_id c.state } in
      contains_key id (check_timeouts f now ended).state.workers ≡ true
check_timeouts-disconnect f t now id connection_id c w once stored mine soon =
    let ended = record c { state = disconnect t id connection_id c.state } in
    let alive = disconnect-Alive t now id connection_id c.state w once stored mine soon in
    contains_key-here now id _ (check_timeouts-Alive f now id ended alive).1
