-- ===== src/Worker/Pmi/Exchange.antt =====
-- What one process of a step puts, another one gets: worker/src/pmi.rs and the controller together.
use veloce_ce.Base.{
  get_or, ap, contains_key, format, has_text, ℕ, String, true, false, some, List, [], ◌∷◌, ◌++◌,
  Map, get, string_eq, nat_beq, nat_beq_iff, ◌≡◌, refl, ◌∙◌, arith,
}
use veloce_ce.Controller.Messages.{PmiValue, step_pmi_get_response}
use veloce_ce.Controller.State.{GlobalState, send}
use veloce_ce.Controller.State.Reachable.{Reachable, carried, send-Reachable}
use veloce_ce.Controller.Pmi.{StepKey, Pmi, PmiRequest, handle_request, kvs_get, ask}
use veloce_ce.Controller.Pmi.Keys.{
  Put, put_all, last_put, kvs_get-put_all, value_of, handle_request-ask,
}
use veloce_ce.Worker.Pmi.{GetResponse, Inbox, wait_for, get_value, rank_of}

-- Responses to other requests
abbrev pub AllOthers : ℕ → List GetResponse → Type 0
AllOthers id [] = Unit
AllOthers id (r ∷ responses) = (nat_beq r.request_id id ≡ false) × AllOthers id responses

wait_for-AllOthers :
    (id : ℕ) (others responses : List GetResponse)
    → AllOthers id others
    → wait_for id (others ++ responses) ≡ wait_for id responses
unfolding wait_for
wait_for-AllOthers id [] responses h = refl
wait_for-AllOthers id (r ∷ others) responses (h, hs) =
    rw (h) (wait_for-AllOthers id others responses hs)

-- What the worker keeps of an answer of the controller
abbrev pub received : PmiValue → GetResponse
received v = record { request_id = v.request_id; value = v.value }

-- The controller takes what a worker sends, in order.
abbrev pub handle_all : String → List PmiRequest → Pmi → Pmi
handle_all w [] p = p
handle_all w (x ∷ xs) p = handle_all w xs (handle_request w x p)

-- If a value was put last under a key of the step, by whatever worker, or was there before and none
-- was put since, and the channel to a worker is open, then the controller answers what the worker
-- sends for a get of the key with one message to it; and when the answer arrives, behind responses to
-- other requests, the process is given the value.
pub get_value-handle_request :
    (step : StepKey) (counter : ℕ) (cmd key value : String) (parts : Map String String)
    (puts : List Put) (p : Pmi) (w : String) (early : Inbox) (others later : List GetResponse)
    → get "key" parts ≡ some key
    → has_text "get" cmd ≡ true
    → last_put step key puts (kvs_get step key p) ≡ some value
    → (open_to : Reachable p.state.workers p.state.peers w) → AllOthers counter others
    → let asked = handle_all w (get_value step early counter cmd parts).sent (put_all puts p) in
      (v : PmiValue) × (asked.state.effects
        ≡ p.state.effects ++ carried open_to.handle.routing w (step_pmi_get_response v) ∷ [])
      × ((get_value step
            (record early { responses = others ++ received v ∷ later })
            counter
            cmd
            parts).reply
          ≡ some (format ("cmd=kvs-get-response;rc=0;value=" ∷ value ∷ ";\n" ∷ [])))
unfolding get_value wait_for
get_value-handle_request step counter cmd key value parts puts p w early others later named text
      last open_to foreign =
    let q = put_all puts p in
    let (held, same, _) = kvs_get-put_all step key puts p in
    let v = value_of step (rank_of parts) key counter q in
    let there : contains_key w q.state.workers ≡ true =
      ap (λ (s : GlobalState). contains_key w s.workers) same ∙ ground (arith, open_to.stored) in
    let answered = handle_request-ask w step (rank_of parts) key counter q there in
    let asks_key : get_or "unknown" "key" parts ≡ key = ground (arith, named) in
    let one : nat_beq counter counter ≡ true = (nat_beq_iff counter counter).1 refl in
    (
      v,
      ap (λ k. (handle_request w (ask step (rank_of parts) k counter) q).state.effects) asks_key
          ∙ ap (λ (s : GlobalState). s.effects) answered
          ∙ ap (λ (s : GlobalState). (send w (step_pmi_get_response v) s).effects) same
          ∙ ap (λ (s : GlobalState). s.effects)
              (send-Reachable p.state w (step_pmi_get_response v) open_to),
      rw (wait_for-AllOthers counter others _ foreign, held ∙ last, one, text) refl,
    )
