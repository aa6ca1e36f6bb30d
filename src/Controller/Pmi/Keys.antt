-- ===== src/Controller/Pmi/Keys.antt =====
-- What the key of a step gives after any puts.
use veloce_ce.Base.{
  true, contains_key, ℕ, String, ◌&&◌, Option, some, List, [], ◌∷◌, Map, get, get_or, insert,
  get-insert, nat_eq, string_eq, pair_eq, if◌then◌else◌, ◌==◌, ◌≡◌, refl, ap, ◌∙◌, arith,
  pair_beq_iff, Bool-cases, inl, inr, Option-cases,
}
use veloce_ce.Controller.Messages.{PmiValue, step_pmi_get_response}
use veloce_ce.Controller.State.{send}
use veloce_ce.Controller.Pmi.{
  ask, answer_get, StepKey, Pmi, put, handle_request, kvs_put, kvs_get, lookup_key,
}

-- A put, from a worker
pub record Put : Type 0 where
  pub worker : String
  pub step : StepKey
  pub rank : ℕ
  pub key : String
  pub value : String

abbrev pub put_all : List Put → Pmi → Pmi
put_all [] p = p
put_all (x ∷ puts) p = put_all puts (handle_request x.worker (put x.step x.rank x.key x.value) p)

-- The value of the last put of the key in the step
abbrev pub last_put : StepKey → String → List Put → Option String → Option String
last_put step key [] old = old
last_put step key (x ∷ puts) old =
    last_put step key puts (if x.step == step && x.key == key then some x.value else old)

lookup_key-get_or :
    (s : StepKey) (key : String) (m : Map StepKey (Map String String))
    → get key (get_or [] s m) ≡ lookup_key key (get s m)
lookup_key-get_or s key m = elim (Option-cases (get s m)) [
  | inl e ↦ ground (arith, e)
  | inr (v, e) ↦ ground (arith, e)
]

kvs_get-kvs_put :
    (s step : StepKey) (k key value : String) (p : Pmi)
    → kvs_get step key (kvs_put s k value p)
      ≡ (if s == step && k == key then some value else kvs_get step key p)
unfolding kvs_get kvs_put
kvs_get-kvs_put s step k key value p =
    let new = insert k value (get_or [] s p.pmi_kvs) in
    let found = ap (lookup_key key) (get-insert s step new p.pmi_kvs) in
    let inner =
      get-insert k key value (get_or [] s p.pmi_kvs)
      ∙ ap (λ old. if k == key then some value else old) (lookup_key-get_or s key p.pmi_kvs) in
    elim (Bool-cases (s == step)) [
      | inl e ↦
          let same : s ≡ step = (pair_beq_iff s step).0 e in
          found
          ∙ rw (e) (
              inner
              ∙ ap (λ t. if k == key then some value else lookup_key key (get t p.pmi_kvs)) same)
      | inr n ↦ found ∙ rw (n) refl
    ]

-- After any puts, from any workers, a key of a step gives the last value that was put under it in
-- this step, or else what it gave before; the rest of the state is as before.
pub kvs_get-put_all :
    (step : StepKey) (key : String) (puts : List Put) (p : Pmi)
    → (kvs_get step key (put_all puts p) ≡ last_put step key puts (kvs_get step key p))
      × ((put_all puts p).state ≡ p.state)
      × ((put_all puts p).pmi_barriers ≡ p.pmi_barriers)
unfolding handle_request kvs_put
kvs_get-put_all step key [] p = (refl, refl, refl)
kvs_get-put_all step key (x ∷ puts) p =
    let rest = kvs_get-put_all step key puts (kvs_put x.step x.key x.value p) in
    (
      rest.0 ∙ ap (last_put step key puts) (kvs_get-kvs_put x.step step x.key key x.value p),
      rest.1,
      rest.2,
    )

-- The answer to a request for a key
abbrev pub value_of : StepKey → ℕ → String → ℕ → Pmi → PmiValue
value_of step rank key request_id p = record {
  step = step;
  rank = rank;
  request_id = request_id;
  key = key;
  value = kvs_get step key p;
}

pub handle_request-ask :
    (w : String) (step : StepKey) (rank : ℕ) (key : String) (request_id : ℕ) (p : Pmi)
    → contains_key w p.state.workers ≡ true
    → (handle_request w (ask step rank key request_id) p).state
      ≡ send w (step_pmi_get_response (value_of step rank key request_id p)) p.state
unfolding handle_request answer_get
handle_request-ask w step rank key request_id p there = rw (there, handle_request, answer_get) refl
