-- ===== src/Controller/Pmi.antt =====
-- The part of `handle_worker_message` of controller/src/handlers/worker.rs that serves PMI: the keys
-- and the barriers of the steps.
pub mod Barrier
pub mod Keys
use veloce_ce.Base.{
  ℕ, String, Bool, true, false, Option, none, some, List, [], ◌∷◌, Map, get, get_or, insert, remove,
  contains_key, adjoin, nat_eq, string_eq, pair_eq, nat_beq, as_u32, length, if◌then◌else◌,
}
use veloce_ce.Types.Step.{StepInfo}
use veloce_ce.Controller.Messages.{step_pmi_get_response, step_pmi_barrier_release}
use veloce_ce.Controller.State.{GlobalState, send}

-- A step: the id of its job, and its own
abbrev pub StepKey : Type 0
StepKey = ℕ × ℕ

pub record Pmi : Type 0 where
  pub state : GlobalState
  pub pmi_kvs : Map StepKey (Map String String)
  pub pmi_barriers : Map StepKey (List ℕ)  -- sets of ranks

pub data PmiRequest : Type 0 where
  put : StepKey → ℕ → String → String → PmiRequest
  ask : StepKey → ℕ → String → ℕ → PmiRequest
  barrier_enter : StepKey → ℕ → PmiRequest

pub kvs_put : StepKey → String → String → Pmi → Pmi
kvs_put step key value p = record p {
  pmi_kvs = insert step (insert key value (get_or [] step p.pmi_kvs)) p.pmi_kvs;
}

abbrev pub lookup_key : String → Option (Map String String) → Option String
lookup_key key none = none
lookup_key key (some m) = get key m

pub kvs_get : StepKey → String → Pmi → Option String
kvs_get step key p = lookup_key key (get step p.pmi_kvs)

pub answer_get : String → StepKey → ℕ → String → ℕ → Pmi → Pmi
unfolding kvs_get
answer_get worker_id step rank key request_id p =
    let msg = step_pmi_get_response (record {
      step = step;
      rank = rank;
      request_id = request_id;
      key = key;
      value = kvs_get step key p;
    }) in
    if contains_key worker_id p.state.workers
    then record p { state = send worker_id msg p.state }
    else p

-- The release is sent to every worker of the step.
pub release_to : StepKey → List String → GlobalState → GlobalState
release_to step [] s = s
release_to step (id ∷ ids) s = release_to step ids (send id (step_pmi_barrier_release step) s)

pub release : StepKey → Pmi → Pmi
unfolding release_to
release step p =
    let q = record p { pmi_barriers = remove step p.pmi_barriers } in
    elim (get step p.state.steps) [
      | none ↦ q
      | some info ↦ record q { state = release_to step info.assigned_workers p.state }
    ]

-- With these ranks the barrier opens, or waits.
pub arrive : StepKey → ℕ → List ℕ → Pmi → Pmi
unfolding release
arrive step ntasks ranks p =
    let q = record p { pmi_barriers = insert step ranks p.pmi_barriers } in
    if nat_beq (as_u32 (length ranks)) ntasks then release step q else q

pub enter : StepKey → ℕ → Pmi → Pmi
unfolding arrive
enter step rank p = elim (get step p.state.steps) [
  | none ↦ p
  | some info ↦ arrive step info.ntasks (adjoin rank (get_or [] step p.pmi_barriers)) p
]

pub handle_request : String → PmiRequest → Pmi → Pmi
unfolding kvs_put answer_get enter
handle_request worker_id (put step rank key value) p = kvs_put step key value p
handle_request worker_id (ask step rank key request_id) p =
    answer_get worker_id step rank key request_id p
handle_request worker_id (barrier_enter step rank) p = enter step rank p
