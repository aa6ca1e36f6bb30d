-- ===== src/Tests/Pmi.antt =====
-- The theorems on PMI at a step of two tasks, on the worker of the cluster of the tests.
use veloce_ce.Base.{
  format, String, Map, false, some, none, List, [], ◌∷◌, ◌≡◌, refl, get, string_eq, nat_eq, pair_eq,
  has_text, split, split_once, trim,
}
use veloce_ce.Types.Step.{StepInfo, running}
use veloce_ce.Controller.Messages.{PmiValue, sent, step_pmi_get_response}
use veloce_ce.Controller.State.Reachable.{Reachable}
use veloce_ce.Controller.Pmi.{Pmi, StepKey}
use veloce_ce.Controller.Pmi.Keys.{Put, put_all}
use veloce_ce.Worker.Pmi.{GetResponse, Inbox, process_pmi_request, get_value}
use veloce_ce.Worker.Pmi.Exchange.{received, handle_all, get_value-handle_request}
use veloce_ce.Tests.Fixtures.{start, worker}

abbrev step_key : StepKey
step_key = (1, 0)

abbrev pair_step : StepInfo
pair_step = record {
  step_id = 0;
  parent_job_id = 1;
  binary = "solve";
  args = [];
  status = running;
  req_nodes = 1;
  req_cores = 2;
  ntasks = 2;
  assigned_workers = "n1" ∷ "n2" ∷ [];
  is_idle = false;
  idle_duration = 0;
  inputs = [];
  env_vars = [];
}

abbrev pmi : Pmi
pmi = record {
  state = record start {
    workers = ("n1", worker) ∷ ("n2", worker) ∷ [];
    steps = (step_key, pair_step) ∷ [];
  };
  pmi_kvs = [];
  pmi_barriers = [];
}

abbrev reachable :
    (id : String) → get id pmi.state.workers ≡ some worker → Reachable pmi.state.workers [] id
reachable id e = record { handle = worker; stored = e; is_open = refl }

abbrev put_of : String → String → Put
put_of key value = record { worker = "n1"; step = step_key; rank = 0; key = key; value = value }

abbrev puts : List Put
puts = put_of "addr" "10.0.0.1" ∷ put_of "port" "7" ∷ put_of "addr" "10.0.0.2" ∷ []

-- A response to an earlier request comes first.
abbrev stale : GetResponse
stale = record { request_id = 4; value = none }

abbrev addr_parts : Map String String
addr_parts = ("key", "addr") ∷ []

abbrev nothing_yet : Inbox
nothing_yet = record { released = false; responses = [] }

get_value-handle_request_example :
    let asked =
      handle_all "n1" (get_value step_key nothing_yet 5 "get" addr_parts).sent (put_all puts pmi) in
    (v : PmiValue) × (asked.state.effects ≡ sent "n1" (step_pmi_get_response v) ∷ [])
    × ((get_value step_key
          (record nothing_yet { responses = stale ∷ received v ∷ [] })
          5
          "get"
          addr_parts).reply
        ≡ some (format ("cmd=kvs-get-response;rc=0;value=" ∷ "10.0.0.2" ∷ ";\n" ∷ [])))
unfolding has_text
get_value-handle_request_example =
    get_value-handle_request step_key 5 "get" "addr" "10.0.0.2" addr_parts puts pmi "n1" nothing_yet
      (stale ∷ []) [] refl refl refl (reachable "n1" refl) (refl, tt)

-- A put of PMI-1 is answered as one of PMI-2.
old_put :
    (process_pmi_request step_key nothing_yet 1 "cmd=put kvsname=veloce_step key=a value=b").reply
    ≡ some "cmd=kvs-put-response;rc=0;\n"
unfolding process_pmi_request split split_once trim has_text
old_put = refl
