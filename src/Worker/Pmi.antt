-- ===== src/Worker/Pmi.antt =====
-- `process_pmi_request` of worker/src/pmi.rs: a request of an MPI process, what is sent to the
-- controller for it, and the text of the answer. Where the source waits for the controller, the
-- messages that arrive are an argument, and an answer is missing as long as the one waited for is.
pub mod Exchange
use veloce_ce.Base.{
  ℕ, String, Bool, true, false, Option, none, some, List, [], ◌∷◌, Map, get, get_or, insert,
  string_eq, nat_beq, if◌then◌else◌, ◌==◌, ◌||◌, format, has, has_text, split, split_once, trim,
  parse_u32, ◌≡◌, refl, u64_mod, ◌%◌, ◌+◌,
}
use veloce_ce.Controller.Pmi.{StepKey, PmiRequest, put, ask, barrier_enter}

-- A `StepPMIGetResponse`
pub record GetResponse : Type 0 where
  pub request_id : ℕ
  pub value : Option String

-- What has arrived: whether a release has, and the responses, in order
pub record Inbox : Type 0 where
  pub released : Bool
  pub responses : List GetResponse

pub record Answered : Type 0 where
  pub sent : List PmiRequest
  pub counter : ℕ
  pub reply : Option String

pub read_tokens : List String → Map String String → Map String String
read_tokens [] parts = parts
read_tokens (token ∷ tokens) parts =
    read_tokens tokens
      (elim (split_once b'=' token) [ none ↦ parts | some (k, v) ↦ insert (trim k) (trim v) parts ])

-- PMI-1 puts spaces between the tokens, PMI-2 semicolons.
pub parts_of : String → Map String String
unfolding read_tokens
parts_of req = read_tokens (split (if has b';' req then b';' else b' ') req) []

abbrev number_of : Option String → ℕ
number_of none = 0
number_of (some v) = elim (parse_u32 v) [ none ↦ 0 | some n ↦ n ]

pub rank_of : Map String String → ℕ
rank_of parts = number_of (get "rank" parts)

abbrev or_unknown : Option String → String
or_unknown none = "unknown"
or_unknown (some v) = v

-- The value of the first response to the request
pub wait_for : ℕ → List GetResponse → Option String
wait_for id [] = none
wait_for id (r ∷ responses) =
    let rest = wait_for id responses in
    if nat_beq r.request_id id then some (or_unknown r.value) else rest

abbrev plain : ℕ → String → Answered
plain counter reply = record { sent = []; counter = counter; reply = some reply }

abbrev pub get_text : String → String → String
get_text cmd v =
    if has_text "get" cmd
    then format ("cmd=kvs-get-response;rc=0;value=" ∷ v ∷ ";\n" ∷ [])
    else format ("cmd=get_response rc=0 value=" ∷ v ∷ "\n" ∷ [])

abbrev reply_get : String → Option String → Option String
reply_get cmd none = none
reply_get cmd (some v) = some (get_text cmd v)

module _ (step : StepKey) (inbox : Inbox) (counter : ℕ) where
  pub barrier : String → ℕ → Answered
  barrier cmd rank = record {
    sent = barrier_enter step rank ∷ [];
    counter = counter;
    reply =
        if inbox.released
        then some
            (if has_text "fence" cmd then "cmd=kvs-fence-response;rc=0;\n" else "cmd=barrier_out\n")
        else none;
  }

  pub put_value : String → Map String String → Answered
  put_value cmd parts = record {
    sent = put step (rank_of parts) (get_or "unknown" "key" parts) (get_or "" "value" parts) ∷ [];
    counter = counter;
    reply =
        some (
          if has_text "put" cmd then "cmd=kvs-put-response;rc=0;\n" else "cmd=put_response rc=0\n");
  }

  pub get_value : String → Map String String → Answered
  unfolding wait_for
  get_value cmd parts = record {
    sent = ask step (rank_of parts) (get_or "unknown" "key" parts) counter ∷ [];
    counter = (counter + 1) % u64_mod;
    reply = reply_get cmd (wait_for counter inbox.responses);
  }

  pub obey : String → Map String String → Answered
  unfolding barrier put_value get_value
  obey cmd parts =
      if cmd == "init"
      then plain counter "cmd=response_to_init pmi_version=1 pmi_subversion=1 rc=0\n"
      else if cmd == "init-v1-req"
      then plain counter "cmd=init-v1-req-response;rc=0;pmi_version=2;pmi_subversion=0;\n"
      else if cmd == "get_maxes" || cmd == "get-maxes"
      then plain counter
          "cmd=get_maxes_response kvsname_max=255 keylen_max=255 vallen_max=1024 rc=0\n"
      else if cmd == "get_my_kvsname" || cmd == "kvs-get-my-name"
      then plain counter "cmd=get_my_kvsname_response kvsname=veloce_step rc=0\n"
      else if cmd == "get_appnum" || cmd == "appnum-get"
      then plain counter "cmd=get_appnum_response appnum=0 rc=0\n"
      else if cmd == "get_universe_size" || cmd == "universe-size-get"
      then plain counter "cmd=get_universe_size_response size=1 rc=0\n"
      else if cmd == "commit" || cmd == "kvs-commit"
      then plain counter "cmd=commit_response rc=0\n"
      else if cmd == "barrier_in" || cmd == "kvs-fence"
      then barrier cmd (rank_of parts)
      else if cmd == "put" || cmd == "kvs-put"
      then put_value cmd parts
      else if cmd == "get" || cmd == "kvs-get"
      then get_value cmd parts
      else if cmd == "finalize" || cmd == "job-disconnect"
      then plain counter (
          if has_text "disconnect" cmd
          then "cmd=job-disconnect-response;rc=0;\n"
          else "cmd=finalize_response rc=0\n")
      else if cmd == "info"
      then plain counter "cmd=info-response;rc=0;\n"
      else plain counter "cmd=error rc=1 msg=unknown_cmd\n"

  unfoldable pub process_pmi_request : String → Answered
  unfolding parts_of obey
  process_pmi_request req =
      let parts = parts_of req in
      elim (get "cmd" parts) [
        | none ↦ plain counter "cmd=error rc=1 msg=no_cmd\n"
        | some cmd ↦ obey cmd parts
      ]
