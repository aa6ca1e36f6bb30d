-- ===== src/Controller/Reservations.antt =====
-- controller/src/api/reservations.rs: the requests about reservations. A request is answered by its
-- status and text; saving the state and waking the scheduler are left out.
pub mod Apart
pub mod Requests
use veloce_ce.Base.{
  ℕ, String, Bool, true, false, not, ◌&&◌, ◌||◌, List, [], ◌∷◌, Option, none, some, Map, get,
  contains_key, insert, remove, values, contains, ◌==◌, string_eq, if◌then◌else◌, ltb, leb,
  is_empty, Result, ok, err, format,
}
use veloce_ce.Types.Cluster.{Reservation}
use veloce_ce.Controller.Auth.{AuthenticatedPrincipal, is_admin_or_operator, resolve_user_id}
use veloce_ce.Controller.State.{GlobalState}

pub record CreateReservationRequest : Type 0 where
  pub nodes : List String  -- a set
  pub start_time : ℕ
  pub end_time : ℕ
  pub owner : String

pub data Response : Type 0 where
  forbidden bad_request conflict created : String → Response
  listing : List Reservation → Response
  done not_found : Response

-- Is one of the nodes in the other set?
any_in : List String → List String → Bool
any_in [] others = false
any_in (node ∷ nodes) others = contains node others || any_in nodes others

unfoldable pub check_overlap : Map String Reservation → List String → ℕ → ℕ → Option String → Bool
unfolding any_in
check_overlap [] nodes start_time end_time exclude_id = false
check_overlap ((id, res) ∷ reservations) nodes start_time end_time exclude_id =
    let rest = check_overlap reservations nodes start_time end_time exclude_id in
    let excluded : Bool = elim exclude_id [ none ↦ false | some ex_id ↦ id == ex_id ] in
    let overlap = ltb start_time res.end_time && ltb res.start_time end_time in
    if excluded then rest else if overlap && any_in nodes res.nodes then true else rest

-- The first node that is no worker.
missing_node : List String → GlobalState → Option String
missing_node [] s = none
missing_node (node ∷ nodes) s =
    if contains_key node s.workers then missing_node nodes s else some node

-- The state is locked: the nodes and the times are checked, and the reservation is stored.
reserve : String → String → CreateReservationRequest → GlobalState → GlobalState × Response
unfolding missing_node
reserve reservation_id owner payload s = elim (missing_node payload.nodes s) [
  | some node ↦ (s, bad_request (format ("Node " ∷ node ∷ " does not exist" ∷ [])))
  | none ↦
      if check_overlap s.reservations payload.nodes payload.start_time payload.end_time none
      then (s, conflict "Requested nodes are already reserved during this time window")
      else (
        record s {
          reservations =
              insert reservation_id
                (record {
                  id = reservation_id;
                  nodes = payload.nodes;
                  start_time = payload.start_time;
                  end_time = payload.end_time;
                  owner = owner;
                })
                s.reservations;
        },
        created reservation_id,
      )
]

-- The first argument is the fresh id, the second the time.
pub api_create_reservation :
    String
    → ℕ
    → AuthenticatedPrincipal
    → CreateReservationRequest
    → GlobalState
    → GlobalState × Response
unfolding reserve
api_create_reservation reservation_id now principal payload s =
    if not (is_admin_or_operator principal)
    then (s, forbidden "Forbidden: insufficient role")
    else elim (resolve_user_id principal payload.owner) [
      | err e ↦ (s, forbidden e)
      | ok owner ↦
          if leb payload.end_time payload.start_time
          then (s, bad_request "Start time must be before end time")
          else if leb payload.end_time now
          then (s, bad_request "End time must be in the future")
          else if is_empty payload.nodes
          then (s, bad_request "Reservation must include at least one node")
          else reserve reservation_id owner payload s
    ]

pub api_list_reservations : AuthenticatedPrincipal → GlobalState → Response
api_list_reservations principal s =
    if not (is_admin_or_operator principal)
    then forbidden "Forbidden: insufficient role"
    else listing (values s.reservations)

pub api_delete_reservation : AuthenticatedPrincipal → String → GlobalState → GlobalState × Response
api_delete_reservation principal id s =
    if not (is_admin_or_operator principal)
    then (s, forbidden "Forbidden: insufficient role")
    else if contains_key id s.reservations
    then (record s { reservations = remove id s.reservations }, done)
    else (s, not_found)
