-- ===== src/Controller/Reservations/Requests.antt =====
-- Sequences of requests about reservations, and the requests that succeed.
use veloce_ce.Base.{
  ℕ, ◌<◌, String, ◌≡◌, refl, ap, arith, true, false, List, [], ◌∷◌, none, Map, get, contains_key,
  insert, contains, Distinct, ◌==◌, string_eq, if◌then◌else◌, leb, is_empty, ok, Option-cases,
  Bool-cases, inl, inr, ◌⊎◌, ◌↔◌, ◌≢◌, beq-cases, subst,
}
use veloce_ce.Types.Cluster.{Reservation}
use veloce_ce.Controller.Auth.{
  AuthenticatedPrincipal, is_admin_or_operator, resolve_user_id, resolve_admin,
}
use veloce_ce.Controller.State.{GlobalState}
use veloce_ce.Controller.Reservations.{
  CreateReservationRequest, created, any_in, check_overlap, missing_node, reserve,
  api_create_reservation, api_delete_reservation,
}
use veloce_ce.Controller.Reservations.Apart.{
  IsValid, StandsApart, check_overlap-StandsApart, create-IsValid, remove-IsValid,
}

pub data Request : Type 0 where
  create : String → ℕ → AuthenticatedPrincipal → CreateReservationRequest → Request
  delete : AuthenticatedPrincipal → String → Request

pub answer_all : List Request → GlobalState → GlobalState
answer_all [] s = s
answer_all (create id now p payload ∷ rs) s =
    answer_all rs (api_create_reservation id now p payload s).0
answer_all (delete p id ∷ rs) s = answer_all rs (api_delete_reservation p id s).0

delete-IsValid :
    (p : AuthenticatedPrincipal) (id : String) (s : GlobalState)
    → IsValid s.reservations
    → IsValid (api_delete_reservation p id s).0.reservations
unfolding api_delete_reservation
delete-IsValid p id s v = ground (arith, remove-IsValid id s.reservations v)

-- If of the stored reservations no two of one node are at the same time, and each starts before
-- it ends, both hold after any sequence of requests to create and to delete.
pub answer_all-IsValid :
    (rs : List Request) (s : GlobalState)
    → IsValid s.reservations
    → IsValid (answer_all rs s).reservations
unfolding answer_all
answer_all-IsValid [] s v = v
answer_all-IsValid (create id now p payload ∷ rs) s v =
    answer_all-IsValid rs (api_create_reservation id now p payload s).0
      (create-IsValid id now p payload s v)
answer_all-IsValid (delete p id ∷ rs) s v =
    answer_all-IsValid rs (api_delete_reservation p id s).0 (delete-IsValid p id s v)

missing_node_iff :
    (nodes : List String) (s : GlobalState)
    → (missing_node nodes s ≡ none)
      ↔ ((node : String) → contains node nodes ≡ true → contains_key node s.workers ≡ true)
unfolding missing_node
missing_node_iff [] s = (λ h node there. absurd (ground arith), λ all. refl)
missing_node_iff (n ∷ nodes) s = (
  λ h node there. elim (beq-cases n node) [
    | inl e ↦ subst (λ i. contains_key i s.workers ≡ true) e (ground arith)
    | inr ne ↦ (missing_node_iff nodes s).0 (ground arith) node (ground arith)
  ],
  λ all.
      let rest : missing_node nodes s ≡ none =
        (missing_node_iff nodes s).1 (λ node there. all node (ground arith)) in
      ground (arith, all n, string_eq.beq_correct n n),
)

any_in_shared :
    (xs ys : List String)
    → any_in xs ys ≡ true
    → (node : String) × (contains node xs ≡ true) × (contains node ys ≡ true)
unfolding any_in
any_in_shared [] ys h = absurd (ground arith)
any_in_shared (x ∷ xs) ys h = elim (Bool-cases (contains x ys)) [
  | inl there ↦ (x, ground (arith, string_eq.beq_correct x x), there)
  | inr away ↦ let (node, p, q) = any_in_shared xs ys (ground arith) in (node, ground arith, q)
]

-- A search without a hit, from what is stored.
check_overlap-none :
    (m : Map String Reservation) (r : Reservation)
    → Distinct m
    → StandsApart r m
    → check_overlap m r.nodes r.start_time r.end_time none ≡ false
unfolding check_overlap
check_overlap-none [] r d away = refl
check_overlap-none ((k, b) ∷ m) r d away =
    let rest : check_overlap m r.nodes r.start_time r.end_time none ≡ false =
      check_overlap-none m r d.1 (λ j c node there p q.
        away j c node
          (elim (beq-cases k j) [
            | inl e ↦ absurd (ground (arith, ap (λ i. get i m) e))
            | inr ne ↦ ground arith
          ])
          p q) in
    elim (Bool-cases (any_in r.nodes b.nodes)) [
      | inr apart ↦ ground arith
      | inl shared ↦
          let (node, p, q) = any_in_shared r.nodes b.nodes shared in
          ground (arith, away k b node (ground (arith, string_eq.beq_correct k k)) p q)
    ]

-- What a request to create needs: the role, a window that starts before it ends and ends later
-- than now, some node, only nodes that are workers, and no stored reservation in the way.
pub record Acceptable (now : ℕ) (p : AuthenticatedPrincipal) (payload : CreateReservationRequest)
    (s : GlobalState) (r : Reservation) : Type 0 where
  pub role : is_admin_or_operator p ≡ true
  pub ordered : payload.start_time < payload.end_time
  pub later : now < payload.end_time
  pub some_node : is_empty payload.nodes ≡ false
  pub known :
      (node : String) → contains node payload.nodes ≡ true → contains_key node s.workers ≡ true
  pub free : StandsApart r s.reservations

-- The owner that is stored: the caller, if the request names none.
abbrev pub wanted : String → AuthenticatedPrincipal → CreateReservationRequest → Reservation
wanted id p payload = record {
  id = id;
  nodes = payload.nodes;
  start_time = payload.start_time;
  end_time = payload.end_time;
  owner = (if payload.owner == "" then p.user_id else payload.owner);
}

-- If each reservation is stored once and the request is acceptable, it is answered as created and
-- the reservation is stored, with the caller as its owner if the request names none.
pub api_create_reservation_accepts :
    (id : String) (now : ℕ) (p : AuthenticatedPrincipal) (payload : CreateReservationRequest)
    (s : GlobalState)
    → Distinct s.reservations
    → Acceptable now p payload s (wanted id p payload)
    → api_create_reservation id now p payload s
      ≡ (record s { reservations = insert id (wanted id p payload) s.reservations }, created id)
unfolding api_create_reservation reserve
api_create_reservation_accepts id now p payload s d a = ground (
  arith,
  resolve_admin p payload.owner a.role,
  (missing_node_iff payload.nodes s).1 a.known,
  check_overlap-none s.reservations (wanted id p payload) d a.free,
)

-- Created and stored, or nothing changed.
abbrev pub Answered :
    String → ℕ → AuthenticatedPrincipal → CreateReservationRequest → GlobalState → Type 0
Answered id now p payload s =
    (Acceptable now p payload s (wanted id p payload)
      × (api_create_reservation id now p payload s ≡ (
        record s { reservations = insert id (wanted id p payload) s.reservations },
        created id,
      )))
    ⊎ (((api_create_reservation id now p payload s).0 ≡ s)
        × ((api_create_reservation id now p payload s).1 ≢ created id))

-- A request to create is acceptable and is answered as created, the reservation stored; or it
-- is answered otherwise and changes nothing.
pub api_create_reservation-cases :
    (id : String) (now : ℕ) (p : AuthenticatedPrincipal) (payload : CreateReservationRequest)
    (s : GlobalState)
    → Answered id now p payload s
unfolding api_create_reservation reserve
api_create_reservation-cases id now p payload s = elim (Bool-cases (is_admin_or_operator p)) [
  | inr outsider ↦ inr (ground arith, ground arith)
  | inl insider ↦
      let owner : resolve_user_id p payload.owner
          ≡ ok (if payload.owner == "" then p.user_id else payload.owner) =
        resolve_admin p payload.owner insider in
      elim (Bool-cases (leb payload.end_time payload.start_time)) [
        | inl turned ↦ inr (ground arith, ground arith)
        | inr ordered ↦ elim (Bool-cases (leb payload.end_time now)) [
          | inl past ↦ inr (ground arith, ground arith)
          | inr later ↦ elim (Bool-cases (is_empty payload.nodes)) [
            | inl without ↦ inr (ground arith, ground arith)
            | inr some_node ↦ elim (Option-cases (missing_node payload.nodes s)) [
              | inr (node, missing) ↦ inr (ground arith, ground arith)
              | inl known ↦
                  elim (Bool-cases (
                    check_overlap s.reservations payload.nodes payload.start_time payload.end_time
                      none)) [
                        | inl taken ↦ inr (ground arith, ground arith)
                        | inr free ↦ inl (
                          record {
                            role = insider;
                            ordered = ground arith;
                            later = ground arith;
                            some_node = some_node;
                            known = (missing_node_iff payload.nodes s).0 known;
                            free =
                                check_overlap-StandsApart s.reservations (wanted id p payload) free;
                          },
                          ground arith,
                        )
                      ]
            ]
          ]
        ]
      ]
]
