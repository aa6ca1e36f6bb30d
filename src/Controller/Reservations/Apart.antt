-- ===== src/Controller/Reservations/Apart.antt =====
-- The stored reservations under requests to create and to delete.
use veloce_ce.Base.{
  ℕ, ◌<◌, String, ◌≡◌, sym, ap, arith, true, false, ◌&&◌, List, [], ◌∷◌, none, some, Map, get,
  insert, beq-cases, subst, ◌⊎◌, remove, get-insert, get-remove-some, contains, ◌==◌, string_eq,
  ltb, leb, Option-cases, Result-cases, Bool-cases, inl, inr,
}
use veloce_ce.Types.Cluster.{Reservation}
use veloce_ce.Controller.Auth.{AuthenticatedPrincipal, is_admin_or_operator, resolve_user_id}
use veloce_ce.Controller.State.{GlobalState}
use veloce_ce.Controller.Reservations.{
  CreateReservationRequest, any_in, check_overlap, missing_node, reserve, api_create_reservation,
}

-- The two share no moment: one ends before the other starts.
abbrev pub IsDisjoint : Reservation → Reservation → Type 0
IsDisjoint a b = (ltb a.start_time b.end_time && ltb b.start_time a.end_time) ≡ false

-- Two reservations of one node are never at the same time, and each starts before it ends.
pub record IsValid (m : Map String Reservation) : Type 0 where
  pub apart :
      (i j : String) (a b : Reservation) (node : String)
      → get i m ≡ some a
      → get j m ≡ some b
      → (i == j) ≡ false
      → contains node a.nodes ≡ true
      → contains node b.nodes ≡ true
      → IsDisjoint a b
  pub proper : (i : String) (a : Reservation) → get i m ≡ some a → a.start_time < a.end_time

any_in-contains :
    (node : String) (xs ys : List String)
    → contains node xs ≡ true
    → contains node ys ≡ true
    → any_in xs ys ≡ true
unfolding any_in
any_in-contains node [] ys h k = absurd (ground arith)
any_in-contains node (x ∷ xs) ys h k = ground (
  arith,
  string_eq.beq_correct x node,
  λ (e : x ≡ node). ap (λ i. contains i ys) e,
  any_in-contains node xs ys,
)

-- What a search without a hit says of each reservation.
check_overlap-false :
    (m : Map String Reservation) (nodes : List String) (start end : ℕ)
    → check_overlap m nodes start end none ≡ false
    → (i : String) (a : Reservation) → get i m ≡ some a
    → ((ltb start a.end_time && ltb a.start_time end) && any_in nodes a.nodes) ≡ false
unfolding check_overlap
check_overlap-false [] nodes start end h i a there = absurd (ground arith)
check_overlap-false ((k, b) ∷ m) nodes start end h i a there = elim (Bool-cases (k == i)) [
  | inl same ↦ let e : b ≡ a = ground arith in rw (sym e) (ground arith)
  | inr other ↦ check_overlap-false m nodes start end (ground arith) i a (ground arith)
]

-- The new reservation stands apart from each stored one.
abbrev pub StandsApart : Reservation → Map String Reservation → Type 0
StandsApart r m =
    (j : String) (b : Reservation) (node : String)
    → get j m ≡ some b
    → contains node r.nodes ≡ true
    → contains node b.nodes ≡ true
    → IsDisjoint r b

pub check_overlap-StandsApart :
    (m : Map String Reservation) (r : Reservation)
    → check_overlap m r.nodes r.start_time r.end_time none ≡ false
    → StandsApart r m
check_overlap-StandsApart m r h j b node there p q = ground (
  arith,
  check_overlap-false m r.nodes r.start_time r.end_time h j b there,
  any_in-contains node r.nodes b.nodes p q,
)

stored_after :
    (k i : String) (r a : Reservation) (m : Map String Reservation)
    → get i (insert k r m) ≡ some a
    → ((k ≡ i) × (a ≡ r)) ⊎ (((k == i) ≡ false) × (get i m ≡ some a))
stored_after k i r a m h = elim (beq-cases k i) [
  | inl e ↦ inl (e, ground (arith, get-insert k i r m, string_eq.beq_correct k i))
  | inr ne ↦ inr (ne, ground (arith, get-insert k i r m))
]

insert-IsValid :
    (k : String) (r : Reservation) (m : Map String Reservation)
    → IsValid m
    → r.start_time < r.end_time
    → StandsApart r m
    → IsValid (insert k r m)
insert-IsValid k r m v ordered away = record {
  apart = λ i j a b node p q ne x y. elim (stored_after k i r a m p) [
    | inl (ki, ar) ↦ elim (stored_after k j r b m q) [
      | inl (kj, br) ↦ absurd (ground (arith, string_eq.beq_correct i j))
      | inr (kj, there) ↦
          subst (λ c. IsDisjoint c b) (sym ar)
            (away j b node there (subst (λ c. contains node c.nodes ≡ true) ar x) y)
    ]
    | inr (ki, here) ↦ elim (stored_after k j r b m q) [
      | inl (kj, br) ↦
          subst (λ c. IsDisjoint a c) (sym br)
            (flip r a (away i a node here (subst (λ c. contains node c.nodes ≡ true) br y) x))
      | inr (kj, there) ↦ v.apart i j a b node here there ne x y
    ]
  ];
  proper = λ i a p. elim (stored_after k i r a m p) [
    | inl (ki, ar) ↦ subst (λ c. c.start_time < c.end_time) (sym ar) ordered
    | inr (ki, here) ↦ v.proper i a here
  ];
}
  where
    flip : (c d : Reservation) → IsDisjoint c d → IsDisjoint d c
    flip c d h = ground arith

pub remove-IsValid : (k : String) (m : Map String Reservation) → IsValid m → IsValid (remove k m)
remove-IsValid k m v = record {
  apart = λ i j a b node p q ne x y.
      v.apart i j a b node (get-remove-some k i m p).1 (get-remove-some k j m q).1 ne x y;
  proper = λ i a p. v.proper i a (get-remove-some k i m p).1;
}

reserve-IsValid :
    (id owner : String) (payload : CreateReservationRequest) (s : GlobalState)
    → IsValid s.reservations
    → payload.start_time < payload.end_time
    → IsValid (reserve id owner payload s).0.reservations
unfolding reserve
reserve-IsValid id owner payload s v ordered = elim (Option-cases (missing_node payload.nodes s)) [
  | inr (node, missing) ↦ ground arith
  | inl known ↦
      elim (Bool-cases
        (check_overlap s.reservations payload.nodes payload.start_time payload.end_time none)) [
          | inl taken ↦ ground arith
          | inr free ↦
              let r : Reservation = record {
                id = id;
                nodes = payload.nodes;
                start_time = payload.start_time;
                end_time = payload.end_time;
                owner = owner;
              } in
              ground (
                arith,
                insert-IsValid id r s.reservations v ordered
                    (check_overlap-StandsApart s.reservations r free),
              )
        ]
]

-- A request that is answered by an error leaves the reservations as they are; any other stores one.
pub create-IsValid :
    (id : String) (now : ℕ) (p : AuthenticatedPrincipal) (payload : CreateReservationRequest)
    (s : GlobalState)
    → IsValid s.reservations
    → IsValid (api_create_reservation id now p payload s).0.reservations
unfolding api_create_reservation
create-IsValid id now p payload s v = elim (Bool-cases (is_admin_or_operator p)) [
  | inr outsider ↦ ground arith
  | inl insider ↦ elim (Result-cases (resolve_user_id p payload.owner)) [
    | inr (e, refused) ↦ ground arith
    | inl (owner, resolved) ↦ elim (Bool-cases (leb payload.end_time payload.start_time)) [
      | inl turned ↦ ground arith
      | inr ordered ↦ ground (arith, reserve-IsValid id owner payload s v (ground arith))
    ]
  ]
]
