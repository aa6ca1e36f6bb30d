-- ===== src/Controller/Auth.antt =====
-- `AuthenticatedPrincipal` of controller/src/auth.rs.
use veloce_ce.Base.{
  String, Bool, ◌||◌, List, [], ◌∷◌, not, contains, ◌==◌, string_eq, if◌then◌else◌, ◌≡◌, true,
  arith, Result, ok, err, format,
}

pub data AuthMethod : Type 0 where
  jwt api_key ws_ticket : AuthMethod

pub record AuthenticatedPrincipal : Type 0 where
  pub user_id : String
  pub roles : List String
  pub auth_method : AuthMethod

unfoldable pub is_admin_or_operator : AuthenticatedPrincipal → Bool
is_admin_or_operator p = contains "admin" p.roles || contains "operator" p.roles

pub resolve_user_id : AuthenticatedPrincipal → String → Result String String
unfolding is_admin_or_operator
resolve_user_id p payload_user_id =
    if is_admin_or_operator p
    then if payload_user_id == "" then ok p.user_id else ok payload_user_id
    else if payload_user_id == ""
    then ok p.user_id
    else if not (payload_user_id == p.user_id)
    then err (
        format (
          "Forbidden: cannot override user ID '" ∷ p.user_id ∷ "' with '" ∷ payload_user_id ∷ "'"
          ∷ []))
    else ok p.user_id

-- An administrator or operator acts for whom it names.
pub resolve_admin :
    (p : AuthenticatedPrincipal) (owner : String)
    → is_admin_or_operator p ≡ true
    → resolve_user_id p owner ≡ ok (if owner == "" then p.user_id else owner)
unfolding resolve_user_id
resolve_admin p owner h = ground arith
