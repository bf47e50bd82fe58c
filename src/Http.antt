-- ===== src/Http.antt =====
-- A request as the handlers read it, and the checks of monasca/v2/reference/helpers.py that each
-- handler begins with: roles, tenant and content type.
pub mod Roles
pub mod Query
use monasca_api.Prelude.{
  ◌≡◌, ℕ, Bool, true, false, ◌||◌, String, List, [], ◌∷◌, ◌++◌, Option, none, some, Dict, get, seq,
  any, listed, split, lower, if◌then◌else◌,
}
use monasca_api.Errors.{
  Result, ok, err, ◌>>=◌, ◌>>◌, Exn, http, Status, bad_request, unauthorized, text, python,
}

-- `req.uri` with what `urlparse.urlparse` reads off it
pub record Uri : Type 0 where
  pub href : String
  pub scheme : String
  pub netloc : String
  pub path : String
  pub query : String

-- The headers that are read, and the parameters that `falcon.uri.parse_query_string` finds in the
-- query string.
pub record Request : Type 0 where
  pub x_roles : Option String
  pub x_tenant_id : Option String
  pub content_type : Option String
  pub params : Dict String
  pub uri : Uri

-- the loop over the roles of the header
abbrev pub any_listed : List String → List String → Bool
any_listed authorized_roles roles = any (listed authorized_roles) roles

abbrev pub roles_of : String → List String
roles_of str_roles = split b',' (lower str_roles)

unfoldable pub is_in_role : Request → List String → Bool
is_in_role req authorized_roles = elim req.x_roles [
  | none ↦ false
  | some str_roles ↦ any_listed authorized_roles (roles_of str_roles)
]

unfoldable pub validate_authorization : Request → List String → Result (Unit {0})
validate_authorization req authorized_roles = elim req.x_roles [
  | none ↦ err (http unauthorized "Forbidden" (text "Tenant does not have any roles"))
  | some str_roles ↦
      if any_listed authorized_roles (roles_of str_roles)
      then ok tt
      else err (
          http unauthorized "Forbidden"
            (text "Tenant ID is missing a required role to access this service"))
]

unfoldable pub validate_json_content_type : Request → Result (Unit {0})
validate_json_content_type req = elim req.content_type [
  | none ↦ err (http bad_request "Bad request" (text "Bad content type. Must be application/json"))
  | some t ↦
      if seq t "application/json"
      then ok tt
      else err (http bad_request "Bad request" (text "Bad content type. Must be application/json"))
]

unfoldable pub get_tenant_id : Request → Option String
get_tenant_id req = req.x_tenant_id

unfoldable pub get_x_tenant_or_tenant_id : Request → List String → Option String
unfolding is_in_role get_tenant_id
get_x_tenant_or_tenant_id req delegate_authorized_roles =
    if is_in_role req delegate_authorized_roles
    then elim (get "tenant_id" req.params) [
      | some tenant_id ↦ some tenant_id
      | none ↦ get_tenant_id req
    ]
    else get_tenant_id req
