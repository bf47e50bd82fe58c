-- ===== src/Http/Roles.antt =====
-- Who is let in, and on behalf of which tenant.
use monasca_api.Prelude.{
  ◌≡◌, ◌≢◌, ◌↔◌, ◌⊎◌, inl, inr, refl, true, String, List, [], ◌∷◌, Option, none, some, arith, get,
  Option-cases, Bool-cases, listed_iff, Member,
}
use monasca_api.Errors.{ok, err, http, unauthorized, Description}
use monasca_api.Http.{
  Request, any_listed, roles_of, is_in_role, validate_authorization, get_tenant_id,
  get_x_tenant_or_tenant_id,
}

-- a role that both lists name
abbrev pub Shares : List String → List String → Type 0
Shares authorized [] = ⊥
Shares authorized (r ∷ roles) = Member r authorized ⊎ Shares authorized roles

any_listed_iff :
    (authorized roles : List String)
    → (any_listed authorized roles ≡ true) ↔ Shares authorized roles
any_listed_iff authorized [] = ground arith
any_listed_iff authorized (r ∷ roles) =
    ground (arith, listed_iff authorized r, any_listed_iff authorized roles)

-- The roles that the request brings: those of its header in lower case, none without the header.
abbrev pub header_roles : Option String → List String
header_roles none = []
header_roles (some s) = roles_of s

-- A request passes exactly when a role of its X-ROLES header, in lower case, is an authorized one;
-- every other request, one without the header included, gets a 401, whatever its tenant.
pub validate_authorization_iff :
    (req : Request) (authorized : List String)
    → ((validate_authorization req authorized ≡ ok tt)
        × Shares authorized (header_roles req.x_roles))
      ⊎ ((d : Description) × (validate_authorization req authorized
            ≡ err (http unauthorized "Forbidden" d))
          × ¬ Shares authorized (header_roles req.x_roles))
unfolding validate_authorization
validate_authorization_iff req authorized = elim (Option-cases req.x_roles) [
  | inl absent ↦ rw absent (inr (_, refl, λ s. s))
  | inr (s, present) ↦ elim (Bool-cases (any_listed authorized (roles_of s))) [
    | inl shared ↦ rw (present, shared) (inl (refl, (any_listed_iff _ _).0 shared))
    | inr apart ↦
        rw (present, apart)
          (inr (_, refl, λ h. cc (apart, (any_listed_iff authorized (roles_of s)).1 h)))
  ]
]

-- `is_in_role` is true exactly where `validate_authorization` lets the request pass.
pub is_in_role-validate_authorization :
    (req : Request) (roles : List String)
    → (is_in_role req roles ≡ true) ↔ (validate_authorization req roles ≡ ok tt)
unfolding is_in_role validate_authorization
is_in_role-validate_authorization req roles = ground arith

-- A request acts for another tenant than that of its header only with a delegate role and the query
-- parameter `tenant_id`, and then for the tenant which that parameter names.
pub tenant-delegated :
    (req : Request) (delegates : List String)
    → get_x_tenant_or_tenant_id req delegates ≢ get_tenant_id req
    → Shares delegates (header_roles req.x_roles)
      × (get "tenant_id" req.params ≢ none)
      × (get_x_tenant_or_tenant_id req delegates ≡ get "tenant_id" req.params)
unfolding get_x_tenant_or_tenant_id
tenant-delegated req delegates h = elim (Option-cases req.x_roles) [
  | inl absent ↦ absurd (h (rw absent))
  | inr (s, present) ↦
      rw present
        ((any_listed_iff delegates (roles_of s)).0 (ground arith), ground arith, ground arith)
]
