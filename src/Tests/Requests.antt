-- ===== src/Tests/Requests.antt =====
-- A request with roles, a tenant and query parameters.
use monasca_api.Prelude.{
  ◌≡◌, ◌≢◌, arith, ap, differ, split, lower, ◌⊎◌, refl, Option, String, [], ◌∷◌, none, some, All,
  get,
}
use monasca_api.Errors.{
  Description, ok, err, http, unauthorized, not_found, internal_server_error, does_not_exist,
  already_exists, resource_error, mysql_error,
}
use monasca_api.Errors.Translation.{HasStatus, repository_status}
use monasca_api.Http.{
  Uri, Request, is_in_role, validate_authorization, get_tenant_id, get_x_tenant_or_tenant_id,
}
use monasca_api.Http.Roles.{Shares, header_roles, validate_authorization_iff, tenant-delegated}
use monasca_api.Http.Query.Laws.{IsClean}

abbrev uri : Uri
uri = record {
  href = "http://host/v2.0/metrics?offset=x";
  scheme = "http";
  netloc = "host";
  path = "/v2.0/metrics";
  query = "offset=x";
}

abbrev request : Request
request = record {
  x_roles = some "User,Delegate";
  x_tenant_id = some "t1";
  content_type = some "application/json";
  params = ("tenant_id", "t2") ∷ ("dimensions", "host:a,zone:b") ∷ ("statistics", "AVG,sum") ∷ [];
  uri = uri;
}

repository_status_example :
    ((already_exists "n" ≡ does_not_exist)
      × HasStatus not_found (resource_error (mysql_error (already_exists "n"))))
    ⊎ ((already_exists "n" ≢ does_not_exist)
        × HasStatus internal_server_error (resource_error (mysql_error (already_exists "n"))))
repository_status_example = repository_status (already_exists "n")

validate_authorization_iff_example :
    ((validate_authorization request ("user" ∷ []) ≡ ok tt)
      × Shares ("user" ∷ []) (header_roles request.x_roles))
    ⊎ ((d : Description) × (validate_authorization request ("user" ∷ [])
          ≡ err (http unauthorized "Forbidden" d))
        × ¬ Shares ("user" ∷ []) (header_roles request.x_roles))
validate_authorization_iff_example = validate_authorization_iff request ("user" ∷ [])

abbrev or_empty : Option String → String
or_empty none = ""
or_empty (some s) = s

different : ◌≢◌ {A = Option String} (some "t2") (some "t1")
different h = differ "t2" "t1" refl (ap (or_empty) h)

for_other : get_x_tenant_or_tenant_id request ("delegate" ∷ []) ≢ get_tenant_id request
unfolding get_x_tenant_or_tenant_id get_tenant_id is_in_role split lower get
for_other h = different h

tenant-delegated_example :
    Shares ("delegate" ∷ []) (header_roles request.x_roles)
    × (get "tenant_id" request.params ≢ none)
    × (get_x_tenant_or_tenant_id request ("delegate" ∷ []) ≡ get "tenant_id" request.params)
tenant-delegated_example = tenant-delegated request ("delegate" ∷ []) for_other

clean : All IsClean (("host", "a") ∷ ("zone", "b") ∷ [])
clean = ground arith
