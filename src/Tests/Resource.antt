-- ===== src/Tests/Resource.antt =====
-- Requests about alarm definitions.
use monasca_api.Prelude.{
  ◌≡◌, ◌≢◌, refl, inl, ℕ, zero, suc, true, false, String, [], ◌∷◌, none, some, split, lower,
}
use monasca_api.Errors.{ok, err}
use monasca_api.Errors.Refusals.{Refused}
use monasca_api.Http.{Request, Uri, validate_authorization}
use monasca_api.Http.Query.{bad}
use monasca_api.Json.{Json, bool, str, arr, obj, nil, cons, end, field}
use monasca_api.AlarmDefinitions.Body.{Body, body_of, validate_alarm_definition}
use monasca_api.AlarmDefinitions.Resource.Handlers.{
  do_put_alarm_definitions, do_patch_alarm_definitions,
}
use monasca_api.AlarmDefinitions.Resource.Refusals.{patch_incomplete, put_disabled}
use monasca_api.Tests.Data.{float_code}
use monasca_api.Tests.Events.{parse, log, world}

-- a post with all that matters, and a put that turns the actions off
abbrev post_json : Json
post_json = obj (
    field "name" (str "hot") (
      field "expression" (str "max(cpu{host=a}) > 90")
        (field "severity" (str "HIGH") (field "alarm_actions" (arr (cons (str "n") nil)) end))))

abbrev uri : Uri
uri = record { href = "http://h/x"; scheme = "http"; netloc = "h"; path = "/x"; query = "" }

abbrev request : Request
request = record {
  x_roles = some "user";
  x_tenant_id = some "t";
  content_type = some "application/json";
  params = [];
  uri = uri;
}

abbrev pub fresh : ℕ → String
fresh zero = "x"
fresh (suc n) = "y"

-- only the severity is to change
abbrev pub severity_alone : Body
severity_alone = record {
  name = none;
  expression = none;
  description = none;
  severity = some "low";
  match_by = none;
  alarm_actions = none;
  ok_actions = none;
  undetermined_actions = none;
  actions_enabled = none;
}

patch_incomplete_example : Refused world (
    do_patch_alarm_definitions
      ("user" ∷ [])
      request
      "t"
      parse
      log
      4
      fresh
      float_code
      (λ sad. "object")
      "d"
      (ok severity_alone)
      world)
patch_incomplete_example =
    patch_incomplete 4 fresh float_code (λ sad. "object") "t" "d" parse log world ("user" ∷ [])
      request severity_alone (inl refl)

abbrev off_json : Json
off_json = obj (
    field "name" (str "hot")
      (field "expression" (str "max(cpu{host=a}) > 90") (field "actions_enabled" (bool false) end)))

abbrev off : Body
off = record {
  name = some "hot";
  expression = some "max(cpu{host=a}) > 90";
  description = none;
  severity = none;
  match_by = none;
  alarm_actions = none;
  ok_actions = none;
  undetermined_actions = none;
  actions_enabled = some false;
}

is_off : off.actions_enabled ≢ some true
is_off h = cc

put_disabled_example :
    (m : String) × (do_put_alarm_definitions
        ("user" ∷ [])
        request
        "t"
        parse
        log
        4
        fresh
        float_code
        (λ sad. "object")
        "d"
        (λ s. some off_json)
        "{…}"
        world
      ≡ (err (bad m), world))
unfolding validate_alarm_definition body_of validate_authorization split lower
put_disabled_example =
    put_disabled 4 fresh float_code (λ sad. "object") "t" "d" parse log world ("user" ∷ []) request
      (λ s. some off_json) "{…}" off_json off refl refl refl refl is_off
