-- ===== src/AlarmDefinitions/Resource/Handlers.antt =====
-- The handlers `do_xxx` of monasca/v2/reference/alarm_definitions.py. `tenant_id` is the header's
-- value, which the authentication in front of the server sets, `loads` the JSON parser, and
-- `without_id` what `re.sub` leaves of the request's URI.
use monasca_api.Prelude.{ℕ, Bool, true, false, String, List, [], Option, none, some}
use monasca_api.Errors.{Exec, Result, ok, err, ◌>>=◌, ◌>>◌, python}
use monasca_api.Errors.Steps.{returned, after}
use monasca_api.Database.{Db}
use monasca_api.Expression.{SubExpr}
use monasca_api.SubAlarm.{SubAlarmDefinition}
use monasca_api.Http.{Uri, Request, validate_authorization}
use monasca_api.Http.Query.{
  bad, get_query_param, get_query_name, get_query_dimensions, normalize_offset,
}
use monasca_api.Paging.{Linked, Page, add_links_to_resource}
use monasca_api.Json.{Json, read_json_msg_body}
use monasca_api.AlarmDefinitions.Body.{
  Body, body_of, validate_alarm_definition, get_query_alarm_definition_name,
  get_query_alarm_definition_expression, get_query_alarm_definition_description,
  get_query_alarm_definition_severity, get_query_alarm_definition_match_by,
  get_query_alarm_definition_alarm_actions, get_query_alarm_definition_undetermined_actions,
  get_query_ok_actions, get_query_alarm_definition_actions_enabled,
}
use monasca_api.AlarmDefinitions.Resource.{
  DefinitionResult, CreatedResult, alarm_definition_show, alarm_definition_list,
  alarm_definition_create, alarm_definition_delete,
}
use monasca_api.AlarmDefinitions.Resource.Updating.{alarm_definition_update_or_patch}
use monasca_api.Messages.{Publisher}
use monasca_api.Alarming.Updates.{World}

-- A value that is there, since it was asked for with a default.
abbrev pub or_default : {A : Type 0} → A → Option A → A
or_default default none = default
or_default default (some a) = a

-- After the validation the values are of their types (Body/Typed shows it).
abbrev pub typed_body : Option Body → Result Body
typed_body none = err (python "TypeError")
typed_body (some body) = ok body

-- What `do_post_alarm_definitions` reads of the body.
unfoldable pub read_post : Body → Result Body
unfolding get_query_alarm_definition_name get_query_alarm_definition_expression
    get_query_alarm_definition_description get_query_alarm_definition_severity
    get_query_alarm_definition_match_by get_query_alarm_definition_alarm_actions
    get_query_alarm_definition_undetermined_actions get_query_ok_actions
read_post body = do
  name ← get_query_alarm_definition_name body false
  expression ← get_query_alarm_definition_expression body false
  severity ← get_query_alarm_definition_severity body false
  ok (record {
    name = name;
    expression = expression;
    description = get_query_alarm_definition_description body false;
    severity = severity;
    match_by = get_query_alarm_definition_match_by body false;
    alarm_actions = get_query_alarm_definition_alarm_actions body false;
    ok_actions = get_query_ok_actions body false;
    undetermined_actions = get_query_alarm_definition_undetermined_actions body false;
    actions_enabled = none;
  })

-- The optional arguments of a put or a patch, with the three that were read before.
unfoldable pub read_optional : Body → Option String → Option String → Option Bool → Result Body
unfolding get_query_alarm_definition_description get_query_alarm_definition_severity
    get_query_alarm_definition_match_by get_query_alarm_definition_alarm_actions
    get_query_alarm_definition_undetermined_actions get_query_ok_actions
read_optional body name expression actions_enabled = do
  severity ← get_query_alarm_definition_severity body true
  ok (record {
    name = name;
    expression = expression;
    description = get_query_alarm_definition_description body true;
    severity = severity;
    match_by = get_query_alarm_definition_match_by body true;
    alarm_actions = get_query_alarm_definition_alarm_actions body true;
    ok_actions = get_query_ok_actions body true;
    undetermined_actions = get_query_alarm_definition_undetermined_actions body true;
    actions_enabled = actions_enabled;
  })

-- `if not actions_enabled: raise …`
abbrev pub require_enabled : Option Bool → Result (Unit {0})
require_enabled (some true) = ok tt
require_enabled _ = err (bad "Missing actions_enabled")

unfoldable pub read_put : Body → Result Body
unfolding get_query_alarm_definition_name get_query_alarm_definition_expression
    get_query_alarm_definition_actions_enabled read_optional
read_put body = do
  name ← get_query_alarm_definition_name body false
  expression ← get_query_alarm_definition_expression body false
  actions_enabled ← get_query_alarm_definition_actions_enabled body true false
  require_enabled actions_enabled >> read_optional body name expression actions_enabled

unfoldable pub read_patch : Body → Result Body
unfolding get_query_alarm_definition_name get_query_alarm_definition_expression
    get_query_alarm_definition_actions_enabled read_optional
read_patch body = do
  name ← get_query_alarm_definition_name body true
  expression ← get_query_alarm_definition_expression body true
  actions_enabled ← get_query_alarm_definition_actions_enabled body false true
  read_optional body name expression actions_enabled

module _ (roles : List String) (req : Request) (tenant_id : String) where
  -- the checks of a post and of a put, and the body
  unfoldable pub validated_body_of : (String → Option Json) → String → Result Body
  unfolding validate_authorization read_json_msg_body validate_alarm_definition body_of
  validated_body_of loads stream =
      validate_authorization req roles
      >> (read_json_msg_body loads stream >>= λ msg.
          validate_alarm_definition msg >> typed_body (body_of msg))

  unfoldable pub do_get_alarm_definition :
      (Uri → String → Uri) → String → Exec Db (Linked DefinitionResult)
  unfolding validate_authorization alarm_definition_show add_links_to_resource
  do_get_alarm_definition without_id id db =
      after
        (λ u db.
          after
            (λ result.
              returned
                (ok (add_links_to_resource result result.id (without_id req.uri id) (some "self"))))
            (alarm_definition_show tenant_id id db))
        (validate_authorization req roles, db)

  unfoldable pub do_get_alarm_definitions :
      (String → String → Bool) → Exec Db (Page (List (Linked DefinitionResult)))
  unfolding validate_authorization get_query_param get_query_name get_query_dimensions
      normalize_offset alarm_definition_list
  do_get_alarm_definitions lt db =
      after
        (λ (name, dimensions, offset).
          alarm_definition_list lt tenant_id name dimensions req.uri (normalize_offset offset))
        (
          validate_authorization req roles
              >> (get_query_name req false >>= λ name. get_query_dimensions req >>= λ dimensions.
                  get_query_param req "offset" false none >>= λ offset.
                  ok (name, dimensions, offset)),
          db,
        )

  module _ {Q : Type 0} (parse : String → Result (List SubExpr)) (publisher : Publisher Q)
      (now : ℕ) where
    unfoldable pub do_delete_alarm_definitions :
        (String → String → Bool) → String → Exec (World Q) (Unit {0})
    unfolding validate_authorization alarm_definition_delete
    do_delete_alarm_definitions lt id w =
        after (λ u. alarm_definition_delete parse publisher lt now tenant_id id)
          (validate_authorization req roles, w)

    module _ (fresh : ℕ → String) where
      abbrev pub create_from : Body → Exec (World Q) CreatedResult
      create_from body =
          alarm_definition_create parse publisher now fresh tenant_id (or_default "" body.name)
            (or_default "" body.expression) (or_default "" body.description)
            (or_default "" body.severity) (or_default [] body.match_by) body.alarm_actions
            body.undetermined_actions body.ok_actions

      abbrev pub with_links : CreatedResult → Linked CreatedResult
      with_links result = add_links_to_resource result result.id req.uri (some "self")

      unfoldable pub do_post_alarm_definitions :
          (String → Option Json) → String → Exec (World Q) (Linked CreatedResult)
      unfolding validated_body_of read_post alarm_definition_create add_links_to_resource
      do_post_alarm_definitions loads stream w =
          after (λ body w. after (λ result. returned (ok (with_links result))) (create_from body w))
            (validated_body_of loads stream >>= read_post, w)

      module _ (float_code : String → ℕ) (literal : SubAlarmDefinition → String) (id : String) where
        abbrev pub update_from : Bool → Body → Exec (World Q) (Linked DefinitionResult)
        update_from patch body w =
            after
              (λ result.
                returned (ok (add_links_to_resource result result.id req.uri (some "self"))))
              (alarm_definition_update_or_patch parse publisher now fresh float_code literal
                tenant_id id body patch w)

        unfoldable pub do_put_alarm_definitions :
            (String → Option Json) → String → Exec (World Q) (Linked DefinitionResult)
        unfolding validated_body_of read_put alarm_definition_update_or_patch add_links_to_resource
        do_put_alarm_definitions loads stream w =
            after (update_from false) (validated_body_of loads stream >>= read_put, w)

        -- A patch is not validated. `given` is its body where the values are of the schema's types,
        -- or the 400 of a body that is no JSON; a value of another type is not modelled.
        unfoldable pub do_patch_alarm_definitions :
            Result Body → Exec (World Q) (Linked DefinitionResult)
        unfolding validate_authorization read_patch alarm_definition_update_or_patch
            add_links_to_resource
        do_patch_alarm_definitions given w =
            after (update_from true) (validate_authorization req roles >> (given >>= read_patch), w)
