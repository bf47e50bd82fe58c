-- ===== src/AlarmDefinitions/Resource.antt =====
-- The methods of the class `AlarmDefinitions` of monasca/v2/reference/alarm_definitions.py that the
-- handlers call (Resource/Handlers has these), over the database and the queue of events. `parse` is
-- the expression parser, and `python "ParseException"` what it raises for a text that is no
-- expression.
pub mod Updating
pub mod Handlers
pub mod Refusals
pub mod Deleted
pub mod Created
use monasca_api.Prelude.{
  ◌≡◌, ℕ, ◌==◌, Bool, true, false, String, List, [], ◌∷◌, map, Option, none, some, Dict, seq, split,
  lower, append, if◌then◌else◌,
}
use monasca_api.Errors.{
  Exec, Exn, Result, ok, err, map_err, ◌>>=◌, http, bad_request, not_found, text, no_description,
  python, resource_try_catch_block,
}
use monasca_api.Errors.Steps.{returned, after}
use monasca_api.Database.{Db, SubAlarm, SubAlarmDefinitionRow}
use monasca_api.Expression.{SubExpr}
use monasca_api.SubAlarm.{SubAlarmDefinition}
use monasca_api.Http.{Uri}
use monasca_api.Paging.{Linked, Page, add_links_to_resource, paginate}
use monasca_api.Alarms.{MetricRow}
use monasca_api.Alarms.Listing.{get_definition_alarm_metrics}
use monasca_api.AlarmDefinitions.Queries.{
  DefinitionRow, get_alarm_definition, get_alarm_definitions, get_sub_alarm_definitions,
  get_sub_alarms, delete_alarm_definition,
}
use monasca_api.AlarmDefinitions.Create.{create_alarm_definition}
use monasca_api.AlarmDefinitions.Diff.{Diff}
use monasca_api.AlarmDefinitions.Update.{Changes}
use monasca_api.AlarmDefinitions.Update.Named.{update_named}
use monasca_api.AlarmDefinitions.Body.{Body}
use monasca_api.AlarmDefinitions.Events.{created_message, deleted_message, updated_message}
use monasca_api.Messages.{Publisher, send_built}
use monasca_api.Alarming.{send_alarm_event}
use monasca_api.Alarming.Updates.{World, on_db, on_events}

pub record DefinitionResult : Type 0 where
  pub id : String
  pub name : String
  pub description : String
  pub expression : String
  pub match_by : List String
  pub severity : String
  pub actions_enabled : Bool
  pub alarm_actions : List String
  pub ok_actions : List String
  pub undetermined_actions : List String

-- what a creation answers, where the flag is the text "true"
pub record CreatedResult : Type 0 where
  pub id : String
  pub name : String
  pub description : String
  pub expression : String
  pub match_by : List String
  pub severity : String
  pub actions_enabled : String
  pub alarm_actions : Option (List String)
  pub ok_actions : Option (List String)
  pub undetermined_actions : Option (List String)

-- `NULL` and the empty text are the empty list
unfoldable pub get_comma_separated_str_as_list : Option String → List String
get_comma_separated_str_as_list none = []
get_comma_separated_str_as_list (some s) = if seq s "" then [] else split b',' s

unfoldable pub build_alarm_definition_show_result : DefinitionRow → DefinitionResult
unfolding get_comma_separated_str_as_list
build_alarm_definition_show_result row = record {
  id = row.id;
  name = row.name;
  description = row.description;
  expression = row.expression;
  match_by = get_comma_separated_str_as_list (some row.match_by);
  severity = row.severity;
  actions_enabled = row.actions_enabled == 1;
  alarm_actions = get_comma_separated_str_as_list row.alarm_actions;
  ok_actions = get_comma_separated_str_as_list row.ok_actions;
  undetermined_actions = get_comma_separated_str_as_list row.undetermined_actions;
}

abbrev pub shown : Result DefinitionRow → Result DefinitionResult
shown r = r >>= λ row. ok (build_alarm_definition_show_result row)

unfoldable pub alarm_definition_show : String → String → Exec Db DefinitionResult
unfolding get_alarm_definition build_alarm_definition_show_result resource_try_catch_block
alarm_definition_show tenant_id id =
    resource_try_catch_block
      λ db. let (row, db') = get_alarm_definition tenant_id id db in (shown row, db')

-- A row of the list: the same fields as one definition, with its links.
abbrev pub listed_definition : Uri → DefinitionRow → Linked DefinitionResult
listed_definition uri row =
    add_links_to_resource (build_alarm_definition_show_result row) row.id uri (some "self")

abbrev pub definition_id : Linked DefinitionResult → String
definition_id r = r.resource.id

unfoldable pub alarm_definition_list :
    (String → String → Bool)
    → String
    → String
    → Dict String
    → Uri
    → Option String
    → Exec Db (Page (List (Linked DefinitionResult)))
unfolding get_alarm_definitions build_alarm_definition_show_result add_links_to_resource paginate
    resource_try_catch_block
alarm_definition_list lt tenant_id name dimensions uri offset = resource_try_catch_block λ db.
    let (rows, db') = get_alarm_definitions lt tenant_id name dimensions offset db in
    (rows >>= λ rs. paginate definition_id (map (listed_definition uri) rs) uri offset, db')

-- `except pyparsing.ParseException`; the column is left out of the message.
abbrev pub parse_error : String → Exn → Exn
parse_error expression (python name) =
    if seq name "ParseException"
    then http bad_request "Invalid alarm expression"
        (text (append "parser failed on expression '" (append expression "'")))
    else python name
parse_error expression e = e

module _ {Q : Type 0} (parse : String → Result (List SubExpr)) (publisher : Publisher Q) where
  -- `None.replace` raises
  unfoldable pub parsed : Option String → Result (List SubExpr)
  parsed none = err (python "AttributeError")
  parsed (some expression) = map_err (parse_error expression) (parse expression)

  abbrev pub created_result :
      String
      → String
      → String
      → String
      → String
      → List String
      → Option (List String)
      → Option (List String)
      → Option (List String)
      → CreatedResult
  created_result id name expression description severity match_by alarm_actions undetermined_actions
        ok_actions =
      record {
        id = id;
        name = name;
        description = description;
        expression = expression;
        match_by = match_by;
        severity = lower severity;
        actions_enabled = "true";
        alarm_actions = alarm_actions;
        ok_actions = ok_actions;
        undetermined_actions = undetermined_actions;
      }

  module _ (now : ℕ) (fresh : ℕ → String) (tenant_id name expression description severity : String)
      (match_by : List String)
      (alarm_actions undetermined_actions ok_actions : Option (List String)) where
    -- `_send_alarm_definition_created_event`, with the sub expressions as the creation left them
    abbrev pub send_created : String × List SubExpr → Exec (World Q) CreatedResult
    send_created created w =
        after
          (λ u. returned (
            ok (
              created_result created.0 name expression description severity match_by alarm_actions
                undetermined_actions ok_actions)))
          (on_events
            (send_built publisher
              (created_message tenant_id created.0 name expression created.1 description match_by))
            w)

    abbrev pub create_parsed : List SubExpr → Exec (World Q) CreatedResult
    create_parsed sub_expr_list w = after send_created (
        on_db
          (create_alarm_definition now fresh tenant_id name expression sub_expr_list description
            severity match_by alarm_actions undetermined_actions ok_actions)
          w)

    unfoldable pub alarm_definition_create : Exec (World Q) CreatedResult
    unfolding parsed create_alarm_definition created_message resource_try_catch_block
    alarm_definition_create =
        resource_try_catch_block λ w. after create_parsed (parsed (some expression), w)

  module _ (lt : String → String → Bool) (now : ℕ) (tenant_id id : String) where
    abbrev pub send_deleted :
        List (SubAlarmDefinitionRow × Option String)
        → List MetricRow
        → List SubAlarm
        → Bool
        → Exec (World Q) (Unit {0})
    send_deleted rows metrics sub_alarms false w = (err (http not_found "" no_description), w)
    send_deleted rows metrics sub_alarms true w =
        after
          (λ u.
            on_events (
              send_alarm_event parse publisher "alarm-deleted" tenant_id id metrics sub_alarms
                none))
          (on_events (send_built publisher (deleted_message id rows)) w)

    -- the statements after the reads
    abbrev pub delete_read :
        List (SubAlarmDefinitionRow × Option String)
        → List MetricRow
        → List SubAlarm
        → Exec (World Q) (Unit {0})
    delete_read rows metrics sub_alarms w =
        after (send_deleted rows metrics sub_alarms)
          (on_db (delete_alarm_definition now tenant_id id) w)

    abbrev pub with_metrics :
        List (SubAlarmDefinitionRow × Option String) → List MetricRow → Exec (World Q) (Unit {0})
    with_metrics rows metrics w =
        after (delete_read rows metrics) (on_db (get_sub_alarms tenant_id id) w)

    abbrev pub with_rows : List (SubAlarmDefinitionRow × Option String) → Exec (World Q) (Unit {0})
    with_rows rows w =
        after (with_metrics rows) (on_db (get_definition_alarm_metrics lt tenant_id id) w)

    unfoldable pub alarm_definition_delete : Exec (World Q) (Unit {0})
    unfolding get_sub_alarm_definitions get_definition_alarm_metrics get_sub_alarms
        delete_alarm_definition deleted_message send_alarm_event resource_try_catch_block
    alarm_definition_delete =
        resource_try_catch_block λ w. after with_rows (on_db (get_sub_alarm_definitions id) w)
