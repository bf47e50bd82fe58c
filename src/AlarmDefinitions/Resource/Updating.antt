-- ===== src/AlarmDefinitions/Resource/Updating.antt =====
-- `_alarm_definition_update_or_patch` of monasca/v2/reference/alarm_definitions.py. The arguments that
-- may be `None` are the fields of a `Body`.
use monasca_api.Prelude.{ℕ, Bool, false, String, List, Option, none, some}
use monasca_api.Errors.{Exec, Result, ok, resource_try_catch_block}
use monasca_api.Errors.Steps.{returned, after}
use monasca_api.Expression.{SubExpr}
use monasca_api.SubAlarm.{SubAlarmDefinition}
use monasca_api.AlarmDefinitions.Queries.{DefinitionRow}
use monasca_api.AlarmDefinitions.Diff.{Diff}
use monasca_api.AlarmDefinitions.Update.{Changes, text_or_null}
use monasca_api.AlarmDefinitions.Update.Named.{update_named}
use monasca_api.AlarmDefinitions.Body.{Body}
use monasca_api.AlarmDefinitions.Events.{updated_message}
use monasca_api.AlarmDefinitions.Resource.{
  DefinitionResult, build_alarm_definition_show_result, parsed,
}
use monasca_api.Messages.{Publisher, send_built}
use monasca_api.Alarming.Updates.{World, on_db, on_events}

-- `1 if actions_enabled else 0`: a missing flag is false
abbrev pub is_enabled : Option Bool → Bool
is_enabled none = false
is_enabled (some b) = b

abbrev pub changes_of : Body → List SubExpr → String → Changes
changes_of body sub_expr_list name = record {
  name = name;
  expression = text_or_null body.expression;
  sub_expr_list = sub_expr_list;
  actions_enabled = is_enabled body.actions_enabled;
  description = body.description;
  alarm_actions = body.alarm_actions;
  ok_actions = body.ok_actions;
  undetermined_actions = body.undetermined_actions;
  match_by = body.match_by;
  severity = body.severity;
}

module _ {Q : Type 0} (parse : String → Result (List SubExpr)) (publisher : Publisher Q) (now : ℕ)
    (fresh : ℕ → String) (float_code : String → ℕ) (literal : SubAlarmDefinition → String)
    (tenant_id id : String) (body : Body) (patch : Bool) where
  abbrev pub send_updated :
      DefinitionRow × Diff SubAlarmDefinition → Exec (World Q) DefinitionResult
  send_updated updated w =
      after (λ u. returned (ok (build_alarm_definition_show_result updated.0)))
        (on_events
          (send_built publisher
            (updated_message tenant_id id body (text_or_null body.expression) updated.1))
          w)

  abbrev pub update_parsed : List SubExpr → Exec (World Q) DefinitionResult
  update_parsed sub_expr_list w = after send_updated (
      on_db
        (update_named now fresh float_code literal tenant_id id body.name sub_expr_list
          (changes_of body sub_expr_list) patch)
        w)

  abbrev pub update_uncaught : Exec (World Q) DefinitionResult
  update_uncaught w = after update_parsed (parsed parse publisher body.expression, w)

  unfoldable pub alarm_definition_update_or_patch : Exec (World Q) DefinitionResult
  unfolding parsed update_named updated_message build_alarm_definition_show_result
      resource_try_catch_block
  alarm_definition_update_or_patch = resource_try_catch_block update_uncaught
