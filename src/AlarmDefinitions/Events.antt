-- ===== src/AlarmDefinitions/Events.antt =====
-- The events about alarm definitions, of monasca/v2/reference/alarm_definitions.py.
pub mod Bounds
pub mod Created
use monasca_api.Prelude.{
  ◌≡◌, Bool, true, false, String, List, [], ◌∷◌, Option, none, some, Dict, put, split,
}
use monasca_api.Errors.{Result, ok, err, ◌>>=◌}
use monasca_api.Database.{SubAlarmDefinitionRow}
use monasca_api.Expression.{
  SubExpr, normalized_func, normalized_metric_name, normalized_operator, period, periods,
  fmtd_sub_expr_str, dimensions_as_list,
}
use monasca_api.SubAlarm.{SubAlarmDefinition, expression}
use monasca_api.Alarms.Views.{Metric, put_dimensions, dimensions_of_text}
use monasca_api.AlarmDefinitions.Diff.{Diff}
use monasca_api.AlarmDefinitions.Body.{Body}
use monasca_api.AlarmDefinitions.Update.{text_or_null}
use monasca_api.Messages.{
  SubAlarmMessage, DefinitionCreated, DefinitionUpdated, DefinitionDeleted, Message,
  alarm_definition_created, alarm_definition_updated, alarm_definition_deleted,
}

-- what the event of a creation says of a sub expression
unfoldable pub created_sub_message : SubExpr → Result SubAlarmMessage
unfolding put_dimensions normalized_func normalized_metric_name normalized_operator period periods
    fmtd_sub_expr_str dimensions_as_list
created_sub_message e = do
  dimensions ← put_dimensions [] (dimensions_as_list e)
  ok (record {
    function = normalized_func e;
    metric_definition = record { name = normalized_metric_name e; dimensions = dimensions };
    operator = normalized_operator e;
    threshold = e.threshold;
    period = period e;
    periods = periods e;
    expression = fmtd_sub_expr_str e;
  })

-- The loop over the sub expressions, which have got their ids.
unfoldable pub created_sub_messages :
    Dict SubAlarmMessage → List SubExpr → Result (Dict SubAlarmMessage)
unfolding created_sub_message put
created_sub_messages msg [] = ok msg
created_sub_messages msg (e ∷ es) = do
  m ← created_sub_message e
  created_sub_messages (put (text_or_null e.id) m msg) es

unfoldable pub created_message :
    String → String → String → String → List SubExpr → String → List String → Result Message
unfolding created_sub_messages
created_message tenant_id alarm_definition_id name expression sub_expr_list description match_by =
    do
      messages ← created_sub_messages [] sub_expr_list
      ok (
          alarm_definition_created (record {
            tenant_id = tenant_id;
            alarm_definition_id = alarm_definition_id;
            alarm_name = name;
            alarm_description = description;
            alarm_expression = expression;
            match_by = match_by;
            alarm_sub_expressions = messages;
          }))

-- the loop over the rows of the sub alarm definitions that go
unfoldable pub deleted_metrics :
    Dict Metric → List (SubAlarmDefinitionRow × Option String) → Result (Dict Metric)
unfolding dimensions_of_text put
deleted_metrics msg [] = ok msg
deleted_metrics msg ((row, dimensions) ∷ rows) = do
  d ← dimensions_of_text dimensions
  deleted_metrics (put row.id (record { name = row.metric_name; dimensions = d }) msg) rows

unfoldable pub deleted_message :
    String → List (SubAlarmDefinitionRow × Option String) → Result Message
unfolding deleted_metrics
deleted_message alarm_definition_id rows = do
  metrics ← deleted_metrics [] rows
  ok (
      alarm_definition_deleted (record {
        alarm_definition_id = alarm_definition_id;
        sub_alarm_metric_definitions = metrics;
      }))

-- The loop over the dimensions: each value is stored under the key `uname`, the text, and not under
-- the name.
unfoldable pub uname_dimensions : Dict String → Dict String → Dict String
unfolding put
uname_dimensions dimensions [] = dimensions
uname_dimensions dimensions ((name, value) ∷ ds) =
    uname_dimensions (put "uname" value dimensions) ds

unfoldable pub updated_sub_message : SubAlarmDefinition → Result SubAlarmMessage
unfolding uname_dimensions expression
updated_sub_message sad = do
  formatted ← expression sad
  ok (record {
    function = sad.function;
    metric_definition = record {
      name = sad.metric_name;
      dimensions = uname_dimensions [] sad.dimensions;
    };
    operator = sad.operator;
    threshold = sad.threshold;
    period = sad.period;
    periods = sad.periods;
    expression = formatted;
  })

-- The loop over the dict, whose keys it does not use: the id of the definition itself is the key.
unfoldable pub add_sub_messages :
    Dict SubAlarmMessage → Dict SubAlarmDefinition → Result (Dict SubAlarmMessage)
unfolding updated_sub_message put
add_sub_messages messages [] = ok messages
add_sub_messages messages ((id, sad) ∷ sads) = do
  m ← updated_sub_message sad
  add_sub_messages (put sad.id m messages) sads

unfoldable pub build_sub_alarm_def_update_dict :
    Dict SubAlarmDefinition → Result (Dict SubAlarmMessage)
unfolding add_sub_messages
build_sub_alarm_def_update_dict sads = add_sub_messages [] sads

-- The request's own values go into the event, not what is stored.
unfoldable pub updated_message :
    String → String → Body → String → Diff SubAlarmDefinition → Result Message
unfolding build_sub_alarm_def_update_dict
updated_message tenant_id id body expression d = do
  old ← build_sub_alarm_def_update_dict d.old
  new ← build_sub_alarm_def_update_dict d.new
  changed ← build_sub_alarm_def_update_dict d.changed
  unchanged ← build_sub_alarm_def_update_dict d.unchanged
  ok (
      alarm_definition_updated (record {
        tenant_id = tenant_id;
        alarm_definition_id = id;
        alarm_name = body.name;
        alarm_description = body.description;
        alarm_expression = expression;
        severity = body.severity;
        match_by = body.match_by;
        alarm_actions_enabled = body.actions_enabled;
        old_alarm_sub_expressions = old;
        changed_sub_expressions = changed;
        unchanged_sub_expressions = unchanged;
        new_alarm_sub_expressions = new;
      }))
