-- ===== src/Tests/Events.antt =====
-- An alarm that is set, and what the queues hold then.
use monasca_api.Prelude.{
  ◌≡◌, refl, String, List, [], ◌∷◌, ◌++◌, true, some, join, keep, split, put, get, lower, upper,
}
use monasca_api.Errors.{Result, ok}
use monasca_api.Database.{Db, SubAlarm}
use monasca_api.Expression.{SubExpr}
use monasca_api.Alarms.{
  MetricRow, get_alarm_metrics, get_sub_alarms, get_alarm_definition, is_mine, set_state, each,
  distinct,
}
use monasca_api.Alarms.Views.{Metric}
use monasca_api.Messages.{Message, alarm_event, alarm_transitioned, SubAlarmMessage, Publisher}
use monasca_api.Alarming.{build_metric, build_sub_alarm_event_msg, by_alarm}
use monasca_api.Alarming.Updates.{World, alarm_update}
use monasca_api.Alarming.Updates.Sent.{alarm_update_outcome}
use monasca_api.Tests.Data.{stored, alarm, definition, sub_expr}

abbrev pub parse : String → Result (List SubExpr)
parse s = ok (sub_expr ">" "90" ∷ [])

abbrev pub log : Publisher (List Message)
log = record { send_message = λ m q. (ok tt, q ++ m ∷ []) }

abbrev pub part : SubAlarm
part = record { id = "sa"; alarm_id = "a"; expression = "max(cpu{host=a}) > 90" }

abbrev pub watched : Db
watched = record stored {
  sub_alarm = part ∷ [];
  alarm_metric = record { alarm_id = "a"; metric_definition_dimensions_id = "md" } ∷ [];
  metric_definition_dimensions =
      record { id = "md"; metric_definition_id = "m"; metric_dimension_set_id = "set" } ∷ [];
  metric_definition = record { id = "m"; name = "cpu" } ∷ [];
  metric_dimension = record { dimension_set_id = "set"; name = "host"; value = "a" } ∷ [];
}

abbrev pub world : World (List Message)
world = record { db = watched; events = []; state_transitions = [] }

abbrev pub cpu : Metric
cpu = record { name = "cpu"; dimensions = ("host", "a") ∷ [] }

abbrev pub row : MetricRow
row = record { alarm_id = "a"; name = "cpu"; dimensions = some "host=a" }

abbrev pub message : SubAlarmMessage
message = record {
  function = "MAX";
  metric_definition = cpu;
  operator = some "GT";
  threshold = "90";
  period = "60";
  periods = "1";
  expression = "max(cpu{host=a}) > 90";
}

abbrev pub event : Message
event = alarm_event (record {
  event_type = "alarm-updated";
  tenant_id = "t";
  alarm_definition_id = "d";
  alarm_id = "a";
  alarm_metrics = cpu ∷ [];
  state_info = some ("OK", "ALARM");
  sub_alarms = ("sa", message) ∷ [];
})

abbrev transition : Message
transition = alarm_transitioned (record {
  tenant_id = "t";
  alarm_id = "a";
  alarm_definition_id = "d";
  alarm_name = "high";
  alarm_description = "";
  actions_enabled = true;
  severity = "LOW";
  old_state = "OK";
  new_state = "ALARM";
  metrics = cpu ∷ [];
})

alarm_update_outcome_example : alarm_update parse log "t" "a" "ALARM" world ≡ (
  ok tt,
  record {
    db = record watched { alarm = set_state (is_mine "t" "a" watched) "ALARM" watched.alarm };
    events = event ∷ [];
    state_transitions = transition ∷ [];
  },
)
unfolding keep join each distinct split put get upper lower get_alarm_metrics get_sub_alarms
    get_alarm_definition build_metric build_sub_alarm_event_msg by_alarm set_state
alarm_update_outcome_example =
    alarm_update_outcome parse log (λ m q. q ++ m ∷ []) (λ m q. refl) "t" "a" "ALARM" "d" world
      (alarm "a") (definition "d") row [] (cpu ∷ []) part [] (("sa", message) ∷ []) refl
      (refl, refl, tt) refl refl refl refl
