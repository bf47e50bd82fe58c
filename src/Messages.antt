-- ===== src/Messages.antt =====
-- What the server puts on its message queues: the dicts that monasca/v2/reference/alarming.py and
-- monasca/v2/reference/alarm_definitions.py build, as records, and `send_event` of alarming.py. The
-- client of a queue is a parameter.
use monasca_api.Prelude.{Bool, String, List, Option, Dict}
use monasca_api.Errors.{
  Exec, Exn, Result, ok, err, map_err, http, internal_server_error, args_of, message_queue,
}
use monasca_api.Alarms.Views.{Metric}

-- what an event says of a sub alarm, or of a sub expression of a definition
pub record SubAlarmMessage : Type 0 where
  pub function : String
  pub metric_definition : Metric
  pub operator : Option String
  pub threshold : String
  pub period : String
  pub periods : String
  pub expression : String

-- The dict under `event_type`; `state_info` is the old and the new state.
pub record AlarmEvent : Type 0 where
  pub event_type : String
  pub tenant_id : String
  pub alarm_definition_id : String
  pub alarm_id : String
  pub alarm_metrics : List Metric
  pub state_info : Option (String × String)
  pub sub_alarms : Dict SubAlarmMessage

pub record Transition : Type 0 where
  pub tenant_id : String
  pub alarm_id : String
  pub alarm_definition_id : String
  pub alarm_name : String
  pub alarm_description : String
  pub actions_enabled : Bool
  pub severity : String
  pub old_state : String
  pub new_state : String
  pub metrics : List Metric

-- the dict under `alarm-definition-created`
pub record DefinitionCreated : Type 0 where
  pub tenant_id : String
  pub alarm_definition_id : String
  pub alarm_name : String
  pub alarm_description : String
  pub alarm_expression : String
  pub match_by : List String
  pub alarm_sub_expressions : Dict SubAlarmMessage

-- The dict under `alarm-definition-updated`: what the request gave, `none` for `None`.
pub record DefinitionUpdated : Type 0 where
  pub tenant_id : String
  pub alarm_definition_id : String
  pub alarm_name : Option String
  pub alarm_description : Option String
  pub alarm_expression : String
  pub severity : Option String
  pub match_by : Option (List String)
  pub alarm_actions_enabled : Option Bool
  pub old_alarm_sub_expressions : Dict SubAlarmMessage
  pub changed_sub_expressions : Dict SubAlarmMessage
  pub unchanged_sub_expressions : Dict SubAlarmMessage
  pub new_alarm_sub_expressions : Dict SubAlarmMessage

-- the dict under `alarm-definition-deleted`
pub record DefinitionDeleted : Type 0 where
  pub alarm_definition_id : String
  pub sub_alarm_metric_definitions : Dict Metric

pub data Message : Type 0 where
  alarm_event : AlarmEvent → Message
  alarm_transitioned : Transition → Message
  alarm_definition_created : DefinitionCreated → Message
  alarm_definition_updated : DefinitionUpdated → Message
  alarm_definition_deleted : DefinitionDeleted → Message

-- A message queue: the client of it may raise.
pub record Publisher (Q : Type 0) : Type 0 where
  pub send_message : Message → Exec Q (Unit {0})

-- `MessageQueueException` becomes a 500; another exception goes on.
abbrev pub queue_error : Exn → Exn
queue_error message_queue =
    http internal_server_error "Message queue service unavailable" (args_of message_queue)
queue_error e = e

unfoldable pub send_event : {Q : Type 0} → Publisher Q → Message → Exec Q (Unit {0})
send_event publisher message q =
    let (r, q') = publisher.send_message message q in (map_err queue_error r, q')

-- a message that is built first, which may raise
abbrev pub send_built : {Q : Type 0} → Publisher Q → Result Message → Exec Q (Unit {0})
send_built publisher (ok message) q = send_event publisher message q
send_built publisher (err e) q = (err e, q)
