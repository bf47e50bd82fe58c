-- ===== src/Alarming.antt =====
-- The events that the server sends about alarms, of monasca/v2/reference/alarming.py. What the parser
-- makes of the expression of a sub alarm is the parameter `parse`.
pub mod Built
pub mod Updates
use monasca_api.Prelude.{
  ◌≡◌, ℕ, ◌==◌, Bool, true, false, String, List, [], ◌∷◌, ◌++◌, Option, none, some, Dict, get, put,
  has, seq, split, if◌then◌else◌,
}
use monasca_api.Errors.{Exec, Result, ok, err, ◌>>=◌, python}
use monasca_api.Database.{Db, AlarmDefinition, SubAlarm}
use monasca_api.Expression.{
  SubExpr, normalized_func, normalized_operator, period, periods, fmtd_sub_expr_str,
  dimensions_as_list,
}
use monasca_api.AlarmDefinitions.Create.{parsed_dimension}
use monasca_api.Alarms.{MetricRow}
use monasca_api.Alarms.Views.{Metric, put_dimensions}
use monasca_api.Messages.{
  SubAlarmMessage, AlarmEvent, Transition, Message, alarm_event, alarm_transitioned, Publisher,
  send_event, send_built,
}

-- `None.split` raises
unfoldable pub build_metric : MetricRow → Result Metric
unfolding put_dimensions
build_metric row = elim row.dimensions [
  | none ↦ err (python "AttributeError")
  | some text ↦ do
    dimensions ← put_dimensions [] (split b',' text)
    ok (record { name = row.name; dimensions = dimensions })
]

unfoldable pub build_metrics : List MetricRow → Result (List Metric)
unfolding build_metric
build_metrics [] = ok []
build_metrics (row ∷ rows) = do m ← build_metric row; ms ← build_metrics rows; ok (m ∷ ms)

-- `sub_alarm_dict`: the sub alarms of each alarm
unfoldable pub by_alarm : Dict (List SubAlarm) → List SubAlarm → Dict (List SubAlarm)
unfolding get put
by_alarm d [] = d
by_alarm d (sa ∷ sas) = elim (get sa.alarm_id d) [
  | none ↦ by_alarm (put sa.alarm_id (sa ∷ []) d) sas
  | some others ↦ by_alarm (put sa.alarm_id (others ++ sa ∷ []) d) sas
]

abbrev pub first_expr : List SubExpr → Result SubExpr
first_expr [] = err (python "IndexError")
first_expr (e ∷ es) = ok e

module _ (parse : String → Result (List SubExpr)) where
  unfoldable pub sub_alarm_message : SubAlarm → Result SubAlarmMessage
  unfolding put_dimensions normalized_func normalized_operator period periods fmtd_sub_expr_str
      dimensions_as_list
  sub_alarm_message sa = do
    es ← parse sa.expression
    e ← first_expr es
    dimensions ← put_dimensions [] (dimensions_as_list e)
    ok (record {
      function = normalized_func e;
      metric_definition = record { name = e.metric_name; dimensions = dimensions };
      operator = normalized_operator e;
      threshold = e.threshold;
      period = period e;
      periods = periods e;
      expression = fmtd_sub_expr_str e;
    })

  unfoldable pub sub_alarm_messages :
      Dict SubAlarmMessage → List SubAlarm → Result (Dict SubAlarmMessage)
  unfolding sub_alarm_message put
  sub_alarm_messages msg [] = ok msg
  sub_alarm_messages msg (sa ∷ sas) = do
    m ← sub_alarm_message sa
    sub_alarm_messages (put sa.id m msg) sas

  unfoldable pub build_sub_alarm_event_msg :
      Dict (List SubAlarm) → String → Result (Dict SubAlarmMessage)
  unfolding sub_alarm_messages get
  build_sub_alarm_event_msg d alarm_id = elim (get alarm_id d) [
    | none ↦ ok []
    | some sas ↦ sub_alarm_messages [] sas
  ]

  abbrev pub with_metric : Metric → AlarmEvent → AlarmEvent
  with_metric m event = record event { alarm_metrics = event.alarm_metrics ++ m ∷ [] }

  -- The loop over the metrics, with the event that is being filled. At a row of another alarm the
  -- source subscripts the event by a slice, which a dict does not take.
  unfoldable pub fill_event : Dict (List SubAlarm) → AlarmEvent → List MetricRow → Result AlarmEvent
  unfolding build_metric build_sub_alarm_event_msg
  fill_event d event [] = ok event
  fill_event d event (row ∷ rows) = elim (seq event.alarm_id row.alarm_id) [
    | true ↦ do m ← build_metric row; fill_event d (with_metric m event) rows
    | false ↦ do msg ← build_sub_alarm_event_msg d event.alarm_id; err (python "TypeError")
  ]

  abbrev pub start_event :
      String → String → String → Option (String × String) → MetricRow → AlarmEvent
  start_event event_type tenant_id alarm_definition_id state_info row = record {
    event_type = event_type;
    tenant_id = tenant_id;
    alarm_definition_id = alarm_definition_id;
    alarm_id = row.alarm_id;
    alarm_metrics = [];
    state_info = state_info;
    sub_alarms = [];
  }

  -- the event of `_send_alarm_event`, for alarms with at least one metric
  unfoldable pub build_event :
      String
      → String
      → String
      → MetricRow
      → List MetricRow
      → List SubAlarm
      → Option (String × String)
      → Result AlarmEvent
  unfolding fill_event by_alarm
  build_event event_type tenant_id alarm_definition_id row rows sub_alarms state_info = do
    event ←
        fill_event (by_alarm [] sub_alarms)
          (start_event event_type tenant_id alarm_definition_id state_info row) (row ∷ rows)
    msg ← build_sub_alarm_event_msg (by_alarm [] sub_alarms) row.alarm_id
    ok (record event { sub_alarms = msg })

  module _ {Q : Type 0} (publisher : Publisher Q) where
    abbrev pub as_event : Result AlarmEvent → Result Message
    as_event r = r >>= λ event. ok (alarm_event event)

    -- `_send_alarm_event`: nothing is sent without metrics
    unfoldable pub send_alarm_event :
        String
        → String
        → String
        → List MetricRow
        → List SubAlarm
        → Option (String × String)
        → Exec Q (Unit {0})
    unfolding build_event send_event
    send_alarm_event event_type tenant_id alarm_definition_id [] sub_alarms state_info q =
        (ok tt, q)
    send_alarm_event event_type tenant_id alarm_definition_id (row ∷ rows) sub_alarms state_info q =
        send_built publisher
          (as_event
            (build_event event_type tenant_id alarm_definition_id row rows sub_alarms state_info))
          q

    abbrev pub transition :
        String → String → AlarmDefinition → List Metric → String → String → Transition
    transition tenant_id alarm_id ad metrics old_state new_state = record {
      tenant_id = tenant_id;
      alarm_id = alarm_id;
      alarm_definition_id = ad.id;
      alarm_name = ad.name;
      alarm_description = ad.description;
      actions_enabled = ad.actions_enabled == 1;
      severity = ad.severity;
      old_state = old_state;
      new_state = new_state;
      metrics = metrics;
    }

    unfoldable pub send_alarm_transitioned_event :
        String → String → AlarmDefinition → List MetricRow → String → String → Exec Q (Unit {0})
    unfolding build_metrics send_event
    send_alarm_transitioned_event tenant_id alarm_id ad rows old_state new_state q =
        send_built publisher
          (build_metrics rows >>= λ metrics.
            ok (alarm_transitioned (transition tenant_id alarm_id ad metrics old_state new_state)))
          q
