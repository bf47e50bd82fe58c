-- ===== src/Tests/Deletions.antt =====
-- Alarm definitions that are created, updated and deleted, and what the queue of events holds then.
use monasca_api.Prelude.{
  ◌≡◌, refl, ◌⊎◌, Bool, true, false, String, List, [], ◌∷◌, ◌++◌, none, some, keep, differ, split,
  lower, upper, join, get, put, any, order_by,
}
use monasca_api.Errors.{
  ok, err, http, not_found, internal_server_error, no_description, exception, python,
}
use monasca_api.Errors.Outcomes.{Yields}
use monasca_api.Database.{Db}
use monasca_api.Expression.{dimensions_as_list, normalized_operator}
use monasca_api.SubAlarm.{
  SubAlarmDefinition, of_row, of_sub_expr, init_dimensions, equals, same_key_fields,
}
use monasca_api.Alarms.{MetricRow, each, distinct}
use monasca_api.Alarms.Views.{dimensions_of_text}
use monasca_api.Alarms.Listing.{get_definition_alarm_metrics}
use monasca_api.AlarmDefinitions.Queries.{
  is_live, sub_definition_rows, get_sub_alarms, get_alarm_definition,
}
use monasca_api.AlarmDefinitions.Queries.Deletion.{after_deletion}
use monasca_api.AlarmDefinitions.Create.{encoded, parsed_dimension}
use monasca_api.AlarmDefinitions.Diff.{Diff, diff}
use monasca_api.AlarmDefinitions.Update.{read_rows, read_sub_exprs}
use monasca_api.AlarmDefinitions.Events.{deleted_message, updated_message}
use monasca_api.AlarmDefinitions.Events.Bounds.{IsNarrow, updated_message-IsNarrow}
use monasca_api.AlarmDefinitions.Events.Created.{message}
use monasca_api.AlarmDefinitions.Resource.{alarm_definition_create, alarm_definition_delete}
use monasca_api.AlarmDefinitions.Resource.Created.{create_definition_outcome}
use monasca_api.AlarmDefinitions.Resource.Deleted.{delete_definition_outcome, delete_several_alarms}
use monasca_api.Alarming.{build_metric, build_sub_alarm_event_msg, by_alarm}
use monasca_api.Alarming.Updates.{World}
use monasca_api.Messages.{Message, alarm_event, alarm_definition_deleted}
use monasca_api.Tests.Data.{stored, sub_expr, sub_alarm, float_code}
use monasca_api.Tests.Events.{parse, log, watched, world, cpu, row}
use monasca_api.Tests.Events
use monasca_api.Tests.Resource.{fresh, severity_alone}

-- no text comes before another one: there is one alarm only, or the order is that of the rows
abbrev unordered : String → String → Bool
unordered a b = false

abbrev gone : Message
gone =
    alarm_definition_deleted
      (record { alarm_definition_id = "d"; sub_alarm_metric_definitions = ("s", cpu) ∷ [] })

abbrev event : Message
event = alarm_event (record {
  event_type = "alarm-deleted";
  tenant_id = "t";
  alarm_definition_id = "d";
  alarm_id = "a";
  alarm_metrics = cpu ∷ [];
  state_info = none;
  sub_alarms = ("sa", Events.message) ∷ [];
})

delete_definition_outcome_example :
    ((any (is_live "t" "d") watched.alarm_definition ≡ true)
      × (alarm_definition_delete parse log unordered 7 "t" "d" world ≡ (
        ok tt,
        record world { db = after_deletion 7 "t" "d" watched; events = gone ∷ event ∷ [] },
      )))
    ⊎ ((any (is_live "t" "d") watched.alarm_definition ≡ false)
        × (alarm_definition_delete parse log unordered 7 "t" "d" world
            ≡ (err (http not_found "" no_description), world)))
unfolding get_definition_alarm_metrics get_sub_alarms sub_definition_rows deleted_message
    dimensions_of_text build_metric build_sub_alarm_event_msg by_alarm each keep distinct join split
    put get upper lower order_by
delete_definition_outcome_example =
    delete_definition_outcome parse log (λ m q. q ++ m ∷ []) (λ m q. refl) unordered 7 "t" "d" world
      (Events.part ∷ []) gone (row ∷ []) refl refl refl "a" (cpu ∷ []) (("sa", Events.message) ∷ [])
      (refl, refl, tt) refl

-- both alarms watch the metric
abbrev both_watched : Db
both_watched = record watched {
  alarm_metric =
      record { alarm_id = "a"; metric_definition_dimensions_id = "md" }
      ∷ record { alarm_id = "b"; metric_definition_dimensions_id = "md" }
      ∷ [];
}

abbrev both_world : World (List Message)
both_world = record world { db = both_watched }

abbrev other_row : MetricRow
other_row = record { alarm_id = "b"; name = "cpu"; dimensions = some "host=a" }

delete_several_alarms_example : alarm_definition_delete parse log unordered 7 "t" "d" both_world ≡ (
  err (http internal_server_error "Service unavailable" (exception (python "TypeError"))),
  record both_world { db = after_deletion 7 "t" "d" both_watched; events = gone ∷ [] },
)
unfolding get_definition_alarm_metrics get_sub_alarms sub_definition_rows deleted_message
    dimensions_of_text build_metric build_sub_alarm_event_msg by_alarm each keep distinct join split
    put get upper lower order_by
delete_several_alarms_example =
    delete_several_alarms parse log (λ m q. q ++ m ∷ []) (λ m q. refl) unordered 7 "t" "d"
      both_world (Events.part ∷ []) gone (row ∷ other_row ∷ []) refl refl refl "a" row other_row []
      [] (cpu ∷ []) (("sa", Events.message) ∷ []) refl refl (refl, refl, tt) refl
      (differ "a" "b" refl)

-- two of its sub alarm definitions change
abbrev sorted : Diff SubAlarmDefinition
sorted = record { old = []; changed = ("s", sub_alarm "" "LT" "95") ∷ []; new = []; unchanged = [] }

updated_message-IsNarrow_example :
    Yields IsNarrow (updated_message "t" "d" severity_alone "max(cpu{host=a}) < 95" sorted)
unfolding equals same_key_fields diff read_rows read_sub_exprs sub_definition_rows of_row
    of_sub_expr init_dimensions normalized_operator get keep split upper lower join
updated_message-IsNarrow_example =
    updated_message-IsNarrow float_code fresh "d" "t" "max(cpu{host=a}) < 95" severity_alone
      (sub_expr "lt" "95" ∷ []) (sub_definition_rows "d" stored) (sub_alarm "s" "GT" "90" ∷ [])
      (sub_alarm "" "LT" "95" ∷ []) sorted refl refl (("LT", refl), tt) refl

create_definition_outcome_example :
    (m : Message) × (db' : Db) × (message 3 fresh "t" "x" "hot" "max(cpu{host=a}) > 90" ""
        (sub_expr ">" "90" ∷ [])
        ("host" ∷ [])
      ≡ ok m)
    × (alarm_definition_create parse log 3 fresh "t" "hot" "max(cpu{host=a}) > 90" "" "low"
          ("host" ∷ [])
          (some ("n" ∷ []))
          none
          none
          world
        ≡ (
          ok (record {
            id = "x";
            name = "hot";
            description = "";
            expression = "max(cpu{host=a}) > 90";
            match_by = "host" ∷ [];
            severity = "low";
            actions_enabled = "true";
            alarm_actions = some ("n" ∷ []);
            ok_actions = none;
            undetermined_actions = none;
          }),
          record world { db = db'; events = m ∷ [] },
        ))
    × ((get_alarm_definition "t" "x" db').0
        ≡ ok (record {
          id = "x";
          name = "hot";
          description = "";
          expression = "max(cpu{host=a}) > 90";
          match_by = "host";
          severity = "LOW";
          actions_enabled = 1;
          alarm_actions = some "n";
          ok_actions = none;
          undetermined_actions = none;
        }))
unfolding split lower upper join dimensions_as_list normalized_operator encoded parsed_dimension
create_definition_outcome_example =
    create_definition_outcome parse log (λ m q. q ++ m ∷ []) (λ m q. refl) 3 fresh "t" "hot"
      "max(cpu{host=a}) > 90" "" "low" ("host" ∷ []) (some ("n" ∷ [])) none none world
      (sub_expr ">" "90" ∷ []) refl ((tt, (tt, tt), refl), tt) ((tt, tt), ((refl, refl), tt))
      (refl, refl) (refl, refl) (refl, refl) refl refl
