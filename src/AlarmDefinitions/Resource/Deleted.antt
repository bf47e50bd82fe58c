-- ===== src/AlarmDefinitions/Resource/Deleted.antt =====
-- What a deletion does to the database and to the queue of events.
use monasca_api.Prelude.{
  ◌≡◌, ◌≢◌, refl, ap, ◌∙◌, ◌⊎◌, inl, inr, ℕ, Bool, true, false, String, List, [], ◌∷◌, ◌++◌, none,
  Dict, any, arith, Bool-cases,
}
use monasca_api.Errors.{
  Result, ok, err, http, not_found, internal_server_error, no_description, exception, python,
  map_err, resource_error, resource_try_catch_block,
}
use monasca_api.Errors.Steps.{after}
use monasca_api.Database.{Db, SubAlarm}
use monasca_api.Expression.{SubExpr}
use monasca_api.Alarms.{MetricRow}
use monasca_api.Alarms.Views.{Metric}
use monasca_api.Alarms.Listing.{get_definition_alarm_metrics}
use monasca_api.AlarmDefinitions.Queries.{
  is_live, sub_definition_rows, get_sub_alarm_definitions, get_sub_alarms, delete_alarm_definition,
}
use monasca_api.AlarmDefinitions.Queries.Deletion.{after_deletion, delete_live}
use monasca_api.AlarmDefinitions.Events.{deleted_message}
use monasca_api.AlarmDefinitions.Resource.{
  send_deleted, delete_read, with_metrics, alarm_definition_delete,
}
use monasca_api.Messages.{Message, alarm_event, SubAlarmMessage, Publisher, send_built}
use monasca_api.Alarming.{by_alarm, build_sub_alarm_event_msg, send_alarm_event}
use monasca_api.Alarming.Built.{
  Builds, event, send_alarm_event_several, send_event-takes, send_alarm_event-takes,
}
use monasca_api.Alarming.Updates.{World, on_events}

nothing_deleted :
    (now : ℕ) (tenant_id id : String) (db : Db)
    → any (is_live tenant_id id) db.alarm_definition ≡ false
    → delete_alarm_definition now tenant_id id db ≡ (ok false, db)
unfolding delete_alarm_definition
nothing_deleted now tenant_id id db gone = ground arith

module _ {Q : Type 0} (parse : String → Result (List SubExpr)) (publisher : Publisher Q)
    (take : Message → Q → Q)
    (takes : (m : Message) (q : Q) → publisher.send_message m q ≡ (ok tt, take m q))
    (lt : String → String → Bool) (now : ℕ) (tenant_id id : String) (w : World Q)
    (sub_alarms : List SubAlarm) (m : Message) where
  abbrev delete : Result (Unit {0}) × World Q
  delete = alarm_definition_delete parse publisher lt now tenant_id id w

  -- the world once the definition is deleted and that is told
  abbrev deleted : World Q
  deleted = record w { db = after_deletion now tenant_id id w.db; events = take m w.events }

  -- the world once the event about the alarm is sent too, if there are metrics
  abbrev told : String → List MetricRow → List Metric → Dict SubAlarmMessage → World Q
  told alarm_id [] ms msg = deleted
  told alarm_id (row ∷ rows) ms msg = record deleted {
    events =
        take (alarm_event (event parse tenant_id alarm_id id "alarm-deleted" none ms msg))
          (take m w.events);
  }

  module _ (metrics : List MetricRow)
      (read_metrics : get_definition_alarm_metrics lt tenant_id id w.db ≡ (ok metrics, w.db))
      (read_subs : get_sub_alarms tenant_id id w.db ≡ (ok sub_alarms, w.db))
      (built : deleted_message id (sub_definition_rows id w.db) ≡ ok m) where
    caught : Result (Unit {0}) × World Q → Result (Unit {0}) × World Q
    caught r = (map_err resource_error r.0, r.1)

    -- the reads go through
    reads :
        delete
        ≡ caught (
            delete_read parse publisher lt now tenant_id id
              (sub_definition_rows id w.db)
              metrics
              sub_alarms
              w)
    unfolding alarm_definition_delete resource_try_catch_block get_sub_alarm_definitions caught
    reads =
        ap
          (λ r. caught (
            after (with_metrics parse publisher lt now tenant_id id (sub_definition_rows id w.db))
              (r.0, record w { db = r.1 })))
          read_metrics
        ∙ ap
            (λ r. caught (
              after
                (delete_read parse publisher lt now tenant_id id (sub_definition_rows id w.db)
                  metrics)
                (r.0, record w { db = r.1 })))
            read_subs

    abbrev after_delete : Result Bool × World Q → Result (Unit {0}) × World Q
    after_delete r = caught (
        after
          (send_deleted parse publisher lt now tenant_id id (sub_definition_rows id w.db) metrics
            sub_alarms)
          r)

    missing :
        any (is_live tenant_id id) w.db.alarm_definition ≡ false
        → delete ≡ (err (http not_found "" no_description), w)
    unfolding caught resource_error
    missing gone =
        reads
        ∙ ap (λ r. after_delete (r.0, record w { db = r.1 }))
            (nothing_deleted now tenant_id id w.db gone)

    -- The definition is deleted and that is told; the rest is the event about its alarms.
    abbrev tell_alarms : List MetricRow → World Q → Result (Unit {0}) × World Q
    tell_alarms rows w =
        on_events
          (send_alarm_event parse publisher "alarm-deleted" tenant_id id rows sub_alarms none) w

    abbrev marked : World Q
    marked = record w { db = after_deletion now tenant_id id w.db }

    committed :
        any (is_live tenant_id id) w.db.alarm_definition ≡ true
        → delete ≡ caught (tell_alarms metrics deleted)
    committed live =
        reads
        ∙ ap (λ r. after_delete (r, marked)) (delete_live now tenant_id id w.db live).0
        ∙ ap
            (λ r.
              caught (after (λ u. tell_alarms metrics) (on_events (send_built publisher r) marked)))
            built
        ∙ ap (λ r. caught (after (λ u. tell_alarms metrics) (r.0, record marked { events = r.1 })))
            (send_event-takes publisher take takes m w.events)

    tells_alarm :
        (alarm_id : String) (rows : List MetricRow) (ms : List Metric)
        → (msg : Dict SubAlarmMessage) → Builds alarm_id rows ms
        → build_sub_alarm_event_msg parse (by_alarm [] sub_alarms) alarm_id ≡ ok msg
        → tell_alarms rows deleted ≡ (ok tt, told alarm_id rows ms msg)
    unfolding send_alarm_event
    tells_alarm alarm_id [] ms msg h parsed = refl
    tells_alarm alarm_id (row ∷ rows) ms msg h parsed =
        ap (λ r. (r.0, record deleted { events = r.1 }))
          (send_alarm_event-takes parse publisher take takes tenant_id alarm_id id "alarm-deleted"
            none ms msg row rows sub_alarms h parsed (take m w.events))

    several_raise :
        (alarm_id : String) (row other : MetricRow) (rows rest : List MetricRow)
        → (ms : List Metric) (msg : Dict SubAlarmMessage) → Builds alarm_id (row ∷ rows) ms
        → build_sub_alarm_event_msg parse (by_alarm [] sub_alarms) alarm_id ≡ ok msg
        → alarm_id ≢ other.alarm_id
        → tell_alarms ((row ∷ rows) ++ other ∷ rest) deleted ≡ (err (python "TypeError"), deleted)
    several_raise alarm_id row other rows rest ms msg h parsed apart =
        ap (λ r. (r.0, record deleted { events = r.1 }))
          (send_alarm_event_several parse publisher take takes tenant_id alarm_id id "alarm-deleted"
            none ms msg row other rows rest sub_alarms h apart parsed (take m w.events))

    -- Deleting a definition of the tenant that is not live is answered by 404, and changes and sends
    -- nothing. Deleting a live one marks it, takes its alarms out of the database, sends the event
    -- with the metrics of its sub alarm definitions, and then, if its alarms have metrics, the event
    -- about the alarm, with these and its sub alarms. The conditions: the metrics are of one alarm at
    -- most, they and the sub alarms can be read, and the queue takes every message.
    pub delete_definition_outcome :
        (alarm_id : String) (ms : List Metric) (msg : Dict SubAlarmMessage)
        → Builds alarm_id metrics ms
        → build_sub_alarm_event_msg parse (by_alarm [] sub_alarms) alarm_id ≡ ok msg
        → ((any (is_live tenant_id id) w.db.alarm_definition ≡ true)
            × (delete ≡ (ok tt, told alarm_id metrics ms msg)))
          ⊎ ((any (is_live tenant_id id) w.db.alarm_definition ≡ false)
              × (delete ≡ (err (http not_found "" no_description), w)))
    unfolding caught
    delete_definition_outcome alarm_id ms msg h parsed =
        elim (Bool-cases (any (is_live tenant_id id) w.db.alarm_definition)) [
          | inl live ↦
              inl (live, committed live ∙ ap caught (tells_alarm alarm_id metrics ms msg h parsed))
          | inr gone ↦ inr (gone, missing gone)
        ]

    -- Deleting a live definition whose alarms are several is answered by 500, although it is deleted
    -- and that is told; no event about its alarms is sent. The metrics of the first alarm and its sub
    -- alarms can be read, and the queue takes every message.
    pub delete_several_alarms :
        (alarm_id : String) (row other : MetricRow) (rows rest : List MetricRow)
        → (ms : List Metric) (msg : Dict SubAlarmMessage)
        → any (is_live tenant_id id) w.db.alarm_definition ≡ true
        → metrics ≡ (row ∷ rows) ++ other ∷ rest
        → Builds alarm_id (row ∷ rows) ms
        → build_sub_alarm_event_msg parse (by_alarm [] sub_alarms) alarm_id ≡ ok msg
        → alarm_id ≢ other.alarm_id
        → delete ≡ (
          err (http internal_server_error "Service unavailable" (exception (python "TypeError"))),
          deleted,
        )
    unfolding caught resource_error
    delete_several_alarms alarm_id row other rows rest ms msg live same h parsed apart =
        committed live
        ∙ ap (λ rows. caught (tell_alarms rows deleted)) same
        ∙ ap caught (several_raise alarm_id row other rows rest ms msg h parsed apart)
