-- ===== src/Alarming/Updates/Sent.antt =====
-- What is sent when the state of an alarm is set.
use monasca_api.Prelude.{
  ◌≡◌, ap, ◌∙◌, String, List, [], ◌∷◌, some, map, seq, keep, if◌then◌else◌, Dict, Bool-cases, inl,
  inr,
}
use monasca_api.Errors.{Result, ok}
use monasca_api.Database.{Db, Alarm, AlarmDefinition, SubAlarm}
use monasca_api.Expression.{SubExpr}
use monasca_api.Alarms.{
  MetricRow, is_mine, set_state, get_alarm_metrics, get_sub_alarms, get_alarm_definition,
}
use monasca_api.Alarms.Changes.{update_alarm_outcome}
use monasca_api.Alarms.Views.{Metric}
use monasca_api.Alarming.{
  by_alarm, build_sub_alarm_event_msg, send_alarm_event, transition, send_alarm_transitioned_event,
}
use monasca_api.Alarming.Built.{
  Builds, build_metrics-Builds, event, send_event-takes, send_alarm_event-takes,
}
use monasca_api.Messages.{
  Message, alarm_event, alarm_transitioned, AlarmEvent, SubAlarmMessage, Publisher,
}
use monasca_api.Alarming.Updates.{
  World, with_metrics, with_sub_alarms, with_old_state, tell_change, alarm_update_body,
  alarm_update,
}
use monasca_api.Errors.Steps.{after-ok, caught-ok}

-- The other parameters stand for the parser, a queue that takes every message, and what a queue is
-- after it took one.
module _ {Q : Type 0} (parse : String → Result (List SubExpr)) (publisher : Publisher Q)
    (take : Message → Q → Q)
    (takes : (m : Message) (q : Q) → publisher.send_message m q ≡ (ok tt, take m q)) where
  module _ (tenant_id id new_state definition_id : String) (w : World Q) (a : Alarm)
      (ad : AlarmDefinition) (row : MetricRow) (rows : List MetricRow) (ms : List Metric)
      (sa : SubAlarm) (sas : List (SubAlarm × String)) (msg : Dict SubAlarmMessage) where
    abbrev changed : Db
    changed = record w.db { alarm = set_state (is_mine tenant_id id w.db) new_state w.db.alarm }

    abbrev updated_event : AlarmEvent
    updated_event =
        event parse tenant_id id definition_id "alarm-updated" (some (a.state, new_state)) ms msg

    -- the transition is told if the state is another one
    abbrev told : Q
    told =
        if seq a.state new_state
        then w.state_transitions
        else take
            (alarm_transitioned (transition parse publisher tenant_id id ad ms a.state new_state))
            w.state_transitions

    abbrev final : World Q
    final = record {
      db = changed;
      events = take (alarm_event updated_event) w.events;
      state_transitions = told;
    }

    abbrev sent : World Q
    sent = record w { db = changed; events = take (alarm_event updated_event) w.events }

    event_sent :
        Builds id (row ∷ rows) ms
        → build_sub_alarm_event_msg parse (by_alarm [] (sa ∷ map (λ r. r.0) sas)) id ≡ ok msg
        → (q : Q)
        → send_alarm_event parse publisher "alarm-updated" tenant_id definition_id
            (row ∷ rows)
            (sa ∷ map (λ r. r.0) sas)
            (some (a.state, new_state))
            q
          ≡ (ok tt, take (alarm_event updated_event) q)
    event_sent built parsed q =
        send_alarm_event-takes parse publisher take takes tenant_id id definition_id "alarm-updated"
          (some (a.state, new_state)) ms msg row rows (sa ∷ map (λ r. r.0) sas) built parsed q

    transition_sent :
        Builds id (row ∷ rows) ms
        → (q : Q)
        → send_alarm_transitioned_event parse publisher tenant_id id ad
            (row ∷ rows)
            a.state
            new_state
            q
          ≡ (
            ok tt,
            take
                (alarm_transitioned
                  (transition parse publisher tenant_id id ad ms a.state new_state))
                q,
          )
    unfolding send_alarm_transitioned_event
    transition_sent built q =
        rw (build_metrics-Builds id (row ∷ rows) ms built)
          (send_event-takes publisher take takes _ q)

    change_told :
        Builds id (row ∷ rows) ms
        → get_alarm_definition tenant_id id changed ≡ (ok ad, changed)
        → tell_change parse publisher tenant_id id (row ∷ rows) a.state new_state sent
          ≡ (ok tt, final)
    change_told built definition = elim (Bool-cases (seq a.state new_state)) [
      | inl e ↦ rw e
      | inr e ↦ rw (e, definition, transition_sent built w.state_transitions)
    ]

    steps :
        get_alarm_metrics id w.db ≡ (ok (row ∷ rows), w.db)
        → Builds id (row ∷ rows) ms
        → get_sub_alarms tenant_id id w.db ≡ (ok ((sa, definition_id) ∷ sas), w.db)
        → build_sub_alarm_event_msg parse (by_alarm [] (sa ∷ map (λ r. r.0) sas)) id ≡ ok msg
        → keep (is_mine tenant_id id w.db) w.db.alarm ≡ a ∷ []
        → get_alarm_definition tenant_id id changed ≡ (ok ad, changed)
        → alarm_update_body parse publisher tenant_id id new_state w ≡ (ok tt, final)
    unfolding alarm_update_body
    steps metrics built subs parsed found definition =
        after-ok (with_metrics parse publisher tenant_id id new_state) _ (row ∷ rows) w
          (ap (λ r. (r.0, record w { db = r.1 })) metrics)
        ∙ after-ok (with_sub_alarms parse publisher tenant_id id new_state (row ∷ rows)) _
            ((sa, definition_id) ∷ sas) w (ap (λ r. (r.0, record w { db = r.1 })) subs)
        ∙ after-ok
            (with_old_state parse publisher tenant_id id new_state (row ∷ rows)
              ((sa, definition_id) ∷ sas))
            _ a.state (record w { db = changed })
            (ap (λ r. (r.0, record w { db = r.1 }))
              (update_alarm_outcome tenant_id id new_state w.db a found).0)
        ∙ after-ok (λ u. tell_change parse publisher tenant_id id (row ∷ rows) a.state new_state) _
            tt sent
            (ap (λ r. (r.0, record w { db = changed; events = r.1 }))
              (event_sent built parsed w.events))
        ∙ change_told built definition

    -- Setting the state of the one alarm of the tenant under an id sets it in the database, sends one
    -- event "alarm-updated" with the alarm's metrics, its sub alarms and both states, and sends one
    -- transition just if the state changes. The conditions: the alarm has metrics, whose dimensions
    -- can be read, and a sub alarm, whose expressions can be parsed, its definition is there, and the
    -- queues take every message.
    pub alarm_update_outcome :
        get_alarm_metrics id w.db ≡ (ok (row ∷ rows), w.db)
        → Builds id (row ∷ rows) ms
        → get_sub_alarms tenant_id id w.db ≡ (ok ((sa, definition_id) ∷ sas), w.db)
        → build_sub_alarm_event_msg parse (by_alarm [] (sa ∷ map (λ r. r.0) sas)) id ≡ ok msg
        → keep (is_mine tenant_id id w.db) w.db.alarm ≡ a ∷ []
        → get_alarm_definition tenant_id id changed ≡ (ok ad, changed)
        → alarm_update parse publisher tenant_id id new_state w ≡ (ok tt, final)
    unfolding alarm_update
    alarm_update_outcome metrics built subs parsed found definition =
        caught-ok (alarm_update_body parse publisher tenant_id id new_state) w _ tt
          (steps metrics built subs parsed found definition)
