-- ===== src/Alarming/Updates.antt =====
-- `_alarm_update` and `_alarm_delete` of monasca/v2/reference/alarms.py, over the database and the two
-- message queues.
pub mod Sent
use monasca_api.Prelude.{
  ◌≡◌, Bool, String, List, [], ◌∷◌, Option, none, some, map, seq, if◌then◌else◌,
}
use monasca_api.Errors.{
  Exec, Exn, Result, ok, err, does_not_exist, python, resource_try_catch_block,
}
use monasca_api.Errors.Steps.{returned, ◌>>=◌, ◌>>◌}
use monasca_api.Database.{Db, AlarmDefinition, SubAlarm}
use monasca_api.Expression.{SubExpr}
use monasca_api.Alarms.{
  MetricRow, get_alarm_metrics, get_sub_alarms, get_alarm_definition, update_alarm, delete_alarm,
}
use monasca_api.Messages.{Publisher}
use monasca_api.Alarming.{send_alarm_event, send_alarm_transitioned_event}

pub record World (Q : Type 0) : Type 0 where
  pub db : Db
  pub events : Q
  pub state_transitions : Q

module _ {Q : Type 0} where
  abbrev pub on_db : {A : Type 0} → Exec Db A → Exec (World Q) A
  on_db method w = let (r, db') = method w.db in (r, record w { db = db' })

  abbrev pub on_events : {A : Type 0} → Exec Q A → Exec (World Q) A
  on_events method w = let (r, q) = method w.events in (r, record w { events = q })

  abbrev pub on_transitions : {A : Type 0} → Exec Q A → Exec (World Q) A
  on_transitions method w =
      let (r, q) = method w.state_transitions in (r, record w { state_transitions = q })

-- `sub_alarm_rows[0]['alarm_definition_id']`
abbrev pub first_definition_id : List (SubAlarm × String) → Result String
first_definition_id [] = err (python "IndexError")
first_definition_id ((sa, id) ∷ rows) = ok id

module _ {Q : Type 0} (parse : String → Result (List SubExpr)) (publisher : Publisher Q) where
  -- the `else` of the `try`; without the definition nothing is sent
  abbrev pub send_transition :
      String
      → String
      → List MetricRow
      → String
      → String
      → Result AlarmDefinition
      → Exec (World Q) (Unit {0})
  send_transition tenant_id id rows old_state new_state (ok ad) w =
      on_transitions
        (send_alarm_transitioned_event parse publisher tenant_id id ad rows old_state new_state) w
  send_transition tenant_id id rows old_state new_state (err does_not_exist) w = (ok tt, w)
  send_transition tenant_id id rows old_state new_state (err e) w = (err e, w)

  abbrev pub tell_transition :
      String → String → List MetricRow → String → String → Exec (World Q) (Unit {0})
  tell_transition tenant_id id rows old_state new_state w =
      let (found, w') = on_db (get_alarm_definition tenant_id id) w in
      send_transition tenant_id id rows old_state new_state found w'

  -- `if old_state != new_state:`
  abbrev pub tell_change :
      String → String → List MetricRow → String → String → Exec (World Q) (Unit {0})
  tell_change tenant_id id rows old_state new_state w =
      if seq old_state new_state
      then (ok tt, w)
      else tell_transition tenant_id id rows old_state new_state w

  module _ (tenant_id id new_state : String) where
    -- the statements after each read of the database, with what it returned
    abbrev pub with_old_state :
        List MetricRow → List (SubAlarm × String) → String → Exec (World Q) (Unit {0})
    with_old_state metric_rows sub_alarm_rows old_state = do
      alarm_definition_id ← returned (first_definition_id sub_alarm_rows)
      on_events (
          send_alarm_event parse publisher "alarm-updated" tenant_id alarm_definition_id metric_rows
            (map (λ row. row.0) sub_alarm_rows) (some (old_state, new_state)))
      tell_change tenant_id id metric_rows old_state new_state

    abbrev pub with_sub_alarms :
        List MetricRow → List (SubAlarm × String) → Exec (World Q) (Unit {0})
    with_sub_alarms metric_rows sub_alarm_rows =
        on_db (update_alarm tenant_id id new_state) >>= with_old_state metric_rows sub_alarm_rows

    abbrev pub with_metrics : List MetricRow → Exec (World Q) (Unit {0})
    with_metrics metric_rows = on_db (get_sub_alarms tenant_id id) >>= with_sub_alarms metric_rows

    unfoldable pub alarm_update_body : Exec (World Q) (Unit {0})
    unfolding get_alarm_metrics get_sub_alarms update_alarm send_alarm_event get_alarm_definition
        send_alarm_transitioned_event
    alarm_update_body = on_db (get_alarm_metrics id) >>= with_metrics

  unfoldable pub alarm_update : String → String → String → Exec (World Q) (Unit {0})
  unfolding alarm_update_body resource_try_catch_block
  alarm_update tenant_id id new_state =
      resource_try_catch_block (alarm_update_body tenant_id id new_state)

  unfoldable pub alarm_delete : String → String → Exec (World Q) (Unit {0})
  unfolding get_alarm_metrics get_sub_alarms delete_alarm send_alarm_event resource_try_catch_block
  alarm_delete tenant_id id = resource_try_catch_block (do
    metric_rows ← on_db (get_alarm_metrics id)
    sub_alarm_rows ← on_db (get_sub_alarms tenant_id id)
    on_db (delete_alarm tenant_id id)
    alarm_definition_id ← returned (first_definition_id sub_alarm_rows)
    on_events (
        send_alarm_event parse publisher "alarm-deleted" tenant_id alarm_definition_id metric_rows
          (map (λ row. row.0) sub_alarm_rows) none))
