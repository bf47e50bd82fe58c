-- ===== src/AlarmDefinitions/Actions.antt =====
-- The actions of an alarm definition, in
-- monasca/common/repositories/mysql/alarm_definitions_repository.py.
pub mod Laws
use monasca_api.Prelude.{
  ◌≡◌, Bool, true, false, not, ◌&&◌, String, List, [], ◌∷◌, ◌++◌, Option, none, some, seq, any,
  keep, append, if◌then◌else◌,
}
use monasca_api.Errors.{Result, ok, err, ◌>>=◌, ◌>>◌, python, repository_text}
use monasca_api.Database.{Db, AlarmAction}
use monasca_api.AlarmDefinitions.Queries.{action_for}

abbrev pub exists_notification : String → Db → Bool
exists_notification action db = any (λ n. seq n.id action) db.notification_method

abbrev pub missing_notification : String → String → String
missing_notification action alarm_state =
    append "Non-existent notification id "
      (append action (append " submitted for " (append alarm_state " notification action")))

-- The check that the notification is there, whichever tenant owns it.
abbrev pub checked_notification : String → String → Db → Result (Unit {0})
checked_notification action alarm_state db =
    if exists_notification action db
    then ok tt
    else err (repository_text (missing_notification action alarm_state))

-- `insert into alarm_action`; the key of the table in alarm.sql is the whole row.
unfoldable pub insert_action : String → String → String → Db → Result Db
insert_action id alarm_state action db =
    if any (λ a. action_for id alarm_state a && seq a.action_id action) db.alarm_action
    then err (python "IntegrityError")
    else ok (record db {
      alarm_action =
          db.alarm_action
          ++ record { alarm_definition_id = id; alarm_state = alarm_state; action_id = action }
            ∷ [];
    })

-- the loop of `_insert_into_alarm_action`
unfoldable pub insert_actions : String → String → List String → Db → Result Db
unfolding insert_action
insert_actions id alarm_state [] db = ok db
insert_actions id alarm_state (action ∷ actions) db = do
  checked_notification action alarm_state db
  db' ← insert_action id alarm_state action db
  insert_actions id alarm_state actions db'

-- `if actions is None: return`
unfoldable pub insert_into_alarm_action : String → Option (List String) → String → Db → Result Db
unfolding insert_actions
insert_into_alarm_action id none alarm_state db = ok db
insert_into_alarm_action id (some actions) alarm_state db = insert_actions id alarm_state actions db

unfoldable pub delete_alarm_actions : String → String → Db → Db
unfolding keep
delete_alarm_actions id alarm_action_name db = record db {
  alarm_action = keep (λ a. not (action_for id alarm_action_name a)) db.alarm_action;
}

-- `delete from alarm_action where alarm_definition_id = %s`
unfoldable pub delete_all_actions : String → Db → Db
unfolding keep
delete_all_actions id db = record db {
  alarm_action = keep (λ a. not (seq a.alarm_definition_id id)) db.alarm_action;
}
