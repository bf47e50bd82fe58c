-- ===== src/AlarmDefinitions/Update/Actions.antt =====
-- The actions that an update leaves.
use monasca_api.Prelude.{
  ◌≡◌, refl, Bool, true, false, not, String, List, [], ◌∷◌, ◌++◌, Option, none, some, seq, keep,
  arith, eq_iff, if◌then◌else◌,
}
use monasca_api.Database.{Db, AlarmAction}
use monasca_api.AlarmDefinitions.Keys.{new_to}
use monasca_api.AlarmDefinitions.Queries.{action_for}
use monasca_api.AlarmDefinitions.Actions.{delete_alarm_actions, delete_all_actions}
use monasca_api.AlarmDefinitions.Actions.Laws.{++_nil, given, ids_for}
use monasca_api.AlarmDefinitions.Update.{Changes, delete_given, delete_old_actions}

-- The given actions replace those of the state. Without any, a patch keeps them and a put drops them.
abbrev pub replaced : Bool → Option (List String) → List String → List String
replaced patch none old = if patch then old else []
replaced patch (some actions) old = actions

abbrev pub left : Bool → Option (List String) → List String → List String
left patch none old = if patch then old else []
left patch (some actions) old = []

pub left-given :
    (patch : Bool) (actions : Option (List String)) (old : List String)
    → left patch actions old ++ given actions ≡ replaced patch actions old
left-given patch (some actions) old = refl
left-given patch none old = ++_nil (if patch then old else [])

left_put : (actions : Option (List String)) (old : List String) → [] ≡ left false actions old
left_put none old = refl
left_put (some actions) old = refl

-- there is room for the given actions
pub new_to-left :
    (patch : Bool) (actions : Option (List String)) (old : List String)
    → new_to [] (given actions) ≡ true
    → new_to (left patch actions old) (given actions) ≡ true
new_to-left patch none old h = refl
new_to-left patch (some actions) old h = h

module _ (id : String) where
  none_for_state :
      (state : String) (rows : List AlarmAction)
      → ids_for id state (keep (λ a. not (action_for id state a)) rows) ≡ []
  unfolding keep
  none_for_state state [] = refl
  none_for_state state (a ∷ rows) = ground (arith, none_for_state state rows)

  none_at_all :
      (state : String) (rows : List AlarmAction)
      → ids_for id state (keep (λ a. not (seq a.alarm_definition_id id)) rows) ≡ []
  unfolding keep
  none_at_all state [] = refl
  none_at_all state (a ∷ rows) = ground (arith, none_at_all state rows)

  kept_for_other :
      (state state' : String) (rows : List AlarmAction)
      → seq state state' ≡ false
      → ids_for id state (keep (λ a. not (action_for id state' a)) rows) ≡ ids_for id state rows
  unfolding keep
  kept_for_other state state' [] h = refl
  kept_for_other state state' (a ∷ rows) h = ground (
    arith,
    eq_iff a.alarm_state state,
    eq_iff a.alarm_state state',
    eq_iff state state',
    kept_for_other state state' rows h,
  )

  delete_given-same :
      (state : String) (actions : Option (List String)) (db : Db)
      → ids_for id state (delete_given id actions state db).alarm_action
        ≡ left true actions (ids_for id state db.alarm_action)
  unfolding delete_alarm_actions
  delete_given-same state none db = refl
  delete_given-same state (some actions) db = none_for_state state db.alarm_action

  delete_given-other :
      (state state' : String) (actions : Option (List String)) (db : Db)
      → seq state state' ≡ false
      → ids_for id state (delete_given id actions state' db).alarm_action
        ≡ ids_for id state db.alarm_action
  unfolding delete_alarm_actions
  delete_given-other state state' none db h = refl
  delete_given-other state state' (some actions) db h =
      kept_for_other state state' db.alarm_action h

  delete_given-notifications :
      (state : String) (actions : Option (List String)) (db : Db)
      → (delete_given id actions state db).notification_method ≡ db.notification_method
  unfolding delete_alarm_actions
  delete_given-notifications state none db = refl
  delete_given-notifications state (some actions) db = refl

  delete_given-definitions :
      (state : String) (actions : Option (List String)) (db : Db)
      → (delete_given id actions state db).alarm_definition ≡ db.alarm_definition
  unfolding delete_alarm_actions
  delete_given-definitions state none db = refl
  delete_given-definitions state (some actions) db = refl

  module _ (changes : Changes) (db : Db) where
    abbrev without_alarm : Db
    without_alarm = delete_given id changes.alarm_actions "ALARM" db

    abbrev without_ok : Db
    without_ok = delete_given id changes.ok_actions "OK" without_alarm

    pub delete_old_actions-notifications :
        (patch : Bool)
        → (delete_old_actions patch id changes db).notification_method ≡ db.notification_method
    unfolding delete_old_actions delete_all_actions
    delete_old_actions-notifications true = rw (
      delete_given-notifications "UNDETERMINED" changes.undetermined_actions without_ok,
      delete_given-notifications "OK" changes.ok_actions without_alarm,
      delete_given-notifications "ALARM" changes.alarm_actions db,
    )
    delete_old_actions-notifications false = refl

    pub delete_old_actions-definitions :
        (patch : Bool)
        → (delete_old_actions patch id changes db).alarm_definition ≡ db.alarm_definition
    unfolding delete_old_actions delete_all_actions
    delete_old_actions-definitions true = rw (
      delete_given-definitions "UNDETERMINED" changes.undetermined_actions without_ok,
      delete_given-definitions "OK" changes.ok_actions without_alarm,
      delete_given-definitions "ALARM" changes.alarm_actions db,
    )
    delete_old_actions-definitions false = refl

    pub alarm-left :
        (patch : Bool)
        → ids_for id "ALARM" (delete_old_actions patch id changes db).alarm_action
          ≡ left patch changes.alarm_actions (ids_for id "ALARM" db.alarm_action)
    unfolding delete_old_actions delete_all_actions
    alarm-left true = rw (
      delete_given-other "ALARM" "UNDETERMINED" changes.undetermined_actions without_ok refl,
      delete_given-other "ALARM" "OK" changes.ok_actions without_alarm refl,
      delete_given-same "ALARM" changes.alarm_actions db,
    )
    alarm-left false =
        rw (none_at_all "ALARM" db.alarm_action)
          (left_put changes.alarm_actions (ids_for id "ALARM" db.alarm_action))

    pub ok-left :
        (patch : Bool)
        → ids_for id "OK" (delete_old_actions patch id changes db).alarm_action
          ≡ left patch changes.ok_actions (ids_for id "OK" db.alarm_action)
    unfolding delete_old_actions delete_all_actions
    ok-left true = rw (
      delete_given-other "OK" "UNDETERMINED" changes.undetermined_actions without_ok refl,
      delete_given-same "OK" changes.ok_actions without_alarm,
      delete_given-other "OK" "ALARM" changes.alarm_actions db refl,
    )
    ok-left false =
        rw (none_at_all "OK" db.alarm_action)
          (left_put changes.ok_actions (ids_for id "OK" db.alarm_action))

    pub undetermined-left :
        (patch : Bool)
        → ids_for id "UNDETERMINED" (delete_old_actions patch id changes db).alarm_action
          ≡ left patch changes.undetermined_actions (ids_for id "UNDETERMINED" db.alarm_action)
    unfolding delete_old_actions delete_all_actions
    undetermined-left true = rw (
      delete_given-same "UNDETERMINED" changes.undetermined_actions without_ok,
      delete_given-other "UNDETERMINED" "OK" changes.ok_actions without_alarm refl,
      delete_given-other "UNDETERMINED" "ALARM" changes.alarm_actions db refl,
    )
    undetermined-left false =
        rw (none_at_all "UNDETERMINED" db.alarm_action)
          (left_put changes.undetermined_actions (ids_for id "UNDETERMINED" db.alarm_action))
