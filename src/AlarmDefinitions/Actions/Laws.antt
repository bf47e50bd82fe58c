-- ===== src/AlarmDefinitions/Actions/Laws.antt =====
-- What the insertion of an alarm definition's actions does.
use monasca_api.Prelude.{
  ◌≡◌, refl, ap, true, false, ◌&&◌, String, List, [], ◌∷◌, ◌++◌, map, Option, none, some, seq, all,
  any, keep, arith, eq_refl, keep-append, listed,
}
use monasca_api.Errors.{ok}
use monasca_api.Database.{Db, AlarmAction}
use monasca_api.AlarmDefinitions.Keys.{new_to, new_to_step, and_iff}
use monasca_api.AlarmDefinitions.Queries.{action_for}
use monasca_api.AlarmDefinitions.Actions.{
  exists_notification, insert_action, insert_actions, insert_into_alarm_action,
}

abbrev pub action_row : String → String → String → AlarmAction
action_row id state action = record {
  alarm_definition_id = id;
  alarm_state = state;
  action_id = action;
}

abbrev pub with_actions : List AlarmAction → Db → Db
with_actions rows db = record db { alarm_action = db.alarm_action ++ rows }

++_assoc {ℓ} :
    {A : Type ℓ} (xs : List A) (y : A) (ys : List A) → (xs ++ y ∷ []) ++ ys ≡ xs ++ y ∷ ys
++_assoc [] y ys = refl
++_assoc (x ∷ xs) y ys = ground (arith, ++_assoc xs y ys)

pub ++_nil {ℓ} : {A : Type ℓ} (xs : List A) → xs ++ [] ≡ xs
++_nil [] = refl
++_nil (x ∷ xs) = ground (arith, ++_nil xs)

abbrev pub given : Option (List String) → List String
given none = []
given (some actions) = actions

module _ (id : String) where
  -- the actions of a state, read back from the table
  keep-same :
      (state : String) (l : List String)
      → map (λ a. a.action_id) (keep (action_for id state) (map (action_row id state) l)) ≡ l
  unfolding keep
  keep-same state [] = refl
  keep-same state (a ∷ l) = rw (eq_refl id, eq_refl state, keep-same state l)

  keep-other :
      (state state' : String) (l : List String)
      → seq state' state ≡ false
      → keep (action_for id state) (map (action_row id state') l) ≡ []
  unfolding keep
  keep-other state state' [] h = refl
  keep-other state state' (a ∷ l) h = rw (eq_refl id, h, keep-other state state' l h)

  pub keep-fresh :
      (state : String) (rows : List AlarmAction)
      → any (λ a. seq a.alarm_definition_id id) rows ≡ false
      → keep (action_for id state) rows ≡ []
  unfolding keep
  keep-fresh state [] h = refl
  keep-fresh state (a ∷ rows) h = ground (arith, keep-fresh state rows)

map-append {ℓ κ} :
    {A : Type ℓ} {B : Type κ} (f : A → B) (xs ys : List A) → map f (xs ++ ys) ≡ map f xs ++ map f ys
map-append f [] ys = refl
map-append f (x ∷ xs) ys = rw (map-append f xs ys)

-- the ids of a definition's actions for a state
abbrev pub ids_for : String → String → List AlarmAction → List String
ids_for id state rows = map (λ r. r.action_id) (keep (action_for id state) rows)

ids_for-append :
    (id state : String) (xs ys : List AlarmAction)
    → ids_for id state (xs ++ ys) ≡ ids_for id state xs ++ ids_for id state ys
ids_for-append id state xs ys = rw (
  keep-append (action_for id state) xs ys,
  map-append (λ r. r.action_id) (keep (action_for id state) xs) (keep (action_for id state) ys),
)

module _ (id state : String) where
  pub inserted_key :
      (action : String) (rows : List AlarmAction)
      → any (λ a. action_for id state a && seq a.action_id action) rows
        ≡ listed (ids_for id state rows) action
  unfolding keep
  inserted_key action [] = refl
  inserted_key action (a ∷ rows) = ground (arith, inserted_key action rows)

  pub ids_for-row :
      (rows : List AlarmAction) (action : String)
      → ids_for id state (rows ++ action_row id state action ∷ [])
        ≡ ids_for id state rows ++ action ∷ []
  ids_for-row rows action = rw (
    ids_for-append id state rows (action_row id state action ∷ []),
    keep-same id state (action ∷ []),
  )

  insert_action-new :
      (action : String) (db : Db)
      → listed (ids_for id state db.alarm_action) action ≡ false
      → insert_action id state action db ≡ ok (with_actions (action_row id state action ∷ []) db)
  unfolding insert_action
  insert_action-new action db h = rw (inserted_key action db.alarm_action, h)

  insert_actions_lem :
      (actions : List String) (db : Db)
      → all (λ a. exists_notification a db) actions ≡ true
      → new_to (ids_for id state db.alarm_action) actions ≡ true
      → insert_actions id state actions db
        ≡ ok (with_actions (map (action_row id state) actions) db)
  unfolding insert_actions
  insert_actions_lem [] db e n = rw (++_nil db.alarm_action)
  insert_actions_lem (a ∷ l) db e n =
      let db1 = with_actions (action_row id state a ∷ []) db in
      let (there, others) = and_iff (exists_notification a db) _ e in
      let (free, rest) = new_to_step (ids_for id state db.alarm_action) a l n in
      rw
        (
          there,
          insert_action-new a db free,
          insert_actions_lem l db1 others (rw (ids_for-row db.alarm_action a) rest),
        )
        (ap (λ rows. ok (record db { alarm_action = rows }))
          (++_assoc db.alarm_action (action_row id state a) (map (action_row id state) l)))

-- The actions are ids of notifications, and none is given twice.
abbrev pub AreActions : Option (List String) → Db → Type 0
AreActions actions db =
    (all (λ a. exists_notification a db) (given actions) ≡ true)
    × (new_to [] (given actions) ≡ true)

module _ (id : String) where
  -- The actions are not yet in the table.
  abbrev pub Free : String → Option (List String) → Db → Type 0
  Free state actions db = new_to (ids_for id state db.alarm_action) (given actions) ≡ true

  insert_given :
      (state : String) (actions : Option (List String)) (db : Db)
      → all (λ a. exists_notification a db) (given actions) ≡ true
      → Free state actions db
      → insert_into_alarm_action id actions state db
        ≡ ok (with_actions (map (action_row id state) (given actions)) db)
  unfolding insert_into_alarm_action
  insert_given state none db h n = rw (++_nil db.alarm_action)
  insert_given state (some actions) db h n = insert_actions_lem id state actions db h n

  ids_for-other :
      (state state' : String) (rows : List AlarmAction) (l : List String)
      → seq state' state ≡ false
      → ids_for id state (rows ++ map (action_row id state') l) ≡ ids_for id state rows
  ids_for-other state state' rows l h = rw (
    ids_for-append id state rows (map (action_row id state') l),
    keep-other id state state' l h,
    ++_nil (ids_for id state rows),
  )

  -- the three insertions, in the order of the source
  module _ (a u o : Option (List String)) (db : Db) where
    abbrev pub with_alarm : Db
    with_alarm = with_actions (map (action_row id "ALARM") (given a)) db

    abbrev pub with_undetermined : Db
    with_undetermined = with_actions (map (action_row id "UNDETERMINED") (given u)) with_alarm

    abbrev pub with_all : Db
    with_all = with_actions (map (action_row id "OK") (given o)) with_undetermined

    abbrev pub AllInserted : Type 0
    AllInserted =
        (insert_into_alarm_action id a "ALARM" db ≡ ok with_alarm)
        × (insert_into_alarm_action id u "UNDETERMINED" with_alarm ≡ ok with_undetermined)
        × (insert_into_alarm_action id o "OK" with_undetermined ≡ ok with_all)

    pub actions_inserted :
        AreActions a db
        → AreActions u db
        → AreActions o db
        → Free "ALARM" a db
        → Free "UNDETERMINED" u db
        → Free "OK" o db
        → AllInserted
    actions_inserted (ea, _) (eu, _) (eo, _) fa fu fo = (
      insert_given "ALARM" a db ea fa,
      insert_given "UNDETERMINED" u with_alarm eu
          (rw (ids_for-other "UNDETERMINED" "ALARM" db.alarm_action (given a) refl, fu)),
      insert_given "OK" o with_undetermined eo (
          rw (
            ids_for-other "OK" "UNDETERMINED" with_alarm.alarm_action (given u) refl,
            ids_for-other "OK" "ALARM" db.alarm_action (given a) refl,
            fo,
          )),
    )

-- The actions of a definition after the three insertions.
module _ (id : String) (rows : List AlarmAction) (a u o : List String) where
  abbrev pub inserted_actions : List AlarmAction
  inserted_actions =
      ((rows ++ map (action_row id "ALARM") a) ++ map (action_row id "UNDETERMINED") u)
      ++ map (action_row id "OK") o

  ids_for-inserted :
      (state : String)
      → ids_for id state inserted_actions
        ≡ ((ids_for id state rows ++ ids_for id state (map (action_row id "ALARM") a))
            ++ ids_for id state (map (action_row id "UNDETERMINED") u))
          ++ ids_for id state (map (action_row id "OK") o)
  ids_for-inserted state = rw (
    ids_for-append id state
        ((rows ++ map (action_row id "ALARM") a) ++ map (action_row id "UNDETERMINED") u)
        (map (action_row id "OK") o),
    ids_for-append id state (rows ++ map (action_row id "ALARM") a)
        (map (action_row id "UNDETERMINED") u),
    ids_for-append id state rows (map (action_row id "ALARM") a),
  )

  pub alarm-inserted : ids_for id "ALARM" inserted_actions ≡ ids_for id "ALARM" rows ++ a
  alarm-inserted = rw (
    ids_for-inserted "ALARM",
    keep-other id "ALARM" "UNDETERMINED" u refl,
    keep-other id "ALARM" "OK" o refl,
    keep-same id "ALARM" a,
    ++_nil (ids_for id "ALARM" rows ++ a),
    ++_nil (ids_for id "ALARM" rows ++ a),
  )

  pub undetermined-inserted :
      ids_for id "UNDETERMINED" inserted_actions ≡ ids_for id "UNDETERMINED" rows ++ u
  undetermined-inserted = rw (
    ids_for-inserted "UNDETERMINED",
    keep-other id "UNDETERMINED" "ALARM" a refl,
    keep-other id "UNDETERMINED" "OK" o refl,
    keep-same id "UNDETERMINED" u,
    ++_nil (ids_for id "UNDETERMINED" rows),
    ++_nil (ids_for id "UNDETERMINED" rows ++ u),
  )

  pub ok-inserted : ids_for id "OK" inserted_actions ≡ ids_for id "OK" rows ++ o
  ok-inserted = rw (
    ids_for-inserted "OK",
    keep-other id "OK" "ALARM" a refl,
    keep-other id "OK" "UNDETERMINED" u refl,
    keep-same id "OK" o,
    ++_nil (ids_for id "OK" rows),
    ++_nil (ids_for id "OK" rows),
  )
