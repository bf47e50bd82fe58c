-- ===== src/AlarmDefinitions/Create/Inserted.antt =====
-- What rows that were inserted for an alarm definition fulfil.
use monasca_api.Prelude.{
  ◌≡◌, refl, sym, ap, ◌∙◌, subst, ℕ, suc, Bool, true, false, ◌&&◌, String, List, [], ◌∷◌, ◌++◌, map,
  Option, none, some, seq, all, any, All, split, listed, if◌then◌else◌, arith,
}
use monasca_api.Errors.{Exn, Result, ok, err}
use monasca_api.Errors.Outcomes.{Yields, returned_steps, checked_step}
use monasca_api.Database.{Db}
use monasca_api.Expression.{SubExpr, normalized_operator, dimensions_as_list}
use monasca_api.AlarmDefinitions.Keys.{new_to, new_to_cons, new_to_nothing}
use monasca_api.AlarmDefinitions.Queries.{action_for}
use monasca_api.AlarmDefinitions.Actions.{
  exists_notification, checked_notification, insert_action, insert_actions,
  insert_into_alarm_action,
}
use monasca_api.AlarmDefinitions.Actions.Laws.{given, AreActions, ids_for}
use monasca_api.AlarmDefinitions.Actions.Laws
use monasca_api.AlarmDefinitions.Create.{
  parsed_dimension, insert_dimension, insert_dimensions, encoded, insert_sub_row, sub_row,
  insert_sub_exprs,
}
use monasca_api.AlarmDefinitions.Create.Dimensions.{
  Parses, name_of, names_for, names_for-row, inserted_key, parsed_name,
}
use monasca_api.AlarmDefinitions.Create.RoundTrip.{IsWritable}

-- a guard that let a computation through
pub let_through :
    {A : Type 0} (b : Bool) (e : Exn) (a a' : A)
    → (if b then err e else ok a) ≡ ok a'
    → (b ≡ false) × (a ≡ a')
let_through true e a a' h = absurd (cc)
let_through false e a a' h = (refl, cc)

returned-Yields : {A : Type 0} (r : Result A) (a : A) → r ≡ ok a → Yields (λ _. Unit {0}) r
returned-Yields r a h = subst (Yields (λ _. Unit {0})) (sym h) tt

-- the notifications are as before
abbrev pub SameNotifications : Db → Db → Type 0
SameNotifications db db' = db'.notification_method ≡ db.notification_method

same_value : {A : Type 0} (a a' : A) → ok a ≡ ok a' → a' ≡ a
same_value a a' h = cc

same_database : (db db' : Db) → ok db ≡ ok db' → SameNotifications db db'
same_database db db' h = ap (λ q. q.notification_method) (same_value db db' h)

module _ (id : String) where
  dimension_inserted :
      (name value : String) (db db' : Db)
      → insert_dimension id name value db ≡ ok db'
      → (listed (names_for id db.sub_alarm_definition_dimension) name ≡ false)
        × (names_for id db'.sub_alarm_definition_dimension
            ≡ names_for id db.sub_alarm_definition_dimension ++ name ∷ [])
        × SameNotifications db db'
  unfolding insert_dimension
  dimension_inserted name value db db' h =
      let rows = db.sub_alarm_definition_dimension in
      let (free, same) =
        let_through (any (λ r. seq r.sub_alarm_definition_id id && seq r.dimension_name name) rows)
          _ _ db' h in
      (
        sym (inserted_key id name rows) ∙ free,
        ap (λ q. names_for id q.sub_alarm_definition_dimension) (sym same)
            ∙ names_for-row id rows name value,
        ap (λ q. q.notification_method) (sym same),
      )

  dimensions_inserted :
      (ds : List String) (db db' : Db)
      → insert_dimensions id ds db ≡ ok db'
      → All Parses ds
        × (new_to (names_for id db.sub_alarm_definition_dimension) (map name_of ds) ≡ true)
        × SameNotifications db db'
  unfolding insert_dimensions
  dimensions_inserted [] db db' h = (tt, refl, same_database db db' h)
  dimensions_inserted (d ∷ ds) db db' h =
      let (pair, parsed, h1) = returned_steps (parsed_dimension (split b'=' d)) _ h in
      let (db1, inserted, h2) = returned_steps (insert_dimension id pair.0 pair.1 db) _ h1 in
      let (free, names, same) = dimension_inserted pair.0 pair.1 db db1 inserted in
      let (parse, new, same') = dimensions_inserted ds db1 db' h2 in
      let parses = returned-Yields (parsed_dimension (split b'=' d)) pair parsed in
      let its_name : pair.0 ≡ name_of d =
        subst (Yields (λ pair. pair.0 ≡ name_of d)) parsed (parsed_name (split b'=' d) parses) in
      (
        (parses, parse),
        subst
            (λ x.
              new_to (names_for id db.sub_alarm_definition_dimension) (x ∷ map name_of ds) ≡ true)
            its_name
            (new_to_cons (names_for id db.sub_alarm_definition_dimension) pair.0 (map name_of ds)
              free (subst (λ used. new_to used (map name_of ds) ≡ true) names new)),
        same' ∙ same,
      )

  module _ (state : String) where
    checked :
        (action : String) (db : Db)
        → checked_notification action state db ≡ ok tt
        → exists_notification action db ≡ true
    checked action db h = ground arith

    action_inserted :
        (action : String) (db db' : Db)
        → insert_action id state action db ≡ ok db'
        → (listed (ids_for id state db.alarm_action) action ≡ false)
          × (ids_for id state db'.alarm_action ≡ ids_for id state db.alarm_action ++ action ∷ [])
          × SameNotifications db db'
    unfolding insert_action
    action_inserted action db db' h =
        let (free, same) =
          let_through (any (λ a. action_for id state a && seq a.action_id action) db.alarm_action) _
            _ db' h in
        (
          sym (Laws.inserted_key id state action db.alarm_action) ∙ free,
          ap (λ q. ids_for id state q.alarm_action) (sym same)
              ∙ Laws.ids_for-row id state db.alarm_action action,
          ap (λ q. q.notification_method) (sym same),
        )

    actions_inserted :
        (actions : List String) (db db' : Db)
        → insert_actions id state actions db ≡ ok db'
        → (all (λ a. exists_notification a db) actions ≡ true)
          × (new_to (ids_for id state db.alarm_action) actions ≡ true)
          × SameNotifications db db'
    unfolding insert_actions
    actions_inserted [] db db' h = (refl, refl, same_database db db' h)
    actions_inserted (a ∷ actions) db db' h =
        let (there, h1) = checked_step (checked_notification a state db) _ db' h in
        let (db1, inserted, h2) = returned_steps (insert_action id state a db) _ h1 in
        let (free, ids, same) = action_inserted a db db1 inserted in
        let (others, new, same') = actions_inserted actions db1 db' h2 in
        let all_there : all (λ a. exists_notification a db) actions ≡ true =
          subst (λ rows. all (λ a. any (λ n. seq n.id a) rows) actions ≡ true) same others in
        (
          rw (checked a db there, all_there),
          new_to_cons (ids_for id state db.alarm_action) a actions free
              (subst (λ used. new_to used actions ≡ true) ids new),
          same' ∙ same,
        )

    pub given_inserted :
        (actions : Option (List String)) (db db' : Db)
        → insert_into_alarm_action id actions state db ≡ ok db'
        → AreActions actions db × SameNotifications db db'
    unfolding insert_into_alarm_action
    given_inserted none db db' h = ((refl, refl), same_database db db' h)
    given_inserted (some actions) db db' h =
        let (there, new, same) = actions_inserted actions db db' h in
        ((there, new_to_nothing (ids_for id state db.alarm_action) actions new), same)

module _ (now : ℕ) (fresh : ℕ → String) where
  pub sub_exprs_inserted :
      (id : String) (n : ℕ) (es : List SubExpr) (db : Db) (r : List SubExpr × Db)
      → insert_sub_exprs now fresh id n es db ≡ ok r
      → All IsWritable es × SameNotifications db r.1
  unfolding insert_sub_exprs insert_sub_row
  sub_exprs_inserted id n [] db r h = (tt, ap (λ q. q.1.notification_method) (same_value _ r h))
  sub_exprs_inserted id n (e ∷ es) db r h =
      let (operator, has, h1) = returned_steps (encoded (normalized_operator e)) _ h in
      let (db1, inserted, h2) =
        returned_steps (insert_sub_row (sub_row now fresh (fresh n) id e operator) db) _ h1 in
      let (db2, written, h3) =
        returned_steps (insert_dimensions (fresh n) (dimensions_as_list e) db1) _ h2 in
      let (rest, others, h4) = returned_steps (insert_sub_exprs now fresh id (suc n) es db2) _ h3 in
      let (_, same) =
        let_through (any (λ q. seq q.id (fresh n)) db.sub_alarm_definition) _ _ db1 inserted in
      let (parse, names, same1) =
        dimensions_inserted (fresh n) (dimensions_as_list e) db1 db2 written in
      let (writable, same2) = sub_exprs_inserted id (suc n) es db2 rest others in
      (
        (
          (
            returned-Yields (encoded (normalized_operator e)) operator has,
            parse,
            new_to_nothing (names_for (fresh n) db1.sub_alarm_definition_dimension)
                (map name_of (dimensions_as_list e)) names,
          ),
          writable,
        ),
        ap (λ q. q.1.notification_method) (same_value _ r h4)
            ∙ same2
            ∙ same1
            ∙ ap (λ q. q.notification_method) (sym same),
      )
