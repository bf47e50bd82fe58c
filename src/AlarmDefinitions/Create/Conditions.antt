-- ===== src/AlarmDefinitions/Create/Conditions.antt =====
-- What the data of a creation that returns fulfil.
use monasca_api.Prelude.{
  ◌≡◌, refl, sym, ap, ◌∙◌, subst, ℕ, true, String, List, Option, seq, all, any, All, ◌⊎◌, inl, inr,
}
use monasca_api.Errors.{Exn, Result, ok, err, mysql_error, mysql_try_catch_block, atomically}
use monasca_api.Errors.Outcomes.{returned_steps}
use monasca_api.Database.{Db, AlarmDefinition}
use monasca_api.Expression.{SubExpr}
use monasca_api.AlarmDefinitions.Actions.{insert_into_alarm_action}
use monasca_api.AlarmDefinitions.Actions.Laws.{given, AreActions}
use monasca_api.AlarmDefinitions.Create.{
  insert_sub_exprs, insert_definition, created, create_body, create_alarm_definition,
}
use monasca_api.AlarmDefinitions.Create.RoundTrip.{IsWritable}
use monasca_api.AlarmDefinitions.Create.Inserted.{
  SameNotifications, let_through, given_inserted, sub_exprs_inserted,
}

module _ (now : ℕ) (fresh : ℕ → String) where
  module _ (tenant_id name expression description severity : String) (es : List SubExpr)
      (match_by : List String)
      (alarm_actions undetermined_actions ok_actions : Option (List String)) (db : Db) where
    abbrev new_definition : AlarmDefinition
    new_definition = created now fresh tenant_id name expression description severity match_by

    abbrev body : Result ((String × List SubExpr) × Db)
    body =
        create_body now fresh tenant_id name expression es description severity match_by
          alarm_actions undetermined_actions ok_actions db

    -- what a creation asks of its data
    abbrev pub Conditions : Type 0
    Conditions =
        All IsWritable es
        × AreActions alarm_actions db
        × AreActions undetermined_actions db
        × AreActions ok_actions db

    moved :
        (actions : Option (List String)) (db' : Db)
        → SameNotifications db db'
        → AreActions actions db'
        → AreActions actions db
    moved actions db' same (there, new) = (
      subst (λ rows. all (λ a. any (λ n. seq n.id a) rows) (given actions) ≡ true) same there,
      new,
    )

    body-Conditions : (r : (String × List SubExpr) × Db) → body ≡ ok r → Conditions
    unfolding create_body insert_definition
    body-Conditions r h =
        let (db0, inserted, h0) = returned_steps (insert_definition new_definition db) _ h in
        let (subs, read, h1) =
          returned_steps (insert_sub_exprs now fresh (fresh 0) 1 es db0) _ h0 in
        let (db1, a, h2) =
          returned_steps (insert_into_alarm_action (fresh 0) alarm_actions "ALARM" subs.1) _ h1 in
        let (db2, u, h3) =
          returned_steps
            (insert_into_alarm_action (fresh 0) undetermined_actions "UNDETERMINED" db1) _ h2 in
        let (db3, o, _) =
          returned_steps (insert_into_alarm_action (fresh 0) ok_actions "OK" db2) _ h3 in
        let (_, same) =
          let_through (any (λ q. seq q.id (fresh 0)) db.alarm_definition) _ _ db0 inserted in
        let (writable, same1) = sub_exprs_inserted now fresh (fresh 0) 1 es db0 subs read in
        let (are_alarm, same2) = given_inserted (fresh 0) "ALARM" alarm_actions subs.1 db1 a in
        let (are_undetermined, same3) =
          given_inserted (fresh 0) "UNDETERMINED" undetermined_actions db1 db2 u in
        let (are_ok, _) = given_inserted (fresh 0) "OK" ok_actions db2 db3 o in
        let to_subs = same1 ∙ ap (λ q. q.notification_method) (sym same) in
        (
          writable,
          moved alarm_actions subs.1 to_subs are_alarm,
          moved undetermined_actions db1 (same2 ∙ to_subs) are_undetermined,
          moved ok_actions db2 (same3 ∙ same2 ∙ to_subs) are_ok,
        )

    -- A creation can only return if the sub expressions have operators, and dimensions with a "=" and
    -- different names, and the actions of each state are ids of notifications and different: a
    -- repeated dimension and a repeated action are refused as well as a missing notification.
    -- A creation that is refused leaves every table as it was.
    pub create_conditions :
        let create =
          create_alarm_definition now fresh tenant_id name expression es description severity
            match_by alarm_actions undetermined_actions ok_actions db in
        ((e : Exn) × (create ≡ (err e, db)))
        ⊎ ((r : String × List SubExpr) × (db' : Db) × (create ≡ (ok r, db')) × Conditions)
    unfolding create_alarm_definition mysql_try_catch_block atomically
    create_conditions = cases body refl
      where
        cases :
            (q : Result ((String × List SubExpr) × Db))
            → body ≡ q
            → let create =
                create_alarm_definition now fresh tenant_id name expression es description severity
                  match_by alarm_actions undetermined_actions ok_actions db in
              ((e : Exn) × (create ≡ (err e, db)))
              ⊎ ((r : String × List SubExpr) × (db' : Db) × (create ≡ (ok r, db')) × Conditions)
        cases (err e) h =
            inl (mysql_error e, ap (λ q. mysql_try_catch_block (atomically λ s. q) db) h)
        cases (ok (r, db')) h = inr (
          r,
          db',
          ap (λ q. mysql_try_catch_block (atomically λ s. q) db) h,
          body-Conditions (r, db') h,
        )
