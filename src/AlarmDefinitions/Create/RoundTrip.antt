-- ===== src/AlarmDefinitions/Create/RoundTrip.antt =====
-- A created alarm definition is read back.
use monasca_api.Prelude.{
  ◌≡◌, refl, ◌∙◌, ℕ, suc, true, false, String, List, [], ◌∷◌, ◌++◌, map, Option, seq, any, keep,
  All, arith, eq_refl, join, upper, keep-concat_keep,
}
use monasca_api.Errors.{Result, ok}
use monasca_api.Errors.Outcomes.{Yields, Yields-bind, Yields-atomically}
use monasca_api.Database.{Db, AlarmDefinition, group_concat}
use monasca_api.Expression.{SubExpr, normalized_operator, dimensions_as_list}
use monasca_api.AlarmDefinitions.Queries.{
  DefinitionRow, is_live, base_row, definition_rows, get_alarm_definition,
}
use monasca_api.AlarmDefinitions.Actions.Laws.{
  given, AreActions, Free, with_all, actions_inserted, keep-fresh, alarm-inserted,
  undetermined-inserted, ok-inserted,
}
use monasca_api.AlarmDefinitions.Diff.Sets.{DistinctTexts}
use monasca_api.AlarmDefinitions.Keys.{new_to}
use monasca_api.AlarmDefinitions.Create.Dimensions.{
  SameView, Unused, Wrote, Wrote-trans, Wrote-sub, insert_sub_row-new, Parses, name_of,
  names_for-Unused, insert_dimensions-Wrote, All-Unused,
}
use monasca_api.AlarmDefinitions.Create.{
  insert_dimensions, encoded, sub_row, add_sub_row, insert_definition, insert_sub_exprs, created,
  add_definition, create_body, create_alarm_definition,
}

insert_definition-new :
    (ad : AlarmDefinition) (db : Db)
    → any (λ r. seq r.id ad.id) db.alarm_definition ≡ false
    → insert_definition ad db ≡ ok (add_definition ad db)
unfolding insert_definition
insert_definition-new ad db h = rw (h)

-- The expression has an operator, and dimensions that have a "=" and different names.
abbrev pub IsWritable : SubExpr → Type 0
IsWritable e =
    Yields (λ _. Unit {0}) (encoded (normalized_operator e))
    × All Parses (dimensions_as_list e)
    × (new_to [] (map name_of (dimensions_as_list e)) ≡ true)

module _ (now : ℕ) (fresh : ℕ → String) where
  -- the ids that the sub expressions get, from the n-th on
  abbrev pub fresh_ids : ℕ → List SubExpr → List String
  fresh_ids n [] = []
  fresh_ids n (e ∷ es) = fresh n ∷ fresh_ids (suc n) es

  -- The ids are different, and no sub alarm definition or dimension is stored under one of them.
  abbrev pub AreFresh : List String → Db → Type 0
  AreFresh ids db = DistinctTexts ids × All (λ i. Unused i db) ids

  insert_sub_exprs-SameView :
      (id : String) (n : ℕ) (es : List SubExpr) (db : Db)
      → All IsWritable es
      → AreFresh (fresh_ids n es) db
      → Yields (λ r. SameView db r.1) (insert_sub_exprs now fresh id n es db)
  unfolding insert_sub_exprs
  insert_sub_exprs-SameView id n [] db h f = record {
    notifications = refl;
    definitions = refl;
    actions = refl;
  }
  insert_sub_exprs-SameView id n (e ∷ es) db ((o, ds, names), h) ((ne, distinct), (u, us)) =
      Yields-bind (λ _. Unit {0}) (λ r. SameView db r.1) (encoded (normalized_operator e)) _ o
        λ operator _.
          let row = sub_row now fresh (fresh n) id e operator in
          let db1 = add_sub_row row db in
          rw (insert_sub_row-new row db u.1) (
            Yields-bind (Wrote (fresh n) db1) (λ r. SameView db r.1)
              (insert_dimensions (fresh n) (dimensions_as_list e) db1) _
              (insert_dimensions-Wrote (fresh n) (dimensions_as_list e) db1 ds
                (rw (names_for-Unused (fresh n) db.sub_alarm_definition_dimension u.0, names)))
              λ db' w1.
                let w = Wrote-trans (fresh n) db db1 db' (Wrote-sub row db) w1 in
                Yields-bind (λ r. SameView db' r.1) (λ r. SameView db r.1)
                  (insert_sub_exprs now fresh id (suc n) es db') _
                  (insert_sub_exprs-SameView id (suc n) es db' h
                    (distinct, All-Unused (fresh n) db db' (fresh_ids (suc n) es) w ne us))
                  λ r v. record {
                    notifications = v.notifications ∙ w.same.notifications;
                    definitions = v.definitions ∙ w.same.definitions;
                    actions = v.actions ∙ w.same.actions;
                  })

  module _ (tenant_id name expression description severity : String) (sub_expr_list : List SubExpr)
      (match_by : List String)
      (alarm_actions undetermined_actions ok_actions : Option (List String)) where
    abbrev create : Db → Result (String × List SubExpr) × Db
    create =
        create_alarm_definition now fresh tenant_id name expression sub_expr_list description
          severity match_by alarm_actions undetermined_actions ok_actions

    abbrev new_definition : AlarmDefinition
    new_definition = created now fresh tenant_id name expression description severity match_by

    -- what a read shows of it
    abbrev pub view : DefinitionRow
    view = record {
      id = fresh 0;
      name = name;
      description = description;
      expression = expression;
      match_by = join "," match_by;
      severity = upper severity;
      actions_enabled = 1;
      alarm_actions = group_concat (given alarm_actions);
      ok_actions = group_concat (given ok_actions);
      undetermined_actions = group_concat (given undetermined_actions);
    }

    AreActions-same :
        (actions : Option (List String)) (db db' : Db)
        → db'.notification_method ≡ db.notification_method
        → AreActions actions db
        → AreActions actions db'
    AreActions-same actions db db' e (h, n) = (rw (e, h), n)

    -- the actions of a definition that has none yet
    Free-new :
        (state : String) (actions : Option (List String)) (db db' : Db)
        → db'.alarm_action ≡ db.alarm_action
        → any (λ a. seq a.alarm_definition_id (fresh 0)) db.alarm_action ≡ false
        → AreActions actions db
        → Free (fresh 0) state actions db'
    Free-new state actions db db' e k (_, n) =
        rw (e, keep-fresh (fresh 0) state db.alarm_action k, n)

    abbrev final : Db → Db
    final db = with_all (fresh 0) alarm_actions undetermined_actions ok_actions db

    none_live :
        (ads : List AlarmDefinition)
        → any (λ ad. seq ad.id (fresh 0)) ads ≡ false
        → keep (is_live tenant_id (fresh 0)) ads ≡ []
    unfolding keep
    none_live [] h = refl
    none_live (ad ∷ ads) h = ground (arith, none_live ads)

    just_new :
        (ads : List AlarmDefinition)
        → any (λ ad. seq ad.id (fresh 0)) ads ≡ false
        → keep (is_live tenant_id (fresh 0)) (ads ++ new_definition ∷ []) ≡ new_definition ∷ []
    just_new ads h = rw (
      keep-concat_keep (is_live tenant_id (fresh 0)) ads new_definition
          (rw (eq_refl tenant_id, eq_refl (fresh 0))),
      none_live ads h,
    )

    new_row :
        (db : Db)
        → any (λ a. seq a.alarm_definition_id (fresh 0)) db.alarm_action ≡ false
        → base_row (final db) new_definition ≡ view
    unfolding base_row
    new_row db h = rw (
      alarm-inserted (fresh 0) db.alarm_action (given alarm_actions) (given undetermined_actions)
          (given ok_actions),
      keep-fresh (fresh 0) "ALARM" db.alarm_action h,
      undetermined-inserted (fresh 0) db.alarm_action (given alarm_actions)
          (given undetermined_actions) (given ok_actions),
      keep-fresh (fresh 0) "UNDETERMINED" db.alarm_action h,
      ok-inserted (fresh 0) db.alarm_action (given alarm_actions) (given undetermined_actions)
          (given ok_actions),
      keep-fresh (fresh 0) "OK" db.alarm_action h,
    )

    rows_read :
        (db db' : Db)
        → SameView (add_definition new_definition db) db'
        → any (λ ad. seq ad.id (fresh 0)) db.alarm_definition ≡ false
        → any (λ a. seq a.alarm_definition_id (fresh 0)) db.alarm_action ≡ false
        → definition_rows tenant_id (fresh 0) (final db') ≡ view ∷ []
    unfolding definition_rows
    rows_read db db' v h k =
        rw (v.definitions, just_new db.alarm_definition h, new_row db' (rw (v.actions, k)))

    read_back :
        (db db' : Db)
        → SameView (add_definition new_definition db) db'
        → any (λ ad. seq ad.id (fresh 0)) db.alarm_definition ≡ false
        → any (λ a. seq a.alarm_definition_id (fresh 0)) db.alarm_action ≡ false
        → (get_alarm_definition tenant_id (fresh 0) (final db')).0 ≡ ok view
    unfolding get_alarm_definition
    read_back db db' v h k = rw (rows_read db db' v h k)

    -- Creating an alarm definition under an id that is new, from sub expressions with operators and
    -- with dimensions that have a "=" and, in each sub expression, different names, with actions that
    -- all are ids of notifications and of which none is given twice for a state, returns that id, if
    -- the ids generated for the sub expressions are different and new to its tables. A read of it
    -- then shows the name, the expression and the description as given, the severity in upper case,
    -- the match-by list joined, actions enabled, and the actions of each state.
    pub create-get :
        (db : Db)
        → All IsWritable sub_expr_list
        → AreFresh (fresh_ids 1 sub_expr_list) db
        → AreActions alarm_actions db
        → AreActions undetermined_actions db
        → AreActions ok_actions db
        → any (λ ad. seq ad.id (fresh 0)) db.alarm_definition ≡ false
        → any (λ a. seq a.alarm_definition_id (fresh 0)) db.alarm_action ≡ false
        → Yields
            (λ r.
              (r.0 ≡ fresh 0)
              × ((get_alarm_definition tenant_id (fresh 0) (create db).1).0 ≡ ok view))
            (create db).0
    unfolding create_alarm_definition create_body
    create-get db w f ea eu eo h k =
        Yields-atomically
          (λ r db'. (r.0 ≡ fresh 0) × ((get_alarm_definition tenant_id (fresh 0) db').0 ≡ ok view))
          (create_body now fresh tenant_id name expression sub_expr_list description severity
            match_by alarm_actions undetermined_actions ok_actions)
          db
          (rw (insert_definition-new new_definition db h) (
            Yields-bind (λ r. SameView (add_definition new_definition db) r.1)
              (λ r.
                (r.0.0 ≡ fresh 0) × ((get_alarm_definition tenant_id (fresh 0) r.1).0 ≡ ok view))
              (insert_sub_exprs now fresh (fresh 0) 1 sub_expr_list
                (add_definition new_definition db))
              _
              (insert_sub_exprs-SameView (fresh 0) 1 sub_expr_list
                (add_definition new_definition db) w f)
              λ r v.
                let (i, j, l) =
                  actions_inserted (fresh 0) alarm_actions undetermined_actions ok_actions r.1
                    (AreActions-same alarm_actions db r.1 v.notifications ea)
                    (AreActions-same undetermined_actions db r.1 v.notifications eu)
                    (AreActions-same ok_actions db r.1 v.notifications eo)
                    (Free-new "ALARM" alarm_actions db r.1 v.actions k ea)
                    (Free-new "UNDETERMINED" undetermined_actions db r.1 v.actions k eu)
                    (Free-new "OK" ok_actions db r.1 v.actions k eo) in
                rw (i, j, l) (refl, read_back db r.1 v h k)))
