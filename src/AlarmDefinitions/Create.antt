-- ===== src/AlarmDefinitions/Create.antt =====
-- `create_alarm_definition` of
-- monasca/common/repositories/mysql/alarm_definitions_repository.py. `now` is the clock and `fresh n`
-- the n-th id that `generate_uuid` makes.
pub mod Dimensions
pub mod RoundTrip
pub mod Numbered
pub mod Inserted
pub mod Conditions
use monasca_api.Prelude.{
  ◌≡◌, ℕ, zero, suc, Bool, true, false, ◌&&◌, any, seq, String, List, [], ◌∷◌, ◌++◌, Option, none,
  some, split, join, upper, if◌then◌else◌,
}
use monasca_api.Errors.{Exec, Result, ok, err, ◌>>=◌, python, mysql_try_catch_block, atomically}
use monasca_api.Database.{Db, AlarmDefinition, SubAlarmDefinitionRow, DimensionRow}
use monasca_api.Expression.{
  SubExpr, normalized_func, normalized_metric_name, normalized_operator, period, periods,
  dimensions_as_list,
}
use monasca_api.AlarmDefinitions.Actions.{insert_into_alarm_action}

-- `parsed_dimension[0]` and `parsed_dimension[1]`
unfoldable pub parsed_dimension : List String → Result (String × String)
parsed_dimension (name ∷ value ∷ rest) = ok (name, value)
parsed_dimension _ = err (python "IndexError")

-- `insert into sub_alarm_definition_dimension`; the key of the table in alarm.sql is the id and the
-- name of the dimension.
unfoldable pub insert_dimension : String → String → String → Db → Result Db
insert_dimension sub_id name value db =
    if any (λ r. seq r.sub_alarm_definition_id sub_id && seq r.dimension_name name)
      db.sub_alarm_definition_dimension
    then err (python "IntegrityError")
    else ok (record db {
      sub_alarm_definition_dimension =
          db.sub_alarm_definition_dimension
          ++ record { sub_alarm_definition_id = sub_id; dimension_name = name; value = value } ∷ [];
    })

-- the loop over the dimensions of a sub expression
unfoldable pub insert_dimensions : String → List String → Db → Result Db
unfolding parsed_dimension insert_dimension
insert_dimensions sub_id [] db = ok db
insert_dimensions sub_id (dimension ∷ rest) db = do
  pair ← parsed_dimension (split b'=' dimension)
  db' ← insert_dimension sub_id pair.0 pair.1 db
  insert_dimensions sub_id rest db'

-- `None.encode` raises
unfoldable pub encoded : Option String → Result String
encoded none = err (python "AttributeError")
encoded (some s) = ok s

abbrev pub add_sub_row : SubAlarmDefinitionRow → Db → Db
add_sub_row row db = record db { sub_alarm_definition = db.sub_alarm_definition ++ row ∷ [] }

-- `insert into sub_alarm_definition` and `insert into alarm_definition`; the key of each is the id.
unfoldable pub insert_sub_row : SubAlarmDefinitionRow → Db → Result Db
insert_sub_row row db =
    if any (λ r. seq r.id row.id) db.sub_alarm_definition
    then err (python "IntegrityError")
    else ok (add_sub_row row db)

abbrev pub add_definition : AlarmDefinition → Db → Db
add_definition ad db = record db { alarm_definition = db.alarm_definition ++ ad ∷ [] }

unfoldable pub insert_definition : AlarmDefinition → Db → Result Db
insert_definition ad db =
    if any (λ r. seq r.id ad.id) db.alarm_definition
    then err (python "IntegrityError")
    else ok (add_definition ad db)

module _ (now : ℕ) (fresh : ℕ → String) where
  abbrev pub sub_row : String → String → SubExpr → String → SubAlarmDefinitionRow
  sub_row sub_id alarm_definition_id e operator = record {
    id = sub_id;
    alarm_definition_id = alarm_definition_id;
    function = normalized_func e;
    metric_name = normalized_metric_name e;
    operator = operator;
    threshold = e.threshold;
    period = period e;
    periods = periods e;
    created_at = now;
    updated_at = now;
  }

  -- The loop over the sub expressions, from the n-th id on. Each gets its id, as the events need it.
  unfoldable pub insert_sub_exprs : String → ℕ → List SubExpr → Db → Result (List SubExpr × Db)
  unfolding insert_sub_row insert_dimensions encoded
  insert_sub_exprs alarm_definition_id n [] db = ok ([], db)
  insert_sub_exprs alarm_definition_id n (e ∷ es) db = do
    operator ← encoded (normalized_operator e)
    db1 ← insert_sub_row (sub_row (fresh n) alarm_definition_id e operator) db
    db' ← insert_dimensions (fresh n) (dimensions_as_list e) db1
    rest ← insert_sub_exprs alarm_definition_id (suc n) es db'
    ok (record e { id = some (fresh n) } ∷ rest.0, rest.1)

  abbrev pub created : String → String → String → String → String → List String → AlarmDefinition
  created tenant_id name expression description severity match_by = record {
    id = fresh 0;
    tenant_id = tenant_id;
    name = name;
    description = description;
    expression = expression;
    severity = upper severity;
    match_by = join "," match_by;
    actions_enabled = 1;
    created_at = now;
    updated_at = now;
    deleted_at = none;
  }

  unfoldable pub create_body :
      String
      → String
      → String
      → List SubExpr
      → String
      → String
      → List String
      → Option (List String)
      → Option (List String)
      → Option (List String)
      → Db
      → Result ((String × List SubExpr) × Db)
  unfolding insert_definition insert_sub_exprs insert_into_alarm_action
  create_body tenant_id name expression sub_expr_list description severity match_by alarm_actions
        undetermined_actions ok_actions db =
      do
        db0 ← insert_definition (created tenant_id name expression description severity match_by) db
        subs ← insert_sub_exprs (fresh 0) 1 sub_expr_list db0
        db1 ← insert_into_alarm_action (fresh 0) alarm_actions "ALARM" subs.1
        db2 ← insert_into_alarm_action (fresh 0) undetermined_actions "UNDETERMINED" db1
        db3 ← insert_into_alarm_action (fresh 0) ok_actions "OK" db2
        ok ((fresh 0, subs.0), db3)

  -- Returns the id of the definition, and the sub expressions with theirs.
  unfoldable pub create_alarm_definition :
      String
      → String
      → String
      → List SubExpr
      → String
      → String
      → List String
      → Option (List String)
      → Option (List String)
      → Option (List String)
      → Exec Db (String × List SubExpr)
  unfolding create_body mysql_try_catch_block atomically
  create_alarm_definition tenant_id name expression sub_expr_list description severity match_by
        alarm_actions undetermined_actions ok_actions =
      mysql_try_catch_block (
        atomically (
          create_body tenant_id name expression sub_expr_list description severity match_by
            alarm_actions undetermined_actions ok_actions))
