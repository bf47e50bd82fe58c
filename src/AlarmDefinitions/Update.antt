-- ===== src/AlarmDefinitions/Update.antt =====
-- `update_or_patch_alarm_definition` of
-- monasca/common/repositories/mysql/alarm_definitions_repository.py. `now` is the clock, `fresh n`
-- the n-th id that `generate_uuid` makes, `float_code` the number that `float` reads, and `literal`
-- the text that the database driver writes for a `SubAlarmDefinition` passed as a parameter.
pub mod Actions
pub mod Laws
pub mod Named
use monasca_api.Prelude.{
  ◌≡◌, ℕ, Bool, true, false, not, ◌&&◌, String, List, [], ◌∷◌, ◌++◌, map, Option, none, some, Dict,
  seq, any, keep, join, if◌then◌else◌,
}
use monasca_api.Errors.{
  Exec, Exn, Result, ok, err, ◌>>=◌, python, does_not_exist, mysql_try_catch_block, atomically,
}
use monasca_api.Database.{Db, AlarmDefinition, SubAlarmDefinitionRow, DimensionRow}
use monasca_api.Expression.{SubExpr}
use monasca_api.SubAlarm.{SubAlarmDefinition, of_row, of_sub_expr, equals, same_key_fields}
use monasca_api.AlarmDefinitions.Actions.{
  insert_into_alarm_action, delete_alarm_actions, delete_all_actions,
}
use monasca_api.AlarmDefinitions.Create.{encoded, insert_sub_row, insert_dimension}
use monasca_api.AlarmDefinitions.Diff.{Diff, diff}
use monasca_api.AlarmDefinitions.Queries.{DefinitionRow, definition_rows, sub_definition_rows}

-- What the caller asks for; `none` is `None`, which keeps what is there.
pub record Changes : Type 0 where
  pub name : String
  pub expression : String
  pub sub_expr_list : List SubExpr
  pub actions_enabled : Bool
  pub description : Option String
  pub alarm_actions : Option (List String)
  pub ok_actions : Option (List String)
  pub undetermined_actions : Option (List String)
  pub match_by : Option (List String)
  pub severity : Option String

abbrev pub text_or_null : Option String → String
text_or_null none = ""
text_or_null (some s) = s

unfoldable pub read_rows :
    List (SubAlarmDefinitionRow × Option String) → Result (List SubAlarmDefinition)
unfolding of_row
read_rows [] = ok []
read_rows (row ∷ rows) = do
  sad ← of_row row.0 (text_or_null row.1)
  sads ← read_rows rows
  ok (sad ∷ sads)

unfoldable pub read_sub_exprs : String → List SubExpr → Result (List SubAlarmDefinition)
unfolding of_sub_expr
read_sub_exprs alarm_definition_id [] = ok []
read_sub_exprs alarm_definition_id (e ∷ es) = do
  sad ← of_sub_expr alarm_definition_id e
  sads ← read_sub_exprs alarm_definition_id es
  ok (sad ∷ sads)

abbrev pub with_id : String → SubAlarmDefinition → SubAlarmDefinition
with_id id sad = record sad { id = id }

abbrev pub or_original : String → Option String → String
or_original original none = original
or_original original (some s) = s

abbrev pub joined_match_by : Option (List String) → Option String
joined_match_by none = none
joined_match_by (some match_by) = some (join "," match_by)

abbrev pub flag : Bool → ℕ
flag b = if b then 1 else 0

-- the row that `update alarm_definition set …` leaves; `original` is the row selected before
abbrev pub updated_definition : ℕ → DefinitionRow → Changes → AlarmDefinition → AlarmDefinition
updated_definition now original changes ad = record ad {
  name = changes.name;
  description = or_original original.description changes.description;
  expression = changes.expression;
  match_by = or_original original.match_by (joined_match_by changes.match_by);
  severity = or_original original.severity changes.severity;
  actions_enabled = flag changes.actions_enabled;
  updated_at = now;
}

unfoldable pub update_rows :
    ℕ → String → String → DefinitionRow → Changes → List AlarmDefinition → List AlarmDefinition
update_rows now tenant_id id original changes [] = []
update_rows now tenant_id id original changes (ad ∷ ads) =
    (if seq ad.tenant_id tenant_id && seq ad.id id
      then updated_definition now original changes ad
      else ad)
    ∷ update_rows now tenant_id id original changes ads

-- `delete from sub_alarm_definition where id = %s`, once for each value of the dict of old ones
unfoldable pub delete_old :
    (SubAlarmDefinition → String)
    → Dict SubAlarmDefinition
    → List SubAlarmDefinitionRow
    → List SubAlarmDefinitionRow
unfolding keep
delete_old literal old rows = keep (λ row. not (any (λ o. seq row.id (literal o.1)) old)) rows

abbrev pub set_changed :
    ℕ → String × SubAlarmDefinition → SubAlarmDefinitionRow → SubAlarmDefinitionRow
set_changed now (id, sad) row =
    if seq row.id id
    then record row {
      operator = text_or_null sad.operator;
      threshold = sad.threshold;
      updated_at = now;
    }
    else row

-- the loop over the changed ones
unfoldable pub update_changed :
    ℕ → Dict SubAlarmDefinition → List SubAlarmDefinitionRow → List SubAlarmDefinitionRow
update_changed now [] rows = rows
update_changed now (c ∷ cs) rows = update_changed now cs (map (set_changed now c) rows)

abbrev pub new_sub_row : ℕ → SubAlarmDefinition → String → SubAlarmDefinitionRow
new_sub_row now sad operator = record {
  id = sad.id;
  alarm_definition_id = sad.alarm_definition_id;
  function = sad.function;
  metric_name = sad.metric_name;
  operator = operator;
  threshold = sad.threshold;
  period = sad.period;
  periods = sad.periods;
  created_at = now;
  updated_at = now;
}

-- the loop over the dimensions of a new one
unfoldable pub insert_pairs : String → Dict String → Db → Result Db
unfolding insert_dimension
insert_pairs sub_id [] db = ok db
insert_pairs sub_id (pair ∷ pairs) db = do
  db' ← insert_dimension sub_id pair.0 pair.1 db
  insert_pairs sub_id pairs db'

-- the loop over the new ones
unfoldable pub insert_new : ℕ → Dict SubAlarmDefinition → Db → Result Db
unfolding encoded insert_sub_row insert_pairs
insert_new now [] db = ok db
insert_new now (n ∷ ns) db = do
  operator ← encoded n.1.operator
  db1 ← insert_sub_row (new_sub_row now n.1 operator) db
  db' ← insert_pairs n.1.id n.1.dimensions db1
  insert_new now ns db'

-- `if actions is not None: self._delete_alarm_actions(…)`
abbrev pub delete_given : String → Option (List String) → String → Db → Db
delete_given id none state db = db
delete_given id (some actions) state db = delete_alarm_actions id state db

unfoldable pub delete_old_actions : Bool → String → Changes → Db → Db
unfolding delete_alarm_actions delete_all_actions
delete_old_actions true id changes db =
    delete_given id changes.undetermined_actions "UNDETERMINED"
      (delete_given id changes.ok_actions "OK" (delete_given id changes.alarm_actions "ALARM" db))
delete_old_actions false id changes db = delete_all_actions id db

unfoldable pub insert_given_actions : String → Changes → Db → Result Db
unfolding insert_into_alarm_action
insert_given_actions id changes db = do
  db1 ← insert_into_alarm_action id changes.alarm_actions "ALARM" db
  db2 ← insert_into_alarm_action id changes.undetermined_actions "UNDETERMINED" db1
  insert_into_alarm_action id changes.ok_actions "OK" db2

abbrev pub first_row : Exn → List DefinitionRow → Result DefinitionRow
first_row e [] = err e
first_row e (row ∷ rows) = ok row

module _ (now : ℕ) (fresh : ℕ → String) (float_code : String → ℕ)
    (literal : SubAlarmDefinition → String) where
  -- all the writes, in the order of the source
  unfoldable pub write_changes :
      String → String → Changes → Bool → DefinitionRow → Diff SubAlarmDefinition → Db → Result Db
  unfolding update_rows delete_old update_changed insert_new delete_old_actions insert_given_actions
  write_changes tenant_id id changes patch original d db = do
    db1 ← insert_new now d.new (record db {
      alarm_definition = update_rows now tenant_id id original changes db.alarm_definition;
      sub_alarm_definition =
          update_changed now d.changed (delete_old literal d.old db.sub_alarm_definition);
    })
    insert_given_actions id changes (delete_old_actions patch id changes db1)

  unfoldable pub update_body :
      String
      → String
      → Changes
      → Bool
      → Db
      → Result ((DefinitionRow × Diff SubAlarmDefinition) × Db)
  unfolding definition_rows sub_definition_rows read_rows read_sub_exprs equals same_key_fields diff
      write_changes
  update_body tenant_id id changes patch db = do
    original ← first_row does_not_exist (definition_rows tenant_id id db)
    olds ← read_rows (sub_definition_rows id db)
    news ← read_sub_exprs id changes.sub_expr_list
    d ← diff (equals float_code) same_key_fields (λ sad. sad.id) with_id fresh olds news
    db' ← write_changes tenant_id id changes patch original d db
    updated ← first_row (python "Exception") (definition_rows tenant_id id db')
    ok ((updated, d), db')

  unfoldable pub update_or_patch_alarm_definition :
      String → String → Changes → Bool → Exec Db (DefinitionRow × Diff SubAlarmDefinition)
  unfolding update_body mysql_try_catch_block atomically
  update_or_patch_alarm_definition tenant_id id changes patch =
      mysql_try_catch_block (atomically (update_body tenant_id id changes patch))
