-- ===== src/AlarmDefinitions/Queries.antt =====
-- The reads and the deletion of alarm definitions, of
-- monasca/common/repositories/mysql/alarm_definitions_repository.py.
pub mod Deletion
use monasca_api.Prelude.{
  ◌≡◌, ℕ, Bool, true, false, not, ◌&&◌, String, List, [], ◌∷◌, ◌++◌, map, Option, none, some, Dict,
  seq, any, all, keep, join, append, take, ltb, order_by, if◌then◌else◌, is_some,
}
use monasca_api.Errors.{Exec, Result, ok, err, does_not_exist, mysql_try_catch_block, transaction}
use monasca_api.Database.{
  Db, AlarmDefinition, SubAlarmDefinitionRow, DimensionRow, AlarmAction, Alarm, SubAlarm,
  group_concat,
}
use monasca_api.Paging.{page_limit}

-- A row of `base_query`: the definition with its actions for each state.
pub record DefinitionRow : Type 0 where
  pub id : String
  pub name : String
  pub description : String
  pub expression : String
  pub match_by : String
  pub severity : String
  pub actions_enabled : ℕ
  pub alarm_actions : Option String
  pub ok_actions : Option String
  pub undetermined_actions : Option String

-- `where alarm_definition_id = … and alarm_state = …`
abbrev pub action_for : String → String → AlarmAction → Bool
action_for id state a = seq a.alarm_definition_id id && seq a.alarm_state state

abbrev pub actions_for : Db → String → String → Option String
actions_for db id state =
    group_concat (map (λ a. a.action_id) (keep (action_for id state) db.alarm_action))

unfoldable pub base_row : Db → AlarmDefinition → DefinitionRow
base_row db ad = record {
  id = ad.id;
  name = ad.name;
  description = ad.description;
  expression = ad.expression;
  match_by = ad.match_by;
  severity = ad.severity;
  actions_enabled = ad.actions_enabled;
  alarm_actions = actions_for db ad.id "ALARM";
  ok_actions = actions_for db ad.id "OK";
  undetermined_actions = actions_for db ad.id "UNDETERMINED";
}

-- `where ad.tenant_id = %s and ad.id = %s and deleted_at is NULL`
abbrev pub is_live : String → String → AlarmDefinition → Bool
is_live tenant_id id ad =
    seq ad.tenant_id tenant_id && (seq ad.id id && not (is_some ad.deleted_at))

unfoldable pub definition_rows : String → String → Db → List DefinitionRow
unfolding base_row keep
definition_rows tenant_id id db =
    map (base_row db) (keep (is_live tenant_id id) db.alarm_definition)

abbrev first_or_missing : List DefinitionRow → Result DefinitionRow
first_or_missing [] = err does_not_exist
first_or_missing (row ∷ rows) = ok row

unfoldable pub get_alarm_definition : String → String → Exec Db DefinitionRow
unfolding definition_rows mysql_try_catch_block
get_alarm_definition tenant_id id =
    mysql_try_catch_block λ db. (first_or_missing (definition_rows tenant_id id db), db)

-- a sub alarm definition with a dimension of that name and value
abbrev pub has_dimension : Db → SubAlarmDefinitionRow → String × String → Bool
has_dimension db sad (name, value) =
    any
      (λ d.
        seq d.sub_alarm_definition_id sad.id && (seq d.dimension_name name && seq d.value value))
      db.sub_alarm_definition_dimension

-- The inner joins: one row for each sub alarm definition with all the dimensions, and just one row
-- where no dimension is asked for.
abbrev pub joined : Db → Dict String → AlarmDefinition → List AlarmDefinition
joined db [] ad = ad ∷ []
joined db (e ∷ d) ad =
    map (λ sad. ad)
      (keep (λ sad. seq sad.alarm_definition_id ad.id && all (has_dimension db sad) (e ∷ d))
        db.sub_alarm_definition)

unfoldable pub join_all : Db → Dict String → List AlarmDefinition → List AlarmDefinition
unfolding keep
join_all db dimensions [] = []
join_all db dimensions (ad ∷ ads) = joined db dimensions ad ++ join_all db dimensions ads

-- `and ad.name = %s`, if a name is given
abbrev pub name_matches : String → AlarmDefinition → Bool
name_matches name ad = if seq name "" then true else seq ad.name name

abbrev pub is_listed : String → String → AlarmDefinition → Bool
is_listed tenant_id name ad =
    seq ad.tenant_id tenant_id && (not (is_some ad.deleted_at) && name_matches name ad)

-- `order by ad.created_at`
unfoldable pub insert_created : AlarmDefinition → List AlarmDefinition → List AlarmDefinition
insert_created x [] = x ∷ []
insert_created x (y ∷ l) =
    let rest = insert_created x l in if ltb y.created_at x.created_at then y ∷ rest else x ∷ y ∷ l

unfoldable pub order_by_created : List AlarmDefinition → List AlarmDefinition
unfolding insert_created
order_by_created [] = []
order_by_created (x ∷ l) = insert_created x (order_by_created l)

module _ (lt : String → String → Bool) where
  abbrev pub cut : Option String → List AlarmDefinition → List AlarmDefinition
  cut none rows = order_by_created rows
  cut (some offset) rows =
      take page_limit (order_by lt (λ ad. ad.id) (keep (λ ad. lt offset ad.id) rows))

  unfoldable pub get_alarm_definitions :
      String → String → Dict String → Option String → Exec Db (List DefinitionRow)
  unfolding base_row keep join_all order_by_created order_by mysql_try_catch_block
  get_alarm_definitions tenant_id name dimensions offset = mysql_try_catch_block λ db. (
    ok (
        map (base_row db) (
          cut offset
            (keep (is_listed tenant_id name) (join_all db dimensions db.alarm_definition)))),
    db,
  )

-- the dimensions of a sub alarm definition, "name=value,…"
abbrev pub dimensions_of : Db → String → Option String
dimensions_of db id = group_concat (
    map (λ d. append d.dimension_name (append "=" d.value))
      (keep (λ d. seq d.sub_alarm_definition_id id) db.sub_alarm_definition_dimension))

unfoldable pub sub_definition_rows : String → Db → List (SubAlarmDefinitionRow × Option String)
unfolding keep
sub_definition_rows alarm_definition_id db =
    map (λ sad. (sad, dimensions_of db sad.id))
      (keep (λ sad. seq sad.alarm_definition_id alarm_definition_id) db.sub_alarm_definition)

unfoldable pub get_sub_alarm_definitions :
    String → Exec Db (List (SubAlarmDefinitionRow × Option String))
unfolding sub_definition_rows mysql_try_catch_block
get_sub_alarm_definitions alarm_definition_id =
    mysql_try_catch_block λ db. (ok (sub_definition_rows alarm_definition_id db), db)

-- the alarm belongs to the tenant's definition
abbrev pub alarm_of : String → String → Db → Alarm → Bool
alarm_of tenant_id alarm_definition_id db a =
    seq a.alarm_definition_id alarm_definition_id
    && any (λ ad. seq ad.id a.alarm_definition_id && seq ad.tenant_id tenant_id) db.alarm_definition

unfoldable pub get_sub_alarms : String → String → Exec Db (List SubAlarm)
unfolding keep mysql_try_catch_block
get_sub_alarms tenant_id alarm_definition_id = mysql_try_catch_block λ db. (
  ok (
      keep
        (λ sa.
          any (λ a. seq a.id sa.alarm_id && alarm_of tenant_id alarm_definition_id db a) db.alarm)
        db.sub_alarm),
  db,
)

-- `update … set deleted_at = NOW()`
unfoldable pub mark_deleted : ℕ → String → String → List AlarmDefinition → List AlarmDefinition
mark_deleted now tenant_id id [] = []
mark_deleted now tenant_id id (ad ∷ ads) =
    (if is_live tenant_id id ad then record ad { deleted_at = some now } else ad)
    ∷ mark_deleted now tenant_id id ads

unfoldable pub delete_alarm_definition : ℕ → String → String → Exec Db Bool
unfolding mark_deleted keep mysql_try_catch_block transaction
delete_alarm_definition now tenant_id id = mysql_try_catch_block (
    transaction λ db.
      if any (is_live tenant_id id) db.alarm_definition
      then (
        ok true,
        record db {
          alarm_definition = mark_deleted now tenant_id id db.alarm_definition;
          alarm = keep (λ a. not (seq a.alarm_definition_id id)) db.alarm;
        },
      )
      else (ok false, db))
