-- ===== src/Alarms.antt =====
-- The alarms repository, monasca/common/repositories/mysql/alarms_repository.py.
pub mod Changes
pub mod Listing
pub mod Views
pub mod Resource
use monasca_api.Prelude.{
  ◌≡◌, ℕ, Bool, true, false, not, ◌&&◌, String, List, [], ◌∷◌, ◌++◌, map, Option, none, some, seq,
  any, all, keep, split, append, take, order_by, if◌then◌else◌,
}
use monasca_api.Errors.{
  Exec, Result, ok, err, ◌>>=◌, does_not_exist, mysql_try_catch_block, transaction,
}
use monasca_api.Database.{
  Db, AlarmDefinition, Alarm, SubAlarm, AlarmMetric, MetricDefinitionDimensions, MetricDefinition,
  group_concat,
}
use monasca_api.Paging.{page_limit}
use monasca_api.AlarmDefinitions.Create.{parsed_dimension}

-- A row of `base_query`: an alarm of a definition, and one of its metrics.
pub record AlarmRow : Type 0 where
  pub alarm_id : String
  pub state : String
  pub alarm_definition_id : String
  pub alarm_definition_name : String
  pub severity : String
  pub metric_name : String
  pub metric_dimensions : Option String

-- a row of `get_alarm_metrics`
pub record MetricRow : Type 0 where
  pub alarm_id : String
  pub name : String
  pub dimensions : Option String

-- The rows of an inner join: those that each row on the left has on the right.
unfoldable pub each : {A B : Type 0} → List A → (A → List B) → List B
each [] f = []
each (x ∷ xs) f = f x ++ each xs f

-- `select distinct`: a row that equals one after it is left out
unfoldable pub distinct : {A : Type 0} → (A → A → Bool) → List A → List A
distinct eq [] = []
distinct eq (x ∷ xs) = let rest = distinct eq xs in if any (eq x) rest then rest else x ∷ rest

abbrev pub same_text : Option String → Option String → Bool
same_text none none = true
same_text (some a) (some b) = seq a b
same_text none (some b) = false
same_text (some a) none = false

-- the columns that are left out follow from the two ids
abbrev pub same_row : AlarmRow → AlarmRow → Bool
same_row a b =
    seq a.alarm_id b.alarm_id
    && (seq a.alarm_definition_id b.alarm_definition_id
        && (seq a.metric_name b.metric_name && same_text a.metric_dimensions b.metric_dimensions))

abbrev pub same_metric_row : MetricRow → MetricRow → Bool
same_metric_row a b =
    seq a.alarm_id b.alarm_id && (seq a.name b.name && same_text a.dimensions b.dimensions)

abbrev pub dimensions_text : Db → MetricDefinitionDimensions → Option String
dimensions_text db mdd = group_concat (
    map (λ d. append d.name (append "=" d.value))
      (keep (λ d. seq d.dimension_set_id mdd.metric_dimension_set_id) db.metric_dimension))

-- the definitions of the tenant that the alarm is of
abbrev pub definitions_of : String → Db → Alarm → List AlarmDefinition
definitions_of tenant_id db a =
    keep (λ ad. seq ad.id a.alarm_definition_id && seq ad.tenant_id tenant_id) db.alarm_definition

abbrev pub dimensions_of_alarm : Db → Alarm → List MetricDefinitionDimensions
dimensions_of_alarm db a = each (keep (λ am. seq am.alarm_id a.id) db.alarm_metric) λ am.
    keep (λ mdd. seq mdd.id am.metric_definition_dimensions_id) db.metric_definition_dimensions

abbrev pub definitions_of_metric : Db → MetricDefinitionDimensions → List MetricDefinition
definitions_of_metric db mdd = keep (λ md. seq md.id mdd.metric_definition_id) db.metric_definition

unfoldable pub alarm_rows : Db → Alarm → AlarmDefinition → List AlarmRow
unfolding each keep
alarm_rows db a ad = each (dimensions_of_alarm db a) λ mdd.
    map
      (λ md. record {
        alarm_id = a.id;
        state = a.state;
        alarm_definition_id = ad.id;
        alarm_definition_name = ad.name;
        severity = ad.severity;
        metric_name = md.name;
        metric_dimensions = dimensions_text db mdd;
      })
      (definitions_of_metric db mdd)

-- `where ad.tenant_id = %s and a.id = %s`
abbrev pub is_mine : String → String → Db → Alarm → Bool
is_mine tenant_id id db a =
    seq a.id id
    && any (λ ad. seq ad.id a.alarm_definition_id && seq ad.tenant_id tenant_id) db.alarm_definition

abbrev first_or_missing : {A : Type 0} → List A → Result A
first_or_missing [] = err does_not_exist
first_or_missing (row ∷ rows) = ok row

abbrev all_or_missing : {A : Type 0} → List A → Result (List A)
all_or_missing [] = err does_not_exist
all_or_missing (row ∷ rows) = ok (row ∷ rows)

-- a row of the join of a definition and its alarm, of which the callers read the definition
unfoldable pub get_alarm_definition : String → String → Exec Db AlarmDefinition
unfolding each keep mysql_try_catch_block
get_alarm_definition tenant_id alarm_id = mysql_try_catch_block λ db. (
  first_or_missing (each (keep (λ a. seq a.id alarm_id) db.alarm) (definitions_of tenant_id db)),
  db,
)

unfoldable pub get_alarm_metrics : String → Exec Db (List MetricRow)
unfolding each keep distinct mysql_try_catch_block
get_alarm_metrics alarm_id = mysql_try_catch_block λ db. (
  ok (
      distinct same_metric_row (
        each (keep (λ a. seq a.id alarm_id) db.alarm) λ a. each (dimensions_of_alarm db a) λ mdd.
          map
            (λ md. record { alarm_id = a.id; name = md.name; dimensions = dimensions_text db mdd })
            (definitions_of_metric db mdd))),
  db,
)

-- The sub alarms of the tenant's alarm, each with the id of its alarm definition. No row comes twice,
-- since an alarm and a definition have their ids to themselves.
unfoldable pub get_sub_alarms : String → String → Exec Db (List (SubAlarm × String))
unfolding each keep mysql_try_catch_block
get_sub_alarms tenant_id alarm_id = mysql_try_catch_block λ db. (
  ok (
      each db.sub_alarm λ sa.
        map (λ a. (sa, a.alarm_definition_id))
          (keep (λ a. seq a.id sa.alarm_id && is_mine tenant_id alarm_id db a) db.alarm)),
  db,
)

abbrev pub with_state : String → Alarm → Alarm
with_state state a = record a { state = state }

-- `update alarm set state = %s where …`
unfoldable pub set_state : (Alarm → Bool) → String → List Alarm → List Alarm
set_state p state [] = []
set_state p state (a ∷ l) = (if p a then with_state state a else a) ∷ set_state p state l

abbrev pub write_state : String → String → String → List Alarm → Db → Result String × Db
write_state tenant_id id state [] db = (err does_not_exist, db)
write_state tenant_id id state (a ∷ l) db = (
  ok a.state,
  if seq state a.state
      then db
      else record db { alarm = set_state (is_mine tenant_id id db) state db.alarm },
)

-- Returns the state before.
unfoldable pub update_alarm : String → String → String → Exec Db String
unfolding keep set_state mysql_try_catch_block transaction
update_alarm tenant_id id state =
    mysql_try_catch_block (
      transaction λ db. write_state tenant_id id state (keep (is_mine tenant_id id db) db.alarm) db)

unfoldable pub delete_alarm : String → String → Exec Db (Unit {0})
unfolding keep mysql_try_catch_block transaction
delete_alarm tenant_id id = mysql_try_catch_block (
    transaction λ db.
      if any (is_mine tenant_id id db) db.alarm
      then (ok tt, record db { alarm = keep (λ a. not (is_mine tenant_id id db a)) db.alarm })
      else (err does_not_exist, db))

-- the rows of `base_query` for the tenant, of the alarms and the definitions that are asked for
unfoldable pub base_rows : String → (Alarm → Bool) → (AlarmDefinition → Bool) → Db → List AlarmRow
unfolding each keep distinct alarm_rows
base_rows tenant_id p q db = distinct same_row (
    each (keep p db.alarm)
      λ a. each (keep q (definitions_of tenant_id db a)) λ ad. alarm_rows db a ad)

unfoldable pub get_alarm : String → String → Exec Db (List AlarmRow)
unfolding base_rows mysql_try_catch_block
get_alarm tenant_id id =
    mysql_try_catch_block
      λ db. (all_or_missing (base_rows tenant_id (λ a. seq a.id id) (λ ad. true) db), db)
