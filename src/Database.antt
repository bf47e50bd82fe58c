-- ===== src/Database.antt =====
-- The tables of the configuration database that the repositories under
-- monasca/common/repositories/mysql read and write, each a list of its rows.
use monasca_api.Prelude.{ℕ, String, List, [], ◌∷◌, Option, none, some, join}

pub record Notification : Type 0 where
  pub id : String
  pub tenant_id : String
  pub name : String
  pub type : String
  pub address : String
  pub created_at : ℕ
  pub updated_at : ℕ

pub record AlarmDefinition : Type 0 where
  pub id : String
  pub tenant_id : String
  pub name : String
  pub description : String
  pub expression : String
  pub severity : String
  pub match_by : String
  pub actions_enabled : ℕ
  pub created_at : ℕ
  pub updated_at : ℕ
  pub deleted_at : Option ℕ

pub record SubAlarmDefinitionRow : Type 0 where
  pub id : String
  pub alarm_definition_id : String
  pub function : String
  pub metric_name : String
  pub operator : String
  pub threshold : String
  pub period : String
  pub periods : String
  pub created_at : ℕ
  pub updated_at : ℕ

pub record DimensionRow : Type 0 where
  pub sub_alarm_definition_id : String
  pub dimension_name : String
  pub value : String

pub record AlarmAction : Type 0 where
  pub alarm_definition_id : String
  pub alarm_state : String
  pub action_id : String

pub record Alarm : Type 0 where
  pub id : String
  pub alarm_definition_id : String
  pub state : String

pub record SubAlarm : Type 0 where
  pub id : String
  pub alarm_id : String
  pub expression : String

-- alarm_metric: which metrics an alarm watches
pub record AlarmMetric : Type 0 where
  pub alarm_id : String
  pub metric_definition_dimensions_id : String

pub record MetricDefinitionDimensions : Type 0 where
  pub id : String
  pub metric_definition_id : String
  pub metric_dimension_set_id : String

pub record MetricDefinition : Type 0 where
  pub id : String
  pub name : String

pub record MetricDimension : Type 0 where
  pub dimension_set_id : String
  pub name : String
  pub value : String

pub record Db : Type 0 where
  pub notification_method : List Notification
  pub alarm_definition : List AlarmDefinition
  pub sub_alarm_definition : List SubAlarmDefinitionRow
  pub sub_alarm_definition_dimension : List DimensionRow
  pub alarm_action : List AlarmAction
  pub alarm : List Alarm
  pub sub_alarm : List SubAlarm
  pub alarm_metric : List AlarmMetric
  pub metric_definition_dimensions : List MetricDefinitionDimensions
  pub metric_definition : List MetricDefinition
  pub metric_dimension : List MetricDimension

-- `group_concat`: `NULL` of no rows
abbrev pub group_concat : List String → Option String
group_concat [] = none
group_concat (x ∷ xs) = some (join "," (x ∷ xs))
