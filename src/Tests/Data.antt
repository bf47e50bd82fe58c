-- ===== src/Tests/Data.antt =====
-- A small database.
use monasca_api.Prelude.{ℕ, String, [], ◌∷◌, none, some, seq, if◌then◌else◌}
use monasca_api.Database.{Db, Notification, AlarmDefinition, SubAlarmDefinitionRow, Alarm}
use monasca_api.Expression.{SubExpr}
use monasca_api.SubAlarm.{SubAlarmDefinition}

abbrev pub empty : Db
empty = record {
  notification_method = [];
  alarm_definition = [];
  sub_alarm_definition = [];
  sub_alarm_definition_dimension = [];
  alarm_action = [];
  alarm = [];
  sub_alarm = [];
  alarm_metric = [];
  metric_definition_dimensions = [];
  metric_definition = [];
  metric_dimension = [];
}

abbrev pub mail : String → String → Notification
mail tenant id = record {
  id = id;
  tenant_id = tenant;
  name = "mail";
  type = "EMAIL";
  address = "a@b";
  created_at = 1;
  updated_at = 1;
}

abbrev pub definition : String → AlarmDefinition
definition id = record {
  id = id;
  tenant_id = "t";
  name = "high";
  description = "";
  expression = "max(cpu) > 90";
  severity = "LOW";
  match_by = "";
  actions_enabled = 1;
  created_at = 1;
  updated_at = 1;
  deleted_at = none;
}

abbrev pub sub_row : SubAlarmDefinitionRow
sub_row = record {
  id = "s";
  alarm_definition_id = "d";
  function = "MAX";
  metric_name = "cpu";
  operator = "GT";
  threshold = "90";
  period = "60";
  periods = "1";
  created_at = 1;
  updated_at = 1;
}

abbrev pub alarm : String → Alarm
alarm id = record { id = id; alarm_definition_id = "d"; state = "OK" }

abbrev pub stored : Db
stored = record empty {
  notification_method = mail "t" "n" ∷ mail "u" "m" ∷ [];
  alarm_definition = definition "d" ∷ definition "e" ∷ [];
  sub_alarm_definition = sub_row ∷ [];
  sub_alarm_definition_dimension =
      record { sub_alarm_definition_id = "s"; dimension_name = "host"; value = "a" } ∷ [];
  alarm_action =
      record { alarm_definition_id = "d"; alarm_state = "ALARM"; action_id = "n" }
      ∷ record { alarm_definition_id = "d"; alarm_state = "OK"; action_id = "n" }
      ∷ [];
  alarm = alarm "a" ∷ alarm "b" ∷ [];
}

-- "max(cpu{host=a}) >= 95", under an operator and with a threshold of choice
abbrev pub sub_expr : String → String → SubExpr
sub_expr operator threshold = record {
  func = "max";
  metric_name = "cpu";
  dimensions = "host=a";
  operator = operator;
  threshold = threshold;
  given_period = "";
  given_periods = "";
  id = none;
}

abbrev pub sub_alarm : String → String → String → SubAlarmDefinition
sub_alarm id operator threshold = record {
  id = id;
  alarm_definition_id = "d";
  metric_name = "cpu";
  dimensions_str = "host=a";
  dimensions = ("host", "a") ∷ [];
  function = "MAX";
  operator = some operator;
  period = "60";
  periods = "1";
  threshold = threshold;
}

-- the numbers of the two thresholds that the tests use, and one for every other text
abbrev pub float_code : String → ℕ
float_code s = if seq s "95" then 95 else if seq s "90" then 90 else 0
