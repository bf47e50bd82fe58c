-- ===== src/SubAlarm.antt =====
-- monasca/common/repositories/model/sub_alarm_definition.py: sub alarm definitions, read from a row
-- or from a parsed expression, and when two of them are equal.
-- `float_code s` stands for the number that `float(s)` reads: equal codes for equal floats. Each
-- threshold is taken to be one that `float` accepts.
pub mod Equality
use monasca_api.Prelude.{
  ◌≡◌, ℕ, ◌==◌, Bool, true, false, ◌&&◌, String, List, [], ◌∷◌, Option, none, some, Dict, get, put,
  keys, seq, all, split, lower, if◌then◌else◌,
}
use monasca_api.Errors.{Result, ok, err, ◌>>=◌, python}
use monasca_api.Http.Query.{name_value}
use monasca_api.Database.{SubAlarmDefinitionRow}
use monasca_api.Expression.{
  SubExpr, normalized_func, normalized_operator, period, periods, formatted,
}

pub record SubAlarmDefinition : Type 0 where
  pub id : String
  pub alarm_definition_id : String
  pub metric_name : String
  pub dimensions_str : String
  pub dimensions : Dict String
  pub function : String
  pub operator : Option String
  pub period : String
  pub periods : String
  pub threshold : String

-- the loop of `_init_dimensions`: `name, value = dimension.split('=')` raises unless there are two
unfoldable pub read_dimensions : Dict String → List String → Result (Dict String)
read_dimensions dimensions [] = ok dimensions
read_dimensions dimensions (d ∷ ds) = elim (name_value (split b'=' d)) [
  | none ↦ err (python "ValueError")
  | some (name, value) ↦ read_dimensions (put name value dimensions) ds
]

unfoldable pub init_dimensions : String → Result (Dict String)
unfolding read_dimensions
init_dimensions dimensions_str =
    if seq dimensions_str "" then ok [] else read_dimensions [] (split b',' dimensions_str)

-- `SubAlarmDefinition(row=row)`, with the concatenated dimensions of the row, `NULL` as ""
unfoldable pub of_row : SubAlarmDefinitionRow → String → Result SubAlarmDefinition
unfolding init_dimensions
of_row row dimensions_str = do
  dimensions ← init_dimensions dimensions_str
  ok (record {
    id = row.id;
    alarm_definition_id = row.alarm_definition_id;
    metric_name = row.metric_name;
    dimensions_str = dimensions_str;
    dimensions = dimensions;
    function = row.function;
    operator = some row.operator;
    period = row.period;
    periods = row.periods;
    threshold = row.threshold;
  })

-- `SubAlarmDefinition(sub_expr=sub_expr)`, and the injection of the alarm definition's id
unfoldable pub of_sub_expr : String → SubExpr → Result SubAlarmDefinition
unfolding init_dimensions normalized_func normalized_operator period periods
of_sub_expr alarm_definition_id e = do
  dimensions ← init_dimensions e.dimensions
  ok (record {
    id = "";
    alarm_definition_id = alarm_definition_id;
    metric_name = e.metric_name;
    dimensions_str = e.dimensions;
    dimensions = dimensions;
    function = normalized_func e;
    operator = normalized_operator e;
    period = period e;
    periods = periods e;
    threshold = e.threshold;
  })

abbrev pub option_eq : Option String → Option String → Bool
option_eq none none = true
option_eq (some a) (some b) = seq a b
option_eq none (some b) = false
option_eq (some a) none = false

-- for each key of the first dict: both have the same value
abbrev pub within : Dict String → Dict String → Bool
within d e = all (λ k. option_eq (get k d) (get k e)) (keys d)

-- `==` on dicts
unfoldable pub dict_eq : Dict String → Dict String → Bool
dict_eq d e = within d e && within e d

-- `same_key_fields`: everything but the operator and the threshold
unfoldable pub same_key_fields : SubAlarmDefinition → SubAlarmDefinition → Bool
unfolding dict_eq
same_key_fields a b =
    seq a.metric_name b.metric_name
    && (dict_eq a.dimensions b.dimensions
        && (seq a.function b.function && (seq a.period b.period && seq a.periods b.periods)))

-- `__eq__`, which looks at no id but that of the alarm definition
unfoldable pub equals : (String → ℕ) → SubAlarmDefinition → SubAlarmDefinition → Bool
unfolding same_key_fields
equals float_code a b =
    seq a.alarm_definition_id b.alarm_definition_id
    && (same_key_fields a b
        && (option_eq a.operator b.operator && float_code a.threshold == float_code b.threshold))

-- the property `expression`; a missing operator has no `encode`
unfoldable pub expression : SubAlarmDefinition → Result String
unfolding formatted
expression a = elim a.operator [
  | none ↦ err (python "AttributeError")
  | some operator ↦ ok (
      formatted (lower a.function) a.metric_name a.dimensions_str a.period operator a.threshold
        a.periods)
]
