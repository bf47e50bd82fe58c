-- ===== src/Alarms/Listing.antt =====
-- `get_alarms` of monasca/common/repositories/mysql/alarms_repository.py. `lt` is the order of the
-- database's texts. The metrics of a definition's alarms are read by
-- monasca/common/repositories/mysql/alarm_definitions_repository.py.
use monasca_api.Prelude.{
  map, Bool, true, ◌&&◌, String, List, [], ◌∷◌, Option, none, some, seq, any, all, keep, split,
  take, order_by,
}
use monasca_api.Errors.{Exec, Result, ok, ◌>>=◌, mysql_try_catch_block}
use monasca_api.Database.{Db, AlarmDefinition, Alarm}
use monasca_api.Paging.{page_limit}
use monasca_api.AlarmDefinitions.Create.{parsed_dimension}
use monasca_api.AlarmDefinitions.Queries.{alarm_of}
use monasca_api.Alarms.{
  MetricRow, same_metric_row, dimensions_text, distinct, AlarmRow, each, dimensions_of_alarm,
  definitions_of_metric, base_rows,
}

-- The query parameters that `get_alarms` looks at; `none` is an absent key.
pub record AlarmQuery : Type 0 where
  pub alarm_definition_id : Option String
  pub metric_name : Option String
  pub state : Option String
  pub metric_dimensions : Option String

abbrev pub asked : Option String → (String → Bool) → Bool
asked none p = true
asked (some s) p = p s

unfoldable pub parsed_dimensions : List String → Result (List (String × String))
unfolding parsed_dimension
parsed_dimensions [] = ok []
parsed_dimensions (d ∷ ds) = do
  pair ← parsed_dimension (split b':' d)
  pairs ← parsed_dimensions ds
  ok (pair ∷ pairs)

abbrev pub dimensions_asked : Option String → Result (List (String × String))
dimensions_asked none = ok []
dimensions_asked (some text) = parsed_dimensions (split b',' text)

-- one metric of the alarm has all the dimensions
abbrev pub has_dimensions : Option String → List (String × String) → Db → Alarm → Bool
has_dimensions none pairs db a = true
has_dimensions (some text) pairs db a =
    any
      (λ mdd.
        all
          (λ pair.
            any
              (λ d.
                seq d.dimension_set_id mdd.metric_dimension_set_id
                && (seq d.name pair.0 && seq d.value pair.1))
              db.metric_dimension)
          pairs)
      (dimensions_of_alarm db a)

abbrev pub has_metric : Db → Alarm → String → Bool
has_metric db a name =
    any (λ mdd. any (λ md. seq md.name name) (definitions_of_metric db mdd))
      (dimensions_of_alarm db a)

module _ (lt : String → String → Bool) where
  -- the offset is compared with the id of the definition, and the rows are in the alarms' order
  abbrev pub after_offset : Option String → AlarmDefinition → Bool
  after_offset none ad = true
  after_offset (some offset) ad = lt offset ad.id

  abbrev pub limited : Option String → List AlarmRow → List AlarmRow
  limited none rows = rows
  limited (some offset) rows = take page_limit rows

  unfoldable pub rows_asked : String → AlarmQuery → Option String → Db → Result (List AlarmRow)
  unfolding base_rows each keep parsed_dimensions order_by
  rows_asked tenant_id query offset db = do
    pairs ← dimensions_asked query.metric_dimensions
    ok (
        limited offset (
          order_by lt (λ row. row.alarm_id)
            (base_rows tenant_id
              (λ a.
                asked query.metric_name (has_metric db a)
                && (asked query.state (seq a.state)
                    && has_dimensions query.metric_dimensions pairs db a))
              (λ ad. after_offset offset ad && asked query.alarm_definition_id (seq ad.id)) db)))

  unfoldable pub get_alarms : String → AlarmQuery → Option String → Exec Db (List AlarmRow)
  unfolding rows_asked mysql_try_catch_block
  get_alarms tenant_id query offset =
      mysql_try_catch_block λ db. (rows_asked tenant_id query offset db, db)

  -- `get_alarm_metrics` of the alarm definitions repository: those of all alarms of a definition
  unfoldable pub get_definition_alarm_metrics : String → String → Exec Db (List MetricRow)
  unfolding each keep distinct order_by mysql_try_catch_block
  get_definition_alarm_metrics tenant_id alarm_definition_id = mysql_try_catch_block λ db. (
    ok (
        order_by lt (λ row. row.alarm_id)
          (distinct same_metric_row (
            each (keep (alarm_of tenant_id alarm_definition_id db) db.alarm) λ a.
              each (dimensions_of_alarm db a) λ mdd.
                map
                  (λ md. record {
                    alarm_id = a.id;
                    name = md.name;
                    dimensions = dimensions_text db mdd;
                  })
                  (definitions_of_metric db mdd)))),
    db,
  )
