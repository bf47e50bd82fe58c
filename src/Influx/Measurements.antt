-- ===== src/Influx/Measurements.antt =====
-- `measurement_list` and `metrics_statistics` of
-- monasca/common/repositories/influxdb/metrics_repository.py. `utc` is what `time.strftime` makes of
-- `time.gmtime` of a number, which raises for anything that is no number.
pub mod Refusals
use monasca_api.Prelude.{
  ◌≡◌, ℕ, Bool, true, false, ◌&&◌, String, List, [], ◌∷◌, map, Option, none, some, Dict, seq,
  last_or, ◌==◌, if◌then◌else◌,
}
use monasca_api.Errors.{Result, ok, err, ◌>>=◌, python, repository, map_err, Exec}
use monasca_api.Json.{Json}
use monasca_api.Influx.Quoting.{replacing, replace}
use monasca_api.Influx.Series.{Metric, decode_influxdb_serie_name}
use monasca_api.Influx.Metrics.{Serie, Answer, series, client_error, failure, Client, item}
use monasca_api.Influx.Queries.{build_select_query, build_statistics_query}

pub record Measurement : Type 0 where
  pub name : String
  pub id : Json
  pub dimensions : Dict String
  pub columns : List String
  pub measurements : List (List Json)

pub record Statistics : Type 0 where
  pub name : String
  pub dimensions : Dict String
  pub columns : List String
  pub measurements : List (List Json)

-- `metric['dimensions']`
abbrev pub dimensions_in : Option (Dict String) → Result (Dict String)
dimensions_in none = err (python "KeyError")
dimensions_in (some dimensions) = ok dimensions

-- A name in place of another one, then `timestamp` in place of `time`.
unfoldable pub renamed : String → String → List String → List String
unfolding replacing
renamed old new columns =
    map (λ column. replace "time" "timestamp" column)
      (map (λ column. replace old new column) columns)

-- `serie['points'][-1][0]`
abbrev pub last_time : List (List Json) → Result Json
last_time [] = err (python "IndexError")
last_time (point ∷ points) = item 0 (last_or point points)

-- each point of a list in turn
unfoldable pub each_point :
    (List Json → Result (List Json)) → List (List Json) → Result (List (List Json))
each_point format [] = ok []
each_point format (point ∷ points) = do
  formatted ← format point
  rest ← each_point format points
  ok (formatted ∷ rest)

-- The loops over the series of an answer: a serie whose name is not a metric's is left out.
unfoldable pub each_serie :
    {A : Type 0} → (Metric → Serie → Result A) → List Serie → Result (List A)
unfolding decode_influxdb_serie_name
each_serie make [] = ok []
each_serie make (serie ∷ others) = do
  found ← decode_influxdb_serie_name serie.name
  elim found [
    | none ↦ each_serie make others
    | some metric ↦ do made ← make metric serie; rest ← each_serie make others; ok (made ∷ rest)
  ]

-- `ex.code == 400 and ex.content == msg`
abbrev pub is_unknown : ℕ → String → Bool
is_unknown code content = (code == 400) && seq content "Couldn't look up columns"

-- what becomes of the client's answer: without the serie the list is empty
abbrev pub unless_unknown : {A : Type 0} → (List Serie → Result (List A)) → Answer → Result (List A)
unless_unknown next (series l) = next l
unless_unknown next (client_error code content) =
    if is_unknown code content then ok [] else err (python "InfluxDBClientError")
unless_unknown next (failure e) = err e

module _ (utc : Json → Result Json) where
  -- `[strftime(point[0]), point[1], point[2]]`
  unfoldable pub measurement_point : List Json → Result (List Json)
  unfolding item
  measurement_point point = do
    seconds ← item 0 point
    time ← utc seconds
    second ← item 1 point
    third ← item 2 point
    ok (time ∷ second ∷ third ∷ [])

  -- `[strftime(pts_list[0])] + pts_list[1:]`
  unfoldable pub statistics_point : List Json → Result (List Json)
  statistics_point [] = err (python "IndexError")
  statistics_point (seconds ∷ values) = do time ← utc seconds; ok (time ∷ values)

  unfoldable pub measurement_of : Metric → Serie → Result Measurement
  unfolding measurement_point item each_point renamed
  measurement_of metric serie = do
    points ← each_point measurement_point serie.points
    id ← last_time serie.points
    dimensions ← dimensions_in metric.dimensions
    ok (record {
      name = metric.name;
      id = id;
      dimensions = dimensions;
      columns = renamed "sequence_number" "id" serie.columns;
      measurements = points;
    })

  unfoldable pub statistics_of : Metric → Serie → Result Statistics
  unfolding statistics_point each_point renamed
  statistics_of metric serie = do
    points ← each_point statistics_point serie.points
    dimensions ← dimensions_in metric.dimensions
    ok (record {
      name = metric.name;
      dimensions = dimensions;
      columns = renamed "mean" "avg" serie.columns;
      measurements = points;
    })

  module _ {W : Type 0} (query : Client W) where
    unfoldable pub measurement_list :
        String
        → String
        → String
        → Dict String
        → ℕ
        → Option ℕ
        → Option String
        → Exec W (List Measurement)
    unfolding build_select_query each_serie measurement_of
    measurement_list tenant_id region name dimensions start_timestamp end_timestamp offset w =
        let text =
          build_select_query dimensions name tenant_id region start_timestamp end_timestamp
            offset in
        let (answer, w') = query text w in
        (map_err repository (unless_unknown (each_serie measurement_of) answer), w')

    unfoldable pub metrics_statistics :
        String
        → String
        → String
        → Dict String
        → ℕ
        → Option ℕ
        → List String
        → Option String
        → Exec W (List Statistics)
    unfolding build_statistics_query each_serie statistics_of
    metrics_statistics tenant_id region name dimensions start_timestamp end_timestamp statistics
          period w =
        let text =
          build_statistics_query dimensions name tenant_id region start_timestamp end_timestamp
            statistics period in
        let (answer, w') = query text w in
        (map_err repository (unless_unknown (each_serie statistics_of) answer), w')
