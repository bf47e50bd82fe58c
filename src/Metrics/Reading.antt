-- ===== src/Metrics/Reading.antt =====
-- The requests that read: `_list_metrics`, `_measurement_list`, `_metric_statistics` and the
-- handlers `do_get_xxx` of monasca/v2/reference/metrics.py over the InfluxDB repository. `roles`
-- are the default roles, `tenant_id` is the header's value and `id_text` what `str` makes of an id.
pub mod Answers
use monasca_api.Prelude.{ℕ, Bool, true, false, String, List, [], ◌∷◌, Option, none, some, Dict}
use monasca_api.Errors.{
  Exec, Result, ok, err, ◌>>=◌, ◌>>◌, Exn, Description, http, service_unavailable, text, exception,
  python, repository, repository_text, already_exists, validation, map_err,
}
use monasca_api.Errors.Steps.{after}
use monasca_api.Http.{Uri, Request, validate_authorization}
use monasca_api.Http.Query.{
  offset_of, get_query_name, validate_query_name, get_query_dimensions, validate_query_dimensions,
  get_query_starttime_timestamp, get_query_endtime_timestamp, get_query_statistics,
  get_query_period,
}
use monasca_api.Json.{Json}
use monasca_api.Paging as Paging
use monasca_api.Paging.{Link, Page, bare, wrapped, self_link, paginate, paginate_measurement}
use monasca_api.Influx.Series.{Metric}
use monasca_api.Influx.Metrics.{Client, list_metrics}
use monasca_api.Influx.Measurements.{Measurement, Statistics, measurement_list, metrics_statistics}

-- `ex.message`
unfoldable pub message_of : Exn → Description
message_of (repository e) = exception e
message_of (repository_text m) = text m
message_of (already_exists m) = text m
message_of (validation m) = text m
message_of e = exception e

-- `except Exception as ex:` of the three methods
unfoldable pub unavailable : Exn → Exn
unfolding message_of
unavailable e = http service_unavailable "Service unavailable" (message_of e)

abbrev pub caught : {W A : Type 0} → Result A × W → Result A × W
caught r = (map_err unavailable r.0, r.1)

-- the parameters that the three requests share
pub record Selection : Type 0 where
  pub name : String
  pub dimensions : Dict String

-- the name and the dimensions, each read and then checked
unfoldable pub selection : Request → Result Selection
unfolding get_query_name validate_query_name get_query_dimensions validate_query_dimensions
selection req = do
  name ← get_query_name req false
  named ← validate_query_name name
  dimensions ← get_query_dimensions req
  checked ← validate_query_dimensions dimensions
  ok (record { name = name; dimensions = dimensions })

-- `get_query_starttime_timestamp` with its default `required=True` gives a time
abbrev pub required_time : Option ℕ → Result ℕ
required_time none = err (python "TypeError")
required_time (some time) = ok time

pub record Period : Type 0 where
  pub selected : Selection
  pub start_timestamp : ℕ
  pub end_timestamp : Option ℕ

unfoldable pub period_of : (String → Option ℕ) → Request → Result Period
unfolding selection get_query_starttime_timestamp get_query_endtime_timestamp
period_of convert_time_string req = do
  selected ← selection req
  given ← get_query_starttime_timestamp convert_time_string req true
  start_timestamp ← required_time given
  end_timestamp ← get_query_endtime_timestamp convert_time_string req false
  ok (record {
    selected = selected;
    start_timestamp = start_timestamp;
    end_timestamp = end_timestamp;
  })

-- What `_measurement_list` returns: the list itself, or its pages under a link.
pub data MeasurementPages : Type 0 where
  plain : List Measurement → MeasurementPages
  linked : List Link → List (Page Measurement) → MeasurementPages

module _ (id_text : Json → String) where
  -- what `paginate_measurement` looks at
  abbrev view : Measurement → Paging.Measurement (List Json)
  view m = record { id = id_text m.id; dimensions = m.dimensions; measurements = m.measurements }

  abbrev in_place : Measurement → Page (Paging.Measurement (List Json)) → Page Measurement
  in_place m (bare viewed) = bare m
  in_place m (wrapped links viewed) = wrapped links m

  -- the loop over the measurements
  unfoldable pub measurement_pages :
      Uri → Option String → List Measurement → Result (List (Page Measurement))
  unfolding paginate_measurement
  measurement_pages uri offset [] = ok []
  measurement_pages uri offset (m ∷ ms) = do
    page ← paginate_measurement (view m) uri offset
    pages ← measurement_pages uri offset ms
    ok (in_place m page ∷ pages)

  abbrev pub paginated : Uri → Option String → List Measurement → Result MeasurementPages
  paginated uri none result = ok (plain result)
  paginated uri (some offset) result = do
    pages ← measurement_pages uri (some offset) result
    ok (linked (self_link uri ∷ []) pages)

-- a value that is made of the result, without the client
abbrev then_made : {W A B : Type 0} → (A → Result B) → Result A × W → Result B × W
then_made make (r, w) = (r >>= make, w)

module _ {W : Type 0} (query : Client W) (region tenant_id : String) where
  unfoldable pub list_of_metrics :
      String → Dict String → Uri → Option String → Exec W (Page (List Metric))
  unfolding list_metrics paginate unavailable
  list_of_metrics name dimensions uri offset w = caught (
      then_made (λ result. paginate (λ m. m.id) result uri offset)
        (list_metrics query tenant_id region name dimensions offset w))

  module _ (utc : Json → Result Json) where
    unfoldable pub list_of_measurements :
        (Json → String) → Period → Uri → Option String → Exec W MeasurementPages
    unfolding measurement_list measurement_pages unavailable
    list_of_measurements id_text p uri offset w = caught (
        then_made (paginated id_text uri offset) (
          measurement_list utc query tenant_id region p.selected.name p.selected.dimensions
            p.start_timestamp p.end_timestamp offset w))

    unfoldable pub metric_statistics :
        Period → List String → Option String → Exec W (List Statistics)
    unfolding metrics_statistics unavailable
    metric_statistics p statistics period w = caught (
        metrics_statistics utc query tenant_id region p.selected.name p.selected.dimensions
          p.start_timestamp p.end_timestamp statistics period w)

  module _ (roles : List String) (req : Request) where
    unfoldable pub do_get_metrics : Exec W (Page (List Metric))
    unfolding validate_authorization selection offset_of list_of_metrics
    do_get_metrics w =
        after (λ (s, offset). list_of_metrics s.name s.dimensions req.uri offset)
          (
            validate_authorization req roles
                >> (selection req >>= λ s. offset_of req >>= λ offset. ok (s, offset)),
            w,
          )

    module _ (utc : Json → Result Json) (convert_time_string : String → Option ℕ) where
      unfoldable pub do_get_measurements : (Json → String) → Exec W MeasurementPages
      unfolding validate_authorization period_of offset_of list_of_measurements
      do_get_measurements id_text w =
          after (λ (p, offset). list_of_measurements utc id_text p req.uri offset)
            (
              validate_authorization req roles
                  >> (period_of convert_time_string req >>= λ p.
                      offset_of req >>= λ offset. ok (p, offset)),
              w,
            )

      unfoldable pub do_get_statistics : Exec W (List Statistics)
      unfolding validate_authorization period_of get_query_statistics get_query_period
          metric_statistics
      do_get_statistics w =
          after (λ (p, statistics). metric_statistics utc p statistics (get_query_period req))
            (
              validate_authorization req roles
                  >> (period_of convert_time_string req >>= λ p.
                      get_query_statistics req >>= λ statistics. ok (p, statistics)),
              w,
            )
