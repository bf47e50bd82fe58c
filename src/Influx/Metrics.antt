-- ===== src/Influx/Metrics.antt =====
-- `list_metrics` and `_decode_influxdb_serie_name_list` of
-- monasca/common/repositories/influxdb/metrics_repository.py, and the calls of the InfluxDB client.
pub mod Pages
pub mod Overlap
use monasca_api.Prelude.{
  ◌≡◌, ℕ, zero, suc, Bool, true, false, ◌&&◌, String, List, [], ◌∷◌, Option, none, some, Dict, seq,
  leb, ◌==◌, if◌then◌else◌,
}
use monasca_api.Prelude.Order.Texts.{text_lt}
use monasca_api.Errors.{Result, ok, err, ◌>>=◌, Exn, python, repository, map_err, Exec}
use monasca_api.Json.{Json, str, int}
use monasca_api.Paging.{page_limit}
use monasca_api.Influx.Quoting.{unquote}
use monasca_api.Influx.Series.{Metric, decode_influxdb_serie_name}
use monasca_api.Influx.Queries.{build_list_series_query}

-- a serie of the answer
pub record Serie : Type 0 where
  pub name : String
  pub columns : List String
  pub points : List (List Json)

-- What `influxdb_client.query(query, 's')` returns or raises; an `InfluxDBClientError` has a code
-- and a content.
pub data Answer : Type 0 where
  series : List Serie → Answer
  client_error : ℕ → String → Answer
  failure : Exn → Answer

-- the client: a query and the time's unit are sent, and its world changes
abbrev pub Client : Type 0 → Type 0
Client W = String → W → Answer × W

-- `point[i]`
unfoldable pub item : ℕ → List Json → Result Json
item n [] = err (python "IndexError")
item zero (v ∷ vs) = ok v
item (suc n) (v ∷ vs) = item n vs

abbrev pub as_text : Json → Result String
as_text (str s) = ok s
as_text _ = err (python "TypeError")

-- `serie_name_list[1]`, which is used as a text
abbrev pub serie_name_at : List Json → Result String
serie_name_at row = item 1 row >>= as_text

-- `serie_name < urllib.unquote(offset)`, if there is an offset
unfoldable pub is_before : Option String → String → Bool
unfolding unquote text_lt
is_before none serie_name = false
is_before (some offset) serie_name = text_lt serie_name (unquote offset)

-- the test that ends the loop when there is an offset
abbrev pub is_full : Option String → ℕ → Bool
is_full none n = false
is_full (some offset) n = leb page_limit n

abbrev pub in_front : Metric → Result (List Metric) → Result (List Metric)
in_front metric rest = do metrics ← rest; ok (metric ∷ metrics)

-- the loop of `_decode_influxdb_serie_name_list`, with how many metrics there are already
unfoldable pub decode_rows : Option String → ℕ → List (List Json) → Result (List Metric)
unfolding item is_before decode_influxdb_serie_name
decode_rows offset n [] = ok []
decode_rows offset n (row ∷ rows) = do
  serie_name ← serie_name_at row
  elim (is_before offset serie_name) [
    | true ↦ decode_rows offset n rows
    | false ↦ do
      found ← decode_influxdb_serie_name serie_name
      elim found [
        | none ↦ decode_rows offset n rows
        | some metric ↦ elim (is_full offset (suc n)) [
          | true ↦ ok (metric ∷ [])
          | false ↦ in_front metric (decode_rows offset (suc n) rows)
        ]
      ]
  ]

-- `series_names[0]['points']`
unfoldable pub decode_influxdb_serie_name_list : Option String → List Serie → Result (List Metric)
unfolding decode_rows
decode_influxdb_serie_name_list offset [] = err (python "IndexError")
decode_influxdb_serie_name_list offset (serie ∷ others) = decode_rows offset 0 serie.points

-- The exception of a call of the client that is not caught inside the method.
abbrev pub answered : {A : Type 0} → (List Serie → Result A) → Answer → Result A
answered next (series l) = next l
answered next (client_error code content) = err (python "InfluxDBClientError")
answered next (failure e) = err e

module _ {W : Type 0} (query : Client W) where
  unfoldable pub list_metrics :
      String → String → String → Dict String → Option String → Exec W (List Metric)
  unfolding build_list_series_query decode_influxdb_serie_name_list
  list_metrics tenant_id region name dimensions offset w =
      let (answer, w') = query (build_list_series_query dimensions name tenant_id region) w in
      (map_err repository (answered (decode_influxdb_serie_name_list offset) answer), w')
