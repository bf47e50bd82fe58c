-- ===== src/Influx/Measurements/Refusals.antt =====
-- A metric without dimensions, which the lists cannot hold.
use monasca_api.Prelude.{
  ◌≡◌, ◌≢◌, ◌∙◌, refl, ap, ℕ, String, List, [], ◌∷◌, ◌++◌, Option, none, some, Dict,
}
use monasca_api.Errors.{Result, ok, ◌>>=◌, repository, map_err}
use monasca_api.Errors.Refusals.{Raises, Raises-bind}
use monasca_api.Json.{Json}
use monasca_api.Influx.Quoting.{quote, slash}
use monasca_api.Influx.Series.{Metric, decode_influxdb_serie_name}
use monasca_api.Influx.Series.Names.{serie_name}
use monasca_api.Influx.Series.RoundTrip.{decode_influxdb_serie_name-serie_name}
use monasca_api.Influx.Metrics.{Serie, Answer, series, Client}
use monasca_api.Influx.Measurements.{
  dimensions_in, each_point, last_time, renamed, measurement_point, statistics_point, each_serie,
  measurement_of, statistics_of, unless_unknown, measurement_list, metrics_statistics,
}

no_dimensions :
    {A : Type 0} (m : Option (Dict String)) (f : Dict String → Result A)
    → m ≡ none
    → Raises (dimensions_in m >>= f)
no_dimensions none f h = (_, refl)
no_dimensions (some d) f h = absurd (cc)

abbrev raised_bind : {A B : Type 0} (r : Result A) (f : A → Result B) → Raises r → Raises (r >>= f)
raised_bind r f (e, h) = (e, ap (λ q. q >>= f) h)

module _ (utc : Json → Result Json) (metric : Metric) (serie : Serie)
    (h : metric.dimensions ≡ none) where
  measurement_of-Raises : Raises (measurement_of utc metric serie)
  unfolding measurement_of
  measurement_of-Raises = Raises-bind (each_point (measurement_point utc) serie.points) _ (λ points.
      Raises-bind (last_time serie.points) _ (λ id.
        no_dimensions metric.dimensions
          (λ dimensions. ok (record {
            name = metric.name;
            id = id;
            dimensions = dimensions;
            columns = renamed "sequence_number" "id" serie.columns;
            measurements = points;
          }))
          h))

  statistics_of-Raises : Raises (statistics_of utc metric serie)
  unfolding statistics_of
  statistics_of-Raises = Raises-bind (each_point (statistics_point utc) serie.points) _ (λ points.
      no_dimensions metric.dimensions
        (λ dimensions. ok (record {
          name = metric.name;
          dimensions = dimensions;
          columns = renamed "mean" "avg" serie.columns;
          measurements = points;
        }))
        h)

module _ {A : Type 0} (make : Metric → Serie → Result A) (metric : Metric) (serie : Serie)
    (decoded : decode_influxdb_serie_name serie.name ≡ ok (some metric))
    (refused : Raises (make metric serie)) where
  abbrev after_decoded : Serie → List Serie → Option Metric → Result (List A)
  after_decoded one others found = elim found [
    | none ↦ each_serie make others
    | some m ↦ do made ← make m one; rest ← each_serie make others; ok (made ∷ rest)
  ]

  rest_raises :
      (one : Serie) (others : List Serie) (found : Option Metric)
      → Raises (each_serie make others)
      → Raises (after_decoded one others found)
  rest_raises one others none k = k
  rest_raises one others (some m) k = Raises-bind (make m one) _ (λ made. raised_bind _ _ k)

  each_serie-Raises :
      (before others : List Serie) → Raises (each_serie make (before ++ serie ∷ others))
  unfolding each_serie
  each_serie-Raises [] others =
      let (e, p) =
        raised_bind (make metric serie)
          (λ made. each_serie make others >>= (λ rest. ok (made ∷ rest))) refused in
      (e, ap (λ r. r >>= after_decoded serie others) decoded ∙ p)
  each_serie-Raises (one ∷ before) others =
      Raises-bind (decode_influxdb_serie_name one.name) _ (λ found.
        rest_raises one (before ++ serie ∷ others) found (each_serie-Raises before others))

unless_unknown-Raises :
    {A : Type 0} (next : List Serie → Result (List A)) (l : List Serie) (answer : Answer)
    → answer ≡ series l
    → Raises (next l)
    → Raises (map_err repository (unless_unknown next answer))
unless_unknown-Raises next l answer h (e, p) = (
  repository e,
  ap (λ a. map_err repository (unless_unknown next a)) h ∙ ap (map_err repository) p,
)

-- If the client's answer holds the serie of a metric without dimensions, then both lists raise,
-- whatever other series the answer holds.
pub measurement_list-Raises :
    (utc : Json → Result Json) {W : Type 0} (query : Client W) (w : W) (before others : List Serie)
    (serie : Serie) (tenant_id region name tenant region_name metric : String)
    (dimensions : Dict String) (start_timestamp : ℕ) (end_timestamp : Option ℕ)
    (offset period : Option String) (statistics : List String)
    → tenant ≢ ""
    → region_name ≢ ""
    → metric ≢ ""
    → serie.name ≡ serie_name tenant region_name metric []
    → ((text : String) → (query text w).0 ≡ series (before ++ serie ∷ others))
    → Raises
        (measurement_list utc query tenant_id region name dimensions start_timestamp end_timestamp
          offset w).0
      × Raises
          (metrics_statistics utc query tenant_id region name dimensions start_timestamp
            end_timestamp statistics period w).0
unfolding measurement_list metrics_statistics
measurement_list-Raises utc query w before others serie tenant_id region name tenant region_name
      metric dimensions start_timestamp end_timestamp offset period statistics t r n named answers =
    let found : Metric = record {
      name = metric;
      id = quote slash (serie_name tenant region_name metric []);
      dimensions = none;
    } in
    let decoded : decode_influxdb_serie_name serie.name ≡ ok (some found) =
      ap decode_influxdb_serie_name named
      ∙ decode_influxdb_serie_name-serie_name tenant region_name metric [] t r n tt in
    (
      unless_unknown-Raises _ _ _ (answers _) (
          each_serie-Raises (measurement_of utc) found serie decoded
            (measurement_of-Raises utc found serie refl) before others),
      unless_unknown-Raises _ _ _ (answers _) (
          each_serie-Raises (statistics_of utc) found serie decoded
            (statistics_of-Raises utc found serie refl) before others),
    )
