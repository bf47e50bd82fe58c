-- ===== src/Tests/Influx.antt =====
-- Series, pages, queries and histories of the InfluxDB repository at concrete inputs.
use monasca_api.Prelude.{
  ◌≡◌, refl, ◌⊎◌, String, List, [], ◌∷◌, Option, none, some, Dict, NoCode, differ, order_by,
}
use monasca_api.Errors.{Result, ok, err, repository, python}
use monasca_api.Errors.Refusals.{Raises}
use monasca_api.Json.{Json, int, str}
use monasca_api.Influx.Bytes.{encode}
use monasca_api.Influx.Quoting.{quote, slash, is_ascii}
use monasca_api.Influx.Series.{Metric, decode_influxdb_serie_name}
use monasca_api.Influx.Series.Names.{serie_name, found_dimensions}
use monasca_api.Influx.Series.RoundTrip.{decode_influxdb_serie_name-serie_name}
use monasca_api.Influx.Queries.{pattern, build_select_query}
use monasca_api.Influx.Queries.Safe.{pattern-NoCode}
use monasca_api.Influx.Metrics.{Serie, series, item, Client, decode_influxdb_serie_name_list}
use monasca_api.Influx.Metrics.Pages.{all_metrics, limited, decode_influxdb_serie_name_list-limited}
use monasca_api.Influx.Metrics.Overlap.{next_page_repeats}
use monasca_api.Influx.Measurements.{measurement_list, metrics_statistics}
use monasca_api.Influx.Measurements.Refusals.{measurement_list-Raises}
use monasca_api.Influx.History.{alarm_history}
use monasca_api.Influx.History.Inputs.{NotAsked, Asked, alarm_history-inputs}

abbrev hosts : Dict String
hosts = ("host=name", "a&b?c") ∷ ("über", "千") ∷ []

decode_influxdb_serie_name-serie_name_example :
    decode_influxdb_serie_name (serie_name "tenant" "useast" "cpu/千" hosts)
    ≡ ok (
        some (record {
          name = "cpu/千";
          id = quote slash (serie_name "tenant" "useast" "cpu/千" hosts);
          dimensions = found_dimensions hosts;
        }))
decode_influxdb_serie_name-serie_name_example =
    decode_influxdb_serie_name-serie_name "tenant" "useast" "cpu/千" hosts (differ "tenant" "" refl)
      (differ "useast" "" refl) (differ "cpu/千" "" refl)
      (
        (differ "host=name" "" refl, differ "a&b?c" "" refl),
        ((differ "über" "" refl, differ "千" "" refl), tt),
      )

names :
    serie_name "tenant" "useast" "千" (("dim1", "a b") ∷ []) ≡ "tenant?useast&%E5%8D%83&dim1=a%20b"
unfolding serie_name quote encode
names = refl

abbrev plain : Metric
plain = record { name = "cpu"; id = quote slash "t?r&cpu"; dimensions = none }

abbrev rows : List (List Json)
rows = (int 0 ∷ str "t?r&cpu" ∷ []) ∷ (int 0 ∷ str "junk" ∷ []) ∷ []

abbrev answered : Serie
answered = record { name = "list_series_result"; columns = "time" ∷ "name" ∷ []; points = rows }

all_of_them : all_metrics (some "") rows ≡ ok (plain ∷ [])
unfolding all_metrics quote item
all_of_them = refl

decode_influxdb_serie_name_list-limited_example :
    decode_influxdb_serie_name_list (some "") (answered ∷ []) ≡ ok (limited (some "") (plain ∷ []))
decode_influxdb_serie_name_list-limited_example =
    decode_influxdb_serie_name_list-limited (some "") answered [] (plain ∷ []) all_of_them

named : decode_influxdb_serie_name "t?r&cpu" ≡ ok (some plain)
unfolding decode_influxdb_serie_name quote
named = refl

again : all_metrics (some (quote slash "t?r&cpu")) rows ≡ ok (plain ∷ [])
unfolding all_metrics quote item
again = refl

next_page_repeats_example :
    (rest : List Metric) × (decode_influxdb_serie_name_list
        (some (quote slash "t?r&cpu"))
        (answered ∷ [])
      ≡ ok (plain ∷ rest))
next_page_repeats_example =
    next_page_repeats answered [] (int 0) "t?r&cpu" ((int 0 ∷ str "junk" ∷ []) ∷ []) plain
      (plain ∷ []) (unfold is_ascii in refl) named again

pattern-NoCode_example : NoCode b'/' (pattern hosts "a/b" "t/$" "us/east")
pattern-NoCode_example = pattern-NoCode hosts "a/b" "t/$" "us/east"

-- a client whose world is the list of the queries that it was sent
abbrev recorder : List Serie → Client (List String)
recorder answer text sent = (series answer, text ∷ sent)

abbrev gmtime : Json → Result Json
gmtime seconds = ok (str "1970-01-01T00:00:00Z")

abbrev bare_serie : Serie
bare_serie = record {
  name = serie_name "t" "r" "cpu" [];
  columns = "time" ∷ "sequence_number" ∷ "value" ∷ [];
  points = (int 1 ∷ int 2 ∷ int 3 ∷ []) ∷ [];
}

measurement_list-Raises_example :
    Raises
      (measurement_list gmtime (recorder (bare_serie ∷ [])) "t" "r" "cpu" [] 100 none none []).0
    × Raises
        (metrics_statistics gmtime
          (recorder (bare_serie ∷ []))
          "t"
          "r"
          "cpu"
          []
          100
          none
          ("avg" ∷ [])
          none
          []).0
measurement_list-Raises_example =
    measurement_list-Raises gmtime (recorder (bare_serie ∷ [])) [] [] [] bare_serie "t" "r" "cpu"
      "t" "r" "cpu" [] 100 none none none ("avg" ∷ []) (differ "t" "" refl) (differ "r" "" refl)
      (differ "cpu" "" refl) refl (λ text. refl)

select :
    build_select_query (("host", "a/b") ∷ []) "cpu" "t" "r" 100 (some 200) (some "")
    ≡ "select * from /^t\\?r&cpu(&|$)(.*&)*host=a%2Fb(&|$)/ where time > 99.0s and time < 201.0s limit 50"
unfolding build_select_query order_by
select = refl

abbrev nothing_read : String → Option Json
nothing_read text = none

abbrev attack : List String
attack = "a" ∷ "b' or '1' = '1" ∷ []

alarm_history-inputs_example :
    NotAsked nothing_read gmtime
      (recorder [])
      "t"
      attack
      none
      none
      none
      []
      (alarm_history nothing_read gmtime (recorder []) "t" attack none none none [])
    ⊎ Asked nothing_read gmtime
        (recorder [])
        "t"
        attack
        none
        none
        none
        []
        (alarm_history nothing_read gmtime (recorder []) "t" attack none none none [])
alarm_history-inputs_example =
    alarm_history-inputs nothing_read gmtime (recorder []) "t" attack none none none []

refused :
    alarm_history nothing_read gmtime (recorder []) "t" attack none none none []
    ≡ (err (repository (python "Exception")), [])
unfolding alarm_history
refused = refl
