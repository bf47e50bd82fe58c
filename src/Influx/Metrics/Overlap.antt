-- ===== src/Influx/Metrics/Overlap.antt =====
-- The next page begins with the serie that its offset names.
use Prim.Native.String.{[], ◌∷◌}
use monasca_api.Prelude.{
  ◌≡◌, ◌∙◌, refl, ap, sym, Bool, true, false, String, List, Option, none, some, code, ltb, take,
  arith,
}
use monasca_api.Prelude.Order.Texts.{text_lt, text_lt-IsOrder}
use monasca_api.Errors.{Result, ok}
use monasca_api.Json.{Json, str}
use monasca_api.Influx.Bytes.{IsBytes}
use monasca_api.Influx.Quoting.{quote, slash, is_ascii}
use monasca_api.Influx.Quoting.Laws.{unquote-quote}
use monasca_api.Influx.Series.{Metric, decode_influxdb_serie_name}
use monasca_api.Influx.Metrics.{Serie, is_before, item, decode_influxdb_serie_name_list}
use monasca_api.Influx.Metrics.Pages.{
  all_metrics, all_metrics_steps, limited, row_metric, with_found,
  decode_influxdb_serie_name_list-limited,
}

IsBytes-of_ascii : (s : String) → is_ascii s ≡ true → IsBytes s
unfolding is_ascii
IsBytes-of_ascii [] h = tt
IsBytes-of_ascii (c ∷ s) h =
    let (p, q) : (ltb (code c) 128 ≡ true) × (is_ascii s ≡ true) = ground arith in
    (ground arith, IsBytes-of_ascii s q)

not_before :
    (name : String) → is_ascii name ≡ true → is_before (some (quote slash name)) name ≡ false
unfolding is_before
not_before name h =
    ap (text_lt name) (unquote-quote slash refl name (IsBytes-of_ascii name h))
    ∙ text_lt-IsOrder.irreflexive name

abbrev row_of : Json → String → List Json
row_of time name = List.◌∷◌ time (List.◌∷◌ (str name) List.[])

abbrev serie_of : Serie → Json → String → List (List Json) → Serie
serie_of serie time name rows = record serie { points = List.◌∷◌ (row_of time name) rows }

abbrev kept : String → Bool → Result (Option Metric)
kept name early = elim early [ true ↦ ok none | false ↦ decode_influxdb_serie_name name ]

row_metric-offset :
    (time : Json) (name : String) (metric : Option Metric)
    → is_ascii name ≡ true
    → decode_influxdb_serie_name name ≡ ok metric
    → row_metric (some (quote slash name)) (row_of time name) ≡ ok metric
unfolding row_metric item
row_metric-offset time name metric h e = ap (kept name) (not_before name h) ∙ e

-- A page ends with a metric whose id becomes the offset of the next page. If InfluxDB's answer for
-- the next page begins with that serie, as it does when its order is that of the names, and every
-- row returns, then the next page begins with the same metric once more.
pub next_page_repeats :
    (serie : Serie) (others : List Serie) (time : Json) (name : String) (rows : List (List Json))
    (metric : Metric) (metrics : List Metric)
    → is_ascii name ≡ true
    → decode_influxdb_serie_name name ≡ ok (some metric)
    → all_metrics (some (quote slash name)) (serie_of serie time name rows).points ≡ ok metrics
    → (rest : List Metric) × (decode_influxdb_serie_name_list
          (some (quote slash name))
          (List.◌∷◌ (serie_of serie time name rows) others)
        ≡ ok (List.◌∷◌ metric rest))
next_page_repeats serie others time name rows metric metrics h e f =
    let offset = some (quote slash name) in
    let (found, rest, p, q, same) = all_metrics_steps offset (row_of time name) rows metrics f in
    let row = row_metric-offset time name (some metric) h e in
    let first : some metric ≡ found = cc in
    let whole : List.◌∷◌ metric rest ≡ metrics = ap (λ o. with_found o rest) first ∙ same in
    (
      take 49 rest,
      decode_influxdb_serie_name_list-limited offset (serie_of serie time name rows) others metrics
            f
          ∙ ap (λ l. ok (limited offset l)) (sym whole)
          ∙ unfold limited in refl,
    )
