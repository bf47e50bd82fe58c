-- ===== src/Influx/Metrics/Pages.antt =====
-- Which metrics a page of `list_metrics` holds.
use monasca_api.Prelude.{
  ◌≡◌, ◌∙◌, refl, ap, sym, ℕ, zero, suc, ◌-◌, ◌<◌, Bool, true, false, String, List, [], ◌∷◌, Option,
  none, some, take, leb, arith, Bool-cases, inl, inr,
}
use monasca_api.Errors.{Result, ok, err, ◌>>=◌}
use monasca_api.Errors.Outcomes.{returned_steps}
use monasca_api.Json.{Json}
use monasca_api.Paging.{page_limit}
use monasca_api.Influx.Series.{Metric, decode_influxdb_serie_name}
use monasca_api.Influx.Metrics.{
  Serie, serie_name_at, is_before, is_full, in_front, decode_rows, decode_influxdb_serie_name_list,
}

-- A row by itself: the metric of its serie, unless the name is before the offset or is not that of
-- a metric.
unfoldable pub row_metric : Option String → List Json → Result (Option Metric)
unfolding is_before decode_influxdb_serie_name
row_metric offset row = do
  serie_name ← serie_name_at row
  elim (is_before offset serie_name) [
    | true ↦ ok none
    | false ↦ decode_influxdb_serie_name serie_name
  ]

abbrev pub with_found : Option Metric → List Metric → List Metric
with_found none metrics = metrics
with_found (some metric) metrics = metric ∷ metrics

-- all the metrics, one row after the other
unfoldable pub all_metrics : Option String → List (List Json) → Result (List Metric)
unfolding row_metric
all_metrics offset [] = ok []
all_metrics offset (row ∷ rows) = do
  found ← row_metric offset row
  metrics ← all_metrics offset rows
  ok (with_found found metrics)

-- a request without an offset is not limited
unfoldable pub limited : Option String → List Metric → List Metric
limited none metrics = metrics
limited (some offset) metrics = take page_limit metrics

abbrev after_row :
    Option String → ℕ → List (List Json) → Result (Option Metric) → Result (List Metric)
after_row offset n rows (err e) = err e
after_row offset n rows (ok none) = decode_rows offset n rows
after_row offset n rows (ok (some metric)) = elim (is_full offset (suc n)) [
  | true ↦ ok (metric ∷ [])
  | false ↦ in_front metric (decode_rows offset (suc n) rows)
]

abbrev after_found : Option String → ℕ → List (List Json) → Option Metric → Result (List Metric)
after_found offset n rows found = elim found [
  | none ↦ decode_rows offset n rows
  | some metric ↦ elim (is_full offset (suc n)) [
    | true ↦ ok (metric ∷ [])
    | false ↦ in_front metric (decode_rows offset (suc n) rows)
  ]
]

module _ (offset : Option String) (n : ℕ) (rows : List (List Json)) where
  found_then :
      (r : Result (Option Metric)) → (r >>= after_found offset n rows) ≡ after_row offset n rows r
  found_then (err e) = refl
  found_then (ok none) = refl
  found_then (ok (some m)) = refl

  name_then :
      (name : String) (b : Bool)
      → (elim b [
        | true ↦ decode_rows offset n rows
        | false ↦ decode_influxdb_serie_name name >>= after_found offset n rows
      ])
        ≡ after_row offset n rows
            (elim b [ true ↦ ok none | false ↦ decode_influxdb_serie_name name ])
  name_then name true = refl
  name_then name false = found_then (decode_influxdb_serie_name name)

  named_then :
      (r : Result String)
      → (r >>= (λ name. elim (is_before offset name) [
        | true ↦ decode_rows offset n rows
        | false ↦ decode_influxdb_serie_name name >>= after_found offset n rows
      ]))
        ≡ after_row offset n rows (
            r >>= (λ name. elim (is_before offset name) [
              | true ↦ ok none
              | false ↦ decode_influxdb_serie_name name
            ]))
  named_then (err e) = refl
  named_then (ok name) = name_then name (is_before offset name)

  pub decode_rows_step :
      (row : List Json)
      → decode_rows offset n (row ∷ rows) ≡ after_row offset n rows (row_metric offset row)
  unfolding decode_rows row_metric
  decode_rows_step row = named_then (serie_name_at row)

-- the steps of `all_metrics` that returned
pub all_metrics_steps :
    (offset : Option String) (row : List Json) (rows : List (List Json)) (metrics : List Metric)
    → all_metrics offset (row ∷ rows) ≡ ok metrics
    → (found : Option Metric) × (rest : List Metric) × (row_metric offset row ≡ ok found)
      × (all_metrics offset rows ≡ ok rest)
      × (with_found found rest ≡ metrics)
unfolding all_metrics
all_metrics_steps offset row rows metrics h =
    let (found, e, g) = returned_steps (row_metric offset row) _ h in
    let (rest, f, same) = returned_steps (all_metrics offset rows) _ g in
    let equal : with_found found rest ≡ metrics = cc in (found, rest, e, f, equal)

-- the room that is left on a page with n metrics
abbrev limited_from : Option String → ℕ → List Metric → List Metric
limited_from none n metrics = metrics
limited_from (some offset) n metrics = take (page_limit - n) metrics

abbrev HasRoom : Option String → ℕ → Type 0
HasRoom none n = Unit
HasRoom (some offset) n = n < page_limit

module _ (metric : Metric) (rest : List Metric) where
  one_more : (room k : ℕ) → room ≡ suc k → take room (metric ∷ rest) ≡ metric ∷ take k rest
  one_more room k e = ap (λ r. take r (metric ∷ rest)) e

  metric_then :
      (offset : Option String) (n : ℕ) (rows : List (List Json))
      → HasRoom offset n
      → (HasRoom offset (suc n)
          → decode_rows offset (suc n) rows ≡ ok (limited_from offset (suc n) rest))
      → after_row offset n rows (ok (some metric)) ≡ ok (limited_from offset n (metric ∷ rest))
  metric_then none n rows room k = rw (k tt) refl
  metric_then (some offset) n rows room k = elim (Bool-cases (leb page_limit (suc n))) [
    | inl e ↦ rw (after_row, e) (ap ok (sym (one_more (page_limit - n) 0 (ground arith))))
    | inr e ↦
        rw (after_row, e, k (ground arith))
          (ap ok (sym (one_more (page_limit - n) (page_limit - suc n) (ground arith))))
  ]

row_then :
    (offset : Option String) (n : ℕ) (rows : List (List Json)) (found : Option Metric)
    (rest : List Metric)
    → HasRoom offset n
    → ((m : ℕ) → HasRoom offset m → decode_rows offset m rows ≡ ok (limited_from offset m rest))
    → after_row offset n rows (ok found) ≡ ok (limited_from offset n (with_found found rest))
row_then offset n rows none rest room k = k n room
row_then offset n rows (some metric) rest room k =
    metric_then metric rest offset n rows room (k (suc n))

abbrev none_left : List Metric
none_left = []

take_none : (n : ℕ) → take n none_left ≡ none_left
take_none zero = refl
take_none (suc n) = refl

no_rows :
    (offset : Option String) (n : ℕ) (metrics : List Metric)
    → all_metrics offset [] ≡ ok metrics
    → decode_rows offset n [] ≡ ok (limited_from offset n metrics)
unfolding decode_rows all_metrics
no_rows none n metrics h = h
no_rows (some offset) n metrics h =
    let e : none_left ≡ metrics = cc in
    ap ok (sym (take_none (page_limit - n))) ∙ ap (λ l. ok (take (page_limit - n) l)) e

decode_rows-limited :
    (offset : Option String) (n : ℕ) (rows : List (List Json)) (metrics : List Metric)
    → HasRoom offset n
    → all_metrics offset rows ≡ ok metrics
    → decode_rows offset n rows ≡ ok (limited_from offset n metrics)
decode_rows-limited offset n [] metrics room h = no_rows offset n metrics h
decode_rows-limited offset n (row ∷ rows) metrics room h =
    let (found, rest, e, f, same) = all_metrics_steps offset row rows metrics h in
    decode_rows_step offset n rows row
    ∙ ap (after_row offset n rows) e
    ∙ row_then offset n rows found rest room (λ m r. decode_rows-limited offset m rows rest r f)
    ∙ ap (λ l. ok (limited_from offset n l)) same

-- If every row by itself returns, then the list holds the metrics of the rows in order: all of them
-- for a request without an offset, and the first `page_limit` of them for one with an offset.
pub decode_influxdb_serie_name_list-limited :
    (offset : Option String) (serie : Serie) (others : List Serie) (metrics : List Metric)
    → all_metrics offset serie.points ≡ ok metrics
    → decode_influxdb_serie_name_list offset (serie ∷ others) ≡ ok (limited offset metrics)
unfolding decode_influxdb_serie_name_list limited
decode_influxdb_serie_name_list-limited none serie others metrics h =
    decode_rows-limited none 0 serie.points metrics tt h
decode_influxdb_serie_name_list-limited (some offset) serie others metrics h =
    decode_rows-limited (some offset) 0 serie.points metrics (omega arith) h
