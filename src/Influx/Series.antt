-- ===== src/Influx/Series.antt =====
-- The names of the series, `_decode_influxdb_serie_name` and its list of
-- monasca/common/repositories/influxdb/metrics_repository.py.
pub mod Names
pub mod Dimensions
pub mod RoundTrip
use monasca_api.Prelude.{
  ℕ, Bool, true, false, not, String, List, [], ◌∷◌, Option, none, some, Dict, put, if◌then◌else◌,
  length, leb,
}
use monasca_api.Prelude.Order.Texts.{text_lt}
use monasca_api.Errors.{Result, ok, err, ◌>>=◌, python}
use monasca_api.Paging.{page_limit}
use monasca_api.Influx.Bytes.{encode, decode}
use monasca_api.Influx.Words.{serie_prefix, dimension_at, without_prefixes, find_dimensions}
use monasca_api.Influx.Quoting.{quote, slash, unquote, unquote_plus, is_ascii}

pub record Metric : Type 0 where
  pub name : String
  pub id : String
  pub dimensions : Option (Dict String)

abbrev pub decoded : String → Result String
decoded bytes = elim (decode bytes) [ none ↦ err (python "UnicodeDecodeError") | some s ↦ ok s ]

-- `urllib.unquote(part.encode('utf8')).decode('utf8')`
unfoldable pub unquoted : String → Result String
unfolding unquote encode decode
unquoted part = decoded (unquote (encode part))

-- the loop over `dimension_list`
unfoldable pub put_pairs : Dict String → List (String × String) → Result (Dict String)
unfolding unquoted
put_pairs dimensions [] = ok dimensions
put_pairs dimensions ((n, v) ∷ pairs) = do
  dimension_name ← unquoted n
  dimension_value ← unquoted v
  put_pairs (put dimension_name dimension_value dimensions) pairs

-- `urllib.quote(serie_name)` of a unicode text
unfoldable pub quote_text : String → Result String
unfolding quote is_ascii
quote_text s = if is_ascii s then ok (quote slash s) else err (python "KeyError")

abbrev pub metric_with : String → String → Result (Dict String) → Result (Option Metric)
metric_with name id found = do
  dimensions ← found
  ok (some (record { name = name; id = id; dimensions = some dimensions }))

abbrev pub without_dimensions : String → String → Result (Option Metric)
without_dimensions name id = ok (some (record { name = name; id = id; dimensions = none }))

unfoldable pub decode_influxdb_serie_name : String → Result (Option Metric)
unfolding serie_prefix dimension_at without_prefixes find_dimensions put_pairs quote_text
    unquote_plus encode decode
decode_influxdb_serie_name serie_name = elim (serie_prefix serie_name) [
  | none ↦ ok none
  | some (name, rest) ↦ do
    metric_name ← decoded (unquote_plus (encode name))
    id ← quote_text serie_name
    elim (dimension_at rest) [
      | none ↦ without_dimensions metric_name id
      | some match ↦
          metric_with metric_name id
            (put_pairs [] (find_dimensions 0 (without_prefixes 0 serie_name)))
    ]
]
