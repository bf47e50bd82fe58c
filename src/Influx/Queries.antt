-- ===== src/Influx/Queries.antt =====
-- The queries that monasca/common/repositories/influxdb/metrics_repository.py builds:
-- `_build_from_clause`, `_build_list_series_query`, `_build_select_query`,
-- `_build_statistics_query` and `_build_offset_clause`.
pub mod Safe
pub mod Decimal
use Prim.Native.String.{[], ◌∷◌}
use monasca_api.Prelude.{
  ◌≡◌, ℕ, zero, suc, ◌+◌, ◌-◌, ◌/◌, ◌%◌, Bool, true, false, String, append, List, map, Option, none,
  some, Dict, join, seq, ltb, if◌then◌else◌, order_by,
}
use monasca_api.Prelude.Order.Texts.{text_lt}
use monasca_api.Paging.{page_limit}
use monasca_api.Influx.Bytes.{byte, encode}
use monasca_api.Influx.Quoting.{quote, quoted_text, replacing, replace}

-- the digits of a number in front of a text, for a number below the fuel
unfoldable pub digits : ℕ → ℕ → String → String
unfolding byte
digits zero n s = s
digits (suc fuel) n s = elim (ltb n 10) [
  | true ↦ byte (48 + n) ∷ s
  | false ↦ digits fuel (n / 10) (byte (48 + n % 10) ∷ s)
]

-- `str(n)`
unfoldable pub decimal : ℕ → String
unfolding digits
decimal n = digits (suc n) n ""

-- `str(t)` of a timestamp, which is a float of whole seconds, as `total_seconds` gives it
unfoldable pub seconds : ℕ → String
unfolding decimal
seconds t = append (decimal t) ".0"

-- `str(t - 1)`
unfoldable pub seconds_before : ℕ → String
unfolding seconds
seconds_before zero = "-1.0"
seconds_before (suc t) = seconds t

-- `if name:`
unfoldable pub name_pattern : String → String
unfolding quote encode
name_pattern name = if seq name "" then "" else append "&" (append (quoted_text name) "(&|$)")

abbrev dimension_pattern : String × String → String
dimension_pattern d =
    append "(.*&)*" (append (quoted_text d.0) (append "=" (append (quoted_text d.1) "(&|$)")))

unfoldable pub dimension_patterns : Dict String → String
unfolding quote encode
dimension_patterns List.[] = ""
dimension_patterns (List.◌∷◌ d ds) = append (dimension_pattern d) (dimension_patterns ds)

module _ (dimensions : Dict String) (name tenant_id region : String) where
  -- what stands between the slashes
  unfoldable pub pattern : String
  unfolding name_pattern dimension_patterns quote encode
  pattern = append "^" (
      append (quoted_text tenant_id) (
        append "\\?" (
          append (quoted_text region) (
            append (name_pattern name)
              (dimension_patterns (order_by text_lt (λ d. d.0) dimensions))))))

  abbrev end_clause : Option ℕ → String
  end_clause none = ""
  end_clause (some end_timestamp) = append " and time < " (append (seconds (end_timestamp + 1)) "s")

  abbrev time_clause : Option ℕ → Option ℕ → String
  time_clause none end_timestamp = ""
  time_clause (some start_timestamp) end_timestamp =
      append " where time > "
        (append (seconds_before start_timestamp) (append "s" (end_clause end_timestamp)))

  unfoldable pub build_from_clause : Option ℕ → Option ℕ → String
  unfolding pattern seconds seconds_before
  build_from_clause start_timestamp end_timestamp =
      append "from /" (append pattern (append "/" (time_clause start_timestamp end_timestamp)))

  unfoldable pub build_list_series_query : String
  unfolding build_from_clause
  build_list_series_query = append "list series " (build_from_clause none none)

unfoldable pub build_offset_clause : Option String → String
unfolding decimal
build_offset_clause none = ""
build_offset_clause (some offset) =
    if seq offset ""
    then append " limit " (decimal page_limit)
    else append " and time < " (append offset (append "s limit " (decimal page_limit)))

module _ (dimensions : Dict String) (name tenant_id region : String) where
  unfoldable pub build_select_query : ℕ → Option ℕ → Option String → String
  unfolding build_from_clause build_offset_clause
  build_select_query start_timestamp end_timestamp offset = append "select * " (
      append
        (build_from_clause dimensions name tenant_id region (some start_timestamp) end_timestamp)
        (build_offset_clause offset))

  abbrev period_or_default : Option String → String
  period_or_default none = decimal 300
  period_or_default (some period) = period

  unfoldable pub build_statistics_query : ℕ → Option ℕ → List String → Option String → String
  unfolding build_from_clause decimal replacing
  build_statistics_query start_timestamp end_timestamp statistics period =
      let columns = map (λ s. append (replace "avg" "mean" s) "(value)") statistics in
      append "select " (
        append (join "," columns) (
          append " " (
            append
              (build_from_clause dimensions name tenant_id region (some start_timestamp)
                end_timestamp)
              (append " group by time(" (append (period_or_default period) "s)")))))
