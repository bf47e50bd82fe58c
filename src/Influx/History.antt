-- ===== src/Influx/History.antt =====
-- `alarm_history` of monasca/common/repositories/influxdb/metrics_repository.py. `loads` is the JSON
-- parser, with its `ValueError` as `none`, and `utc` what `time.strftime` makes of a number.
pub mod Inputs
use Prim.Native.String.{[], ◌∷◌}
use monasca_api.Prelude.{
  ◌≡◌, ℕ, zero, suc, ◌+◌, ◌==◌, ◌||◌, Bool, true, false, String, append, code, List, map, any,
  Option, none, some, if◌then◌else◌,
}
use monasca_api.Errors.{Result, ok, err, ◌>>=◌, python, repository, map_err, Exec}
use monasca_api.Json.{Json}
use monasca_api.Influx.Bytes.{encode}
use monasca_api.Influx.Metrics.{Serie, Answer, Client, item, as_text}
use monasca_api.Influx.Measurements.{unless_unknown}
use monasca_api.Influx.Queries.{seconds, seconds_before, build_offset_clause}

pub record AlarmPoint : Type 0 where
  pub alarm_id : Json
  pub metrics : Json
  pub old_state : Json
  pub new_state : Json
  pub reason : Json
  pub reason_data : Json
  pub timestamp : Json
  pub id : Json

-- `'\'' in alarm_id or ';' in alarm_id`
unfoldable pub is_unsafe : String → Bool
is_unsafe [] = false
is_unsafe (c ∷ s) = ((code c == 39) || (code c == b';')) || is_unsafe s

-- `" or ".join(...)` of the tests of the ids
unfoldable pub id_clauses : List String → String
unfolding encode
id_clauses List.[] = ""
id_clauses (List.◌∷◌ id List.[]) = append " alarm_id = '" (append (encode id) "' ")
id_clauses (List.◌∷◌ id (List.◌∷◌ next ids)) =
    append (append " alarm_id = '" (append (encode id) "' "))
      (append " or " (id_clauses (List.◌∷◌ next ids)))

abbrev pub after_seconds : ℕ → String
after_seconds t = append " and time > " (append (seconds_before t) "s")

abbrev pub before_seconds : ℕ → String
before_seconds t = append " and time < " (append (seconds (t + 1)) "s")

-- `if start_timestamp:`, which 0 is not
abbrev pub if_given : (ℕ → String) → Option ℕ → String
if_given clause none = ""
if_given clause (some zero) = ""
if_given clause (some (suc t)) = clause (suc t)

abbrev pub selection : String
selection =
    "\n              select alarm_id, metrics, old_state, new_state,\n                     reason, reason_data\n              from alarm_state_history\n              "

unfoldable pub history_query : String → List String → Option String → Option ℕ → Option ℕ → String
unfolding encode id_clauses seconds seconds_before build_offset_clause
history_query tenant_id alarm_id_list offset start_timestamp end_timestamp = append selection (
    append " where tenant_id = '" (
      append (encode tenant_id) (
        append "' " (
          append " and (" (
            append (id_clauses alarm_id_list) (
              append ")" (
                append (if_given after_seconds start_timestamp) (
                  append (if_given before_seconds end_timestamp)
                    (build_offset_clause offset)))))))))

module _ (loads : String → Option Json) (utc : Json → Result Json) where
  -- `json.loads(point[3])`
  abbrev parsed_metrics : String → Result Json
  parsed_metrics s = elim (loads s) [ none ↦ err (python "ValueError") | some v ↦ ok v ]

  unfoldable pub alarm_point : List Json → Result AlarmPoint
  unfolding item
  alarm_point point = do
    alarm_id ← item 2 point
    column ← item 3 point
    content ← as_text column
    metrics ← parsed_metrics content
    old_state ← item 4 point
    new_state ← item 5 point
    reason ← item 6 point
    reason_data ← item 7 point
    time ← item 0 point
    timestamp ← utc time
    ok (record {
      alarm_id = alarm_id;
      metrics = metrics;
      old_state = old_state;
      new_state = new_state;
      reason = reason;
      reason_data = reason_data;
      timestamp = timestamp;
      id = time;
    })

  unfoldable pub alarm_points : List (List Json) → Result (List AlarmPoint)
  unfolding alarm_point
  alarm_points List.[] = ok List.[]
  alarm_points (List.◌∷◌ point points) = do
    first ← alarm_point point
    rest ← alarm_points points
    ok (List.◌∷◌ first rest)

  -- "There's only one serie"
  abbrev pub points_in : List Serie → Result (List AlarmPoint)
  points_in List.[] = ok List.[]
  points_in (List.◌∷◌ serie others) = alarm_points serie.points

  module _ {W : Type 0} (query : Client W) where
    -- the query and what becomes of its answer
    unfoldable pub ask_history : String → Exec W (List AlarmPoint)
    unfolding alarm_points
    ask_history text w = let (answer, w') = query text w in (unless_unknown points_in answer, w')

    unfoldable pub alarm_history :
        String → List String → Option String → Option ℕ → Option ℕ → Exec W (List AlarmPoint)
    unfolding is_unsafe history_query ask_history
    alarm_history tenant_id List.[] offset start_timestamp end_timestamp w = (ok List.[], w)
    alarm_history tenant_id (List.◌∷◌ id ids) offset start_timestamp end_timestamp w =
        elim (any is_unsafe (List.◌∷◌ id ids)) [
          | true ↦ (err (repository (python "Exception")), w)
          | false ↦
              let text =
                history_query tenant_id (List.◌∷◌ id ids) offset start_timestamp end_timestamp in
              let (r, w') = ask_history text w in (map_err repository r, w')
        ]
