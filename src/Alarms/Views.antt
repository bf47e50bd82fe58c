-- ===== src/Alarms/Views.antt =====
-- How the rows become what is sent back: `_alarm_show` and `_alarm_list` of
-- monasca/v2/reference/alarms.py. `definitions_uri` is the request's URI with "alarms" replaced by
-- "alarm-definitions".
pub mod Grouping
use monasca_api.Prelude.{
  ◌≡◌, Bool, true, false, String, List, [], ◌∷◌, ◌++◌, Option, none, some, Dict, put, seq, split,
  if◌then◌else◌,
}
use monasca_api.Errors.{Result, ok, err, ◌>>=◌, python}
use monasca_api.Http.{Uri}
use monasca_api.Paging.{Link, Page, bare, get_link, paginate}
use monasca_api.AlarmDefinitions.Create.{parsed_dimension}
use monasca_api.Alarms.{AlarmRow}

pub record Metric : Type 0 where
  pub name : String
  pub dimensions : Dict String

pub record DefinitionView : Type 0 where
  pub id : String
  pub name : String
  pub severity : String
  pub links : List Link

pub record AlarmView : Type 0 where
  pub id : String
  pub metrics : List Metric
  pub state : String
  pub alarm_definition : DefinitionView
  pub links : List Link

unfoldable pub put_dimensions : Dict String → List String → Result (Dict String)
unfolding parsed_dimension put
put_dimensions dimensions [] = ok dimensions
put_dimensions dimensions (d ∷ ds) = do
  pair ← parsed_dimension (split b'=' d)
  put_dimensions (put pair.0 pair.1 dimensions) ds

-- `if alarm_row['metric_dimensions']:`
unfoldable pub dimensions_of_text : Option String → Result (Dict String)
unfolding put_dimensions
dimensions_of_text none = ok []
dimensions_of_text (some text) = if seq text "" then ok [] else put_dimensions [] (split b',' text)

unfoldable pub metric_of : AlarmRow → Result Metric
unfolding dimensions_of_text
metric_of row = do
  dimensions ← dimensions_of_text row.metric_dimensions
  ok (record { name = row.metric_name; dimensions = dimensions })

abbrev pub add_metric : Metric → AlarmView → AlarmView
add_metric m alarm = record alarm { metrics = alarm.metrics ++ m ∷ [] }

module _ (uri definitions_uri : Uri) where
  -- the alarm of a row, with no metrics yet
  abbrev pub start : AlarmRow → AlarmView
  start row = record {
    id = row.alarm_id;
    metrics = [];
    state = row.state;
    alarm_definition = record {
      id = row.alarm_definition_id;
      name = row.alarm_definition_name;
      severity = row.severity;
      links = get_link definitions_uri row.alarm_definition_id none ∷ [];
    };
    links = get_link uri row.alarm_id (some "self") ∷ [];
  }

  -- the rest of the loop of `_alarm_show`
  unfoldable pub show_rows : AlarmView → List AlarmRow → Result AlarmView
  unfolding metric_of
  show_rows alarm [] = ok alarm
  show_rows alarm (row ∷ rows) = do m ← metric_of row; show_rows (add_metric m alarm) rows

  -- `alarm` is unbound without rows, which `get_alarm` never returns
  unfoldable pub show_alarm : List AlarmRow → Result AlarmView
  unfolding show_rows get_link
  show_alarm [] = err (python "UnboundLocalError")
  show_alarm (row ∷ rows) = show_rows (start row) (row ∷ rows)

  -- The rest of the loop of `_alarm_list`, with the alarm that is being filled; it is appended to the
  -- result when a row has another id, and at the end.
  unfoldable pub group_rows : AlarmView → List AlarmRow → Result (List AlarmView)
  unfolding metric_of get_link
  group_rows alarm [] = ok (alarm ∷ [])
  group_rows alarm (row ∷ rows) = do
    m ← metric_of row
    elim (seq alarm.id row.alarm_id) [
      | true ↦ group_rows (add_metric m alarm) rows
      | false ↦ do rest ← group_rows (add_metric m (start row)) rows; ok (alarm ∷ rest)
    ]

  unfoldable pub alarm_list : List AlarmRow → Option String → Result (Page (List AlarmView))
  unfolding group_rows paginate
  alarm_list [] offset = ok (bare [])
  alarm_list (row ∷ rows) offset = do
    alarms ← group_rows (start row) (row ∷ rows)
    paginate (λ alarm. alarm.id) alarms uri offset
