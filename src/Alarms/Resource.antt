-- ===== src/Alarms/Resource.antt =====
-- The alarms resource, monasca/v2/reference/alarms.py: its methods over the repositories and its
-- handlers. `definitions` is what `re.sub` makes of the request's URI, `loads` the JSON parser,
-- `id_text` what `str` makes of an id, and `tenant_id` the header's value.
pub mod States
use Prim.Native.String
use monasca_api.Prelude.{
  ℕ, Bool, true, false, ◌||◌, String, List, [], ◌∷◌, map, Option, none, some, Dict, get, seq, upper,
  lower, listed, ◌⊎◌, inl, inr, if◌then◌else◌,
}
use monasca_api.Errors.{
  Exec, Result, ok, err, ◌>>=◌, ◌>>◌, python, mysql_try_catch_block, resource_try_catch_block,
}
use monasca_api.Errors.Steps.{after, returned}
use monasca_api.Database.{Db}
use monasca_api.Expression.{SubExpr}
use monasca_api.Http.{Uri, Request, validate_authorization}
use monasca_api.Http.Query.{
  bad, offset_of, get_query_starttime_timestamp, get_query_endtime_timestamp,
}
use monasca_api.Json.{Json, Items, str, arr, obj, nil, cons, find, read_json_msg_body}
use monasca_api.Paging.{Page, paginate}
use monasca_api.Messages.{Publisher}
use monasca_api.Alarming.Updates.{World, on_db, alarm_update, alarm_delete}
use monasca_api.Alarms.{AlarmRow, get_alarm}
use monasca_api.Alarms.Listing.{AlarmQuery, get_alarms}
use monasca_api.Alarms.Views.{AlarmView, show_alarm, alarm_list}
use monasca_api.Influx.Metrics.{Client}
use monasca_api.Influx.Quoting.{begins}
use monasca_api.Influx.History.{AlarmPoint, alarm_history}

-- `part in text`
unfoldable pub holds : String → String → Bool
unfolding begins
holds part String.[] = begins part ""
holds part (String.◌∷◌ c s) = begins part (String.◌∷◌ c s) || holds part s

-- `text in list`
unfoldable pub holds_item : String → Items → Bool
holds_item text nil = false
holds_item text (cons (str s) items) = seq s text || holds_item text items
holds_item text (cons json items) = holds_item text items

-- `json_msg['state'].upper()`
abbrev pub upper_text : Json → Result String
upper_text (str s) = ok (upper s)
upper_text _ = err (python "AttributeError")

abbrev pub given_state : Option Json → Result String
given_state none = err (bad "Missing state")
given_state (some state) = upper_text state

-- `'state' in json_msg` and `json_msg['state']` of a value that is no dict: a text and a list may
-- hold the word, but have no such index.
abbrev pub without_key : Bool → Result String
without_key false = err (bad "Missing state")
without_key true = err (python "TypeError")

abbrev pub state_in : Json → Result String
state_in (obj fields) = given_state (find "state" fields)
state_in (str s) = without_key (holds "state" s)
state_in (arr items) = without_key (holds_item "state" items)
state_in _ = err (python "TypeError")

abbrev pub states : List String
states = "OK" ∷ "ALARM" ∷ "UNDETERMINED" ∷ []

abbrev pub checked_state : String → Result String
checked_state state = if listed states state then ok state else err (bad "Invalid state")

-- `_get_alarm_state`
unfoldable pub get_alarm_state : (String → Option Json) → String → Result String
unfolding read_json_msg_body find holds holds_item upper
get_alarm_state loads body = do
  json_msg ← read_json_msg_body loads body
  state ← state_in json_msg
  checked_state state

module _ (definitions : Uri → Uri) where
  -- `_alarm_show`
  unfoldable pub alarm_show : Uri → String → String → Exec Db AlarmView
  unfolding get_alarm show_alarm resource_try_catch_block
  alarm_show uri tenant_id id = resource_try_catch_block (λ db.
      after (λ rows. returned (show_alarm uri (definitions uri) rows)) (get_alarm tenant_id id db))

  -- `_alarm_list`
  unfoldable pub list_alarms :
      (String → String → Bool)
      → Uri
      → String
      → AlarmQuery
      → Option String
      → Exec Db (Page (List AlarmView))
  unfolding get_alarms alarm_list resource_try_catch_block
  list_alarms lt uri tenant_id query offset = resource_try_catch_block (λ db.
      after (λ rows. returned (alarm_list uri (definitions uri) rows offset))
        (get_alarms lt tenant_id query offset db))

-- A call of `get_alarms`, which may leave out the argument `offset`: then it is the call that
-- `mysql_try_catch_block` makes that raises.
abbrev pub call_get_alarms :
    (String → String → Bool)
    → String
    → AlarmQuery
    → Option (Option String)
    → Exec Db (List AlarmRow)
call_get_alarms lt tenant_id query none =
    mysql_try_catch_block (returned (err (python "TypeError")))
call_get_alarms lt tenant_id query (some offset) = get_alarms lt tenant_id query offset

-- `new_query_parms`
abbrev pub new_query_parms : Option String → AlarmQuery
new_query_parms dimensions = record {
  alarm_definition_id = none;
  metric_name = none;
  state = none;
  metric_dimensions = dimensions;
}

-- methods over the database and over the series, on both
abbrev pub over_db : {W A : Type 0} → Exec Db A → Exec (Db × W) A
over_db method (db, w) = let (r, db') = method db in (r, (db', w))

abbrev pub over_series : {W A : Type 0} → Exec W A → Exec (Db × W) A
over_series method (db, w) = let (r, w') = method w in (r, (db, w'))

-- `_alarm_history_list`
module _ {W : Type 0} (lt : String → String → Bool) (loads : String → Option Json)
    (utc : Json → Result Json) (query : Client W) (id_text : Json → String) where
  abbrev pub histories :
      String
      → Option ℕ
      → Option ℕ
      → Uri
      → Option String
      → List AlarmRow
      → Exec W (Page (List AlarmPoint))
  histories tenant_id start_timestamp end_timestamp uri offset alarm_rows w =
      after (λ result. returned (paginate (λ p. id_text p.id) result uri offset))
        (alarm_history loads utc query tenant_id (map (λ row. row.alarm_id) alarm_rows) offset
          start_timestamp end_timestamp w)

  unfoldable pub alarm_history_list :
      String
      → Option ℕ
      → Option ℕ
      → Dict String
      → Uri
      → Option String
      → Exec (Db × W) (Page (List AlarmPoint))
  unfolding get get_alarms alarm_history paginate mysql_try_catch_block resource_try_catch_block
  alarm_history_list tenant_id start_timestamp end_timestamp query_parms uri offset =
      resource_try_catch_block (λ s.
        after
          (λ alarm_rows.
            over_series (histories tenant_id start_timestamp end_timestamp uri offset alarm_rows))
          (over_db
            (call_get_alarms lt tenant_id (new_query_parms (get "dimensions" query_parms)) none) s))

-- `_alarm_history`
unfoldable pub history_of :
    {W : Type 0}
    → (String → Option Json)
    → (Json → Result Json)
    → Client W
    → (Json → String)
    → String
    → List String
    → Uri
    → Option String
    → Exec W (Page (List AlarmPoint))
unfolding alarm_history paginate resource_try_catch_block
history_of loads utc query id_text tenant_id ids uri offset = resource_try_catch_block (λ w.
    after (λ result. returned (paginate (λ p. id_text p.id) result uri offset))
      (alarm_history loads utc query tenant_id ids offset none none w))

-- the query parameters that `get_alarms` looks at
abbrev pub query_of : Dict String → AlarmQuery
query_of params = record {
  alarm_definition_id = get "alarm_definition_id" params;
  metric_name = get "metric_name" params;
  state = get "state" params;
  metric_dimensions = get "metric_dimensions" params;
}

abbrev pub shown : {S A B : Type 0} → Result A × S → Result (A ⊎ B) × S
shown (ok a, s) = (ok (inl a), s)
shown (err e, s) = (err e, s)

abbrev pub listed_history : {S A B : Type 0} → Result B × S → Result (A ⊎ B) × S
listed_history (ok b, s) = (ok (inr b), s)
listed_history (err e, s) = (err e, s)

module _ (roles : List String) (req : Request) (tenant_id : String) where
  unfoldable pub authorized_offset : Result (Option String)
  unfolding validate_authorization offset_of
  authorized_offset = validate_authorization req roles >> offset_of req

  module _ (definitions : Uri → Uri) where
    unfoldable pub do_get_alarms : (String → String → Bool) → Exec Db (Page (List AlarmView))
    unfolding authorized_offset list_alarms get
    do_get_alarms lt db =
        after (list_alarms definitions lt req.uri tenant_id (query_of req.params))
          (authorized_offset, db)

    -- a read of one alarm that is not the history
    unfoldable pub show_authorized : String → Exec Db AlarmView
    unfolding validate_authorization alarm_show
    show_authorized id db =
        after (λ u. alarm_show definitions req.uri tenant_id id)
          (validate_authorization req roles, db)

    module _ {Q : Type 0} (parse : String → Result (List SubExpr)) (publisher : Publisher Q) where
      unfoldable pub do_put_alarms :
          (String → Option Json) → String → String → Exec (World Q) AlarmView
      unfolding validate_authorization get_alarm_state alarm_update alarm_show
      do_put_alarms loads body id w =
          after
            (λ state w.
              after (λ u. on_db (alarm_show definitions req.uri tenant_id id))
                (alarm_update parse publisher tenant_id id state w))
            (validate_authorization req roles >> get_alarm_state loads body, w)

      -- "Same logic as alarm_update"
      unfoldable pub do_patch_alarms :
          (String → Option Json) → String → String → Exec (World Q) AlarmView
      unfolding do_put_alarms
      do_patch_alarms loads body id = do_put_alarms loads body id

  module _ {Q : Type 0} (parse : String → Result (List SubExpr)) (publisher : Publisher Q) where
    unfoldable pub do_delete_alarms : String → Exec (World Q) (Unit {0})
    unfolding validate_authorization alarm_delete
    do_delete_alarms id w =
        after (λ u. alarm_delete parse publisher tenant_id id) (validate_authorization req roles, w)

  -- what the handler of the state history reads of the request: the two times, and the offset
  unfoldable pub history_parameters :
      (String → Option ℕ) → Result (Option ℕ × Option ℕ × Option String)
  unfolding validate_authorization get_query_starttime_timestamp get_query_endtime_timestamp
      offset_of
  history_parameters convert_time_string =
      validate_authorization req roles
      >> (get_query_starttime_timestamp convert_time_string req false >>= λ start_timestamp.
          get_query_endtime_timestamp convert_time_string req false >>= λ end_timestamp.
          offset_of req >>= λ offset. ok (start_timestamp, end_timestamp, offset))

  module _ {W : Type 0} (lt : String → String → Bool) (loads : String → Option Json)
      (utc : Json → Result Json) (query : Client W) (id_text : Json → String)
      (convert_time_string : String → Option ℕ) where
    abbrev pub histories_asked :
        Option ℕ × Option ℕ × Option String → Exec (Db × W) (Page (List AlarmPoint))
    histories_asked (start_timestamp, end_timestamp, offset) =
        alarm_history_list lt loads utc query id_text tenant_id start_timestamp end_timestamp
          req.params req.uri offset

    unfoldable pub do_get_alarms_state_history : Exec (Db × W) (Page (List AlarmPoint))
    unfolding history_parameters alarm_history_list
    do_get_alarms_state_history s =
        after histories_asked (history_parameters convert_time_string, s)

    unfoldable pub do_get_alarm_by_id :
        (Uri → Uri) → String → Exec (Db × W) (AlarmView ⊎ Page (List AlarmPoint))
    unfolding do_get_alarms_state_history show_authorized lower
    do_get_alarm_by_id definitions id s =
        if seq (lower id) "state-history"
        then listed_history (do_get_alarms_state_history s)
        else shown (over_db (show_authorized definitions id) s)

  unfoldable pub do_get_alarm_state_history :
      {W : Type 0}
      → (String → Option Json)
      → (Json → Result Json)
      → Client W
      → (Json → String)
      → String
      → Exec W (Page (List AlarmPoint))
  unfolding authorized_offset history_of
  do_get_alarm_state_history loads utc query id_text id w =
      after (history_of loads utc query id_text tenant_id (id ∷ []) req.uri) (authorized_offset, w)
