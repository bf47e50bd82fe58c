-- ===== src/Alarms/Resource/States.antt =====
-- What the handlers of the alarms resource do with the state that they are given, and the history of
-- all alarms.
use monasca_api.Prelude.{
  ◌≡◌, refl, ap, subst, sym, upper, none, some, true, Bool, false, String, List, Option, listed,
  listed_iff, Member, ◌⊎◌, inl, inr, ℕ, if◌then◌else◌,
}
use monasca_api.Errors.{http, internal_server_error, args_of, Result, ok, err, ◌>>=◌, ◌>>◌, python}
use monasca_api.Errors.Outcomes.{returned_steps, checked_step}
use monasca_api.Errors.Refusals.{Refused}
use monasca_api.Errors.Steps.{after}
use monasca_api.Database.{Db}
use monasca_api.Expression.{SubExpr}
use monasca_api.Http.{Uri, Request, validate_authorization}
use monasca_api.Http.Query.{bad}
use monasca_api.Json.{
  Json, Fields, null, bool, int, other_number, str, arr, obj, find, read_json_msg_body,
}
use monasca_api.Paging.{Page}
use monasca_api.Influx.Metrics.{Client}
use monasca_api.Influx.History.{AlarmPoint}
use monasca_api.Messages.{Publisher}
use monasca_api.Alarming.Updates.{World, on_db, alarm_update}
use monasca_api.Alarms.Views.{AlarmView}
use monasca_api.Alarms.Resource.{
  states, state_in, given_state, checked_state, without_key, holds, holds_item, get_alarm_state,
  alarm_show, do_put_alarms, do_get_alarms_state_history, do_get_alarm_by_id,
}

chosen-Member :
    (given state : String) (b : Bool)
    → listed states given ≡ b
    → (if b then ok given else err (bad "Invalid state")) ≡ ok state
    → (given ≡ state) × Member state states
chosen-Member given state true e h =
    let same : given ≡ state = cc in
    (same, subst (λ s. Member s states) same ((listed_iff states given).0 e))
chosen-Member given state false e h = absurd (cc)

module _ (roles : List String) (req : Request) (loads : String → Option Json) (body : String) where
  -- The request may be made, its body is an object, and the text of its key "state" is, in upper
  -- case, one of the three states.
  abbrev pub AsksFor : String → Type 0
  AsksFor state =
      (fields : Fields) × (given : String) × (validate_authorization req roles ≡ ok tt)
      × (loads body ≡ some (obj fields))
      × (find "state" fields ≡ some (str given))
      × (upper given ≡ state)
      × Member state states

  abbrev read_state : Result String
  read_state = validate_authorization req roles >> get_alarm_state loads body

  asked_text :
      (fields : Fields) (o : Option Json) (state : String)
      → validate_authorization req roles ≡ ok tt
      → loads body ≡ some (obj fields)
      → find "state" fields ≡ o
      → (given_state o >>= λ given. checked_state given) ≡ ok state
      → AsksFor state
  unfolding upper
  asked_text fields (some (str given)) state allowed read found h =
      let (same, member) = chosen-Member (upper given) state (listed states (upper given)) refl h in
      (fields, given, allowed, read, found, same, member)
  asked_text fields none state allowed read found h = absurd (cc)
  asked_text fields (some null) state allowed read found h = absurd (cc)
  asked_text fields (some (bool b)) state allowed read found h = absurd (cc)
  asked_text fields (some (int n)) state allowed read found h = absurd (cc)
  asked_text fields (some (other_number t)) state allowed read found h = absurd (cc)
  asked_text fields (some (arr items)) state allowed read found h = absurd (cc)
  asked_text fields (some (obj fs)) state allowed read found h = absurd (cc)

  no_index :
      (b : Bool) (state : String) → (without_key b >>= λ given. checked_state given) ≡ ok state → ⊥
  no_index true state h = absurd (cc)
  no_index false state h = absurd (cc)

  asked_json :
      (json : Json) (state : String)
      → validate_authorization req roles ≡ ok tt
      → loads body ≡ some json
      → (state_in json >>= λ given. checked_state given) ≡ ok state
      → AsksFor state
  asked_json (obj fields) state allowed read h =
      asked_text fields (find "state" fields) state allowed read refl h
  asked_json (str t) state allowed read h = elim (no_index (holds "state" t) state h) [ ]
  asked_json (arr items) state allowed read h =
      elim (no_index (holds_item "state" items) state h) [ ]
  asked_json null state allowed read h = absurd (cc)
  asked_json (bool b) state allowed read h = absurd (cc)
  asked_json (int n) state allowed read h = absurd (cc)
  asked_json (other_number t) state allowed read h = absurd (cc)

  loaded :
      (o : Option Json) (json : Json)
      → loads body ≡ o
      → read_json_msg_body loads body ≡ ok json
      → loads body ≡ some json
  unfolding read_json_msg_body
  loaded none json e h = absurd (cc)
  loaded (some msg) json e h = cc

  read_state-AsksFor : (state : String) → read_state ≡ ok state → AsksFor state
  unfolding get_alarm_state
  read_state-AsksFor state h =
      let (allowed, h1) = checked_step (validate_authorization req roles) _ state h in
      let (json, e, h2) = returned_steps (read_json_msg_body loads body) _ h1 in
      asked_json json state allowed (loaded (loads body) json refl e) h2

  AsksFor-read_state : (state : String) → AsksFor state → read_state ≡ ok state
  unfolding get_alarm_state read_json_msg_body
  AsksFor-read_state state (fields, given, allowed, read, found, same, member) =
      let is_listed : listed states (upper given) ≡ true =
        (listed_iff states (upper given)).1 (subst (λ s. Member s states) (sym same) member) in
      rw (allowed, get_alarm_state, read_json_msg_body, read, found, is_listed) (ap ok same)

module _ {Q : Type 0} (definitions : Uri → Uri) (parse : String → Result (List SubExpr))
    (publisher : Publisher Q) (roles : List String) (req : Request) (tenant_id : String)
    (loads : String → Option Json) (body id : String) (w : World Q) where
  abbrev put : Result AlarmView × World Q
  put = do_put_alarms roles req tenant_id definitions parse publisher loads body id w

  -- The alarm is given the state asked for, and then read and answered.
  abbrev pub StateSet : Type 0
  StateSet =
      (state : String) × AsksFor roles req loads body state
      × (put
          ≡ after (λ u. on_db (alarm_show definitions req.uri tenant_id id))
              (alarm_update parse publisher tenant_id id state w))

  abbrev pub NothingAsked : Type 0
  NothingAsked = ((state : String) → ¬ AsksFor roles req loads body state) × Refused w put

  abbrev then_set : Result String → Result AlarmView × World Q
  then_set r =
      after
        (λ state w.
          after (λ u. on_db (alarm_show definitions req.uri tenant_id id))
            (alarm_update parse publisher tenant_id id state w))
        (r, w)

  put_outcome : (r : Result String) → read_state roles req loads body ≡ r → NothingAsked ⊎ StateSet
  unfolding do_put_alarms
  put_outcome (err e) h = inl (
    (λ state asked. let reads = AsksFor-read_state roles req loads body state asked in absurd (cc)),
    (e, ap then_set h),
  )
  put_outcome (ok state) h =
      inr (state, read_state-AsksFor roles req loads body state h, ap then_set h)

  -- A put of a request that has one of the roles, and whose body has, in any letters, one of the three
  -- states as its key "state", gives the alarm that state in upper case, and then reads and answers
  -- the alarm. Any other put is refused before anything is done.
  pub do_put_alarms_outcome : NothingAsked ⊎ StateSet
  do_put_alarms_outcome = put_outcome (read_state roles req loads body) refl

-- the answer to a call that lacks an argument
abbrev pub lacking {ℓ} : {A : Type ℓ} → Result A
lacking = err (http internal_server_error "Service unavailable" (args_of (python "TypeError")))

module _ (roles : List String) (req : Request) (tenant_id : String) {W : Type 0}
    (lt : String → String → Bool) (loads : String → Option Json) (utc : Json → Result Json)
    (query : Client W) (id_text : Json → String) (convert_time_string : String → Option ℕ)
    (s : Db × W) where
  abbrev history : Result (Page (List AlarmPoint)) × (Db × W)
  history =
      do_get_alarms_state_history roles req tenant_id lt loads utc query id_text convert_time_string
        s

  abbrev by_id : (Uri → Uri) → String → Result (AlarmView ⊎ Page (List AlarmPoint)) × (Db × W)
  by_id definitions id =
      do_get_alarm_by_id roles req tenant_id lt loads utc query id_text convert_time_string
        definitions id s

  -- what the parameters, once read, are answered by
  abbrev answer :
      Result (Option ℕ × Option ℕ × Option String) → Result (Page (List AlarmPoint)) × (Db × W)
  answer (err e) = (err e, s)
  answer (ok p) = (lacking, s)
