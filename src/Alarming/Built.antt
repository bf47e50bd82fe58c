-- ===== src/Alarming/Built.antt =====
-- What the events of an alarm are built as, where its metrics can be read, and that a queue takes them.
use monasca_api.Prelude.{
  ◌≡◌, ◌≢◌, refl, sym, ◌∙◌, String, List, [], ◌∷◌, ◌++◌, Option, Dict, false, arith, eq_iff, subst,
  seq,
}
use monasca_api.Errors.{Result, ok, err, python}
use monasca_api.Database.{SubAlarm}
use monasca_api.Expression.{SubExpr}
use monasca_api.Alarms.{MetricRow}
use monasca_api.Alarms.Views.{Metric}
use monasca_api.Messages.{Message, alarm_event, AlarmEvent, SubAlarmMessage, Publisher, send_event}
use monasca_api.Alarming.{
  build_metric, build_metrics, by_alarm, build_sub_alarm_event_msg, fill_event, start_event,
  build_event, send_alarm_event,
}

-- the rows of one alarm, and the metrics that they are read as
abbrev pub Builds : String → List MetricRow → List Metric → Type 0
Builds id [] [] = Unit
Builds id (row ∷ rows) (m ∷ ms) =
    (row.alarm_id ≡ id) × (build_metric row ≡ ok m) × Builds id rows ms
Builds id [] (m ∷ ms) = ⊥
Builds id (row ∷ rows) [] = ⊥

pub build_metrics-Builds :
    (id : String) (rows : List MetricRow) (ms : List Metric)
    → Builds id rows ms
    → build_metrics rows ≡ ok ms
unfolding build_metrics
build_metrics-Builds id [] [] h = refl
build_metrics-Builds id (row ∷ rows) (m ∷ ms) (e, b, h) = rw (b, build_metrics-Builds id rows ms h)
build_metrics-Builds id [] (m ∷ ms) h = elim h [ ]
build_metrics-Builds id (row ∷ rows) [] h = elim h [ ]

pub its_alarm :
    (id : String) (row : MetricRow) (rows : List MetricRow) (ms : List Metric)
    → Builds id (row ∷ rows) ms
    → row.alarm_id ≡ id
its_alarm id row rows (m ∷ ms) (e, b, h) = e
its_alarm id row rows [] h = elim h [ ]

pub ++_one {ℓ} :
    {A : Type ℓ} (xs : List A) (y : A) (ys : List A) → (xs ++ y ∷ []) ++ ys ≡ xs ++ y ∷ ys
++_one [] y ys = refl
++_one (x ∷ xs) y ys = rw (++_one xs y ys)

++_none {ℓ} : {A : Type ℓ} (xs : List A) → xs ++ [] ≡ xs
++_none [] = refl
++_none (x ∷ xs) = rw (++_none xs)

module _ (parse : String → Result (List SubExpr)) where
  pub fill_event-Builds :
      (d : Dict (List SubAlarm)) (event : AlarmEvent) (rows : List MetricRow) (ms : List Metric)
      → Builds event.alarm_id rows ms
      → fill_event parse d event rows
        ≡ ok (record event { alarm_metrics = event.alarm_metrics ++ ms })
  unfolding fill_event
  fill_event-Builds d event [] [] h = rw (++_none event.alarm_metrics)
  fill_event-Builds d event (row ∷ rows) (m ∷ ms) (e, b, h) =
      rw ((eq_iff event.alarm_id row.alarm_id).1 (sym e), fill_event, b)
        (fill_event-Builds d (record event { alarm_metrics = event.alarm_metrics ++ m ∷ [] }) rows
            ms h
          ∙ rw (++_one event.alarm_metrics m ms))
  fill_event-Builds d event [] (m ∷ ms) h = elim h [ ]
  fill_event-Builds d event (row ∷ rows) [] h = elim h [ ]

  module _ (tenant_id id alarm_definition_id event_type : String)
      (state_info : Option (String × String)) (ms : List Metric) (msg : Dict SubAlarmMessage) where
    abbrev pub event : AlarmEvent
    event = record {
      event_type = event_type;
      tenant_id = tenant_id;
      alarm_definition_id = alarm_definition_id;
      alarm_id = id;
      alarm_metrics = ms;
      state_info = state_info;
      sub_alarms = msg;
    }

    pub build_event-Builds :
        (row : MetricRow) (rows : List MetricRow) (sub_alarms : List SubAlarm)
        → Builds id (row ∷ rows) ms
        → build_sub_alarm_event_msg parse (by_alarm [] sub_alarms) id ≡ ok msg
        → build_event parse event_type tenant_id alarm_definition_id row rows sub_alarms state_info
          ≡ ok event
    unfolding build_event
    build_event-Builds row rows sub_alarms h k = rw (
      fill_event-Builds (by_alarm [] sub_alarms)
          (start_event parse event_type tenant_id alarm_definition_id state_info row) (row ∷ rows)
          ms (subst (λ i. Builds i (row ∷ rows) ms) (sym (its_alarm id row rows ms h)) h),
      its_alarm id row rows ms h,
      k,
    )

  module _ (d : Dict (List SubAlarm)) (msg : Dict SubAlarmMessage) where
    -- A row of another alarm ends the loop by an exception, whatever was read before.
    pub fill_event_several :
        (event : AlarmEvent) (rows : List MetricRow) (ms : List Metric) (other : MetricRow)
        → (rest : List MetricRow) → Builds event.alarm_id rows ms
        → event.alarm_id ≢ other.alarm_id
        → build_sub_alarm_event_msg parse d event.alarm_id ≡ ok msg
        → fill_event parse d event (rows ++ other ∷ rest) ≡ err (python "TypeError")
    unfolding fill_event
    fill_event_several event [] [] other rest h apart parsed =
        let no : seq event.alarm_id other.alarm_id ≡ false =
          ground (arith, eq_iff event.alarm_id other.alarm_id) in
        rw (no, fill_event, parsed)
    fill_event_several event (row ∷ rows) (m ∷ ms) other rest (e, b, h) apart parsed =
        rw ((eq_iff event.alarm_id row.alarm_id).1 (sym e), fill_event, b)
          (fill_event_several (record event { alarm_metrics = event.alarm_metrics ++ m ∷ [] }) rows
            ms other rest h apart parsed)
    fill_event_several event [] (m ∷ ms) other rest h apart parsed = elim h [ ]
    fill_event_several event (row ∷ rows) [] other rest h apart parsed = elim h [ ]

-- The other parameters stand for a queue that takes every message, and what it is after it took one.
module _ {Q : Type 0} (publisher : Publisher Q) (take : Message → Q → Q)
    (takes : (m : Message) (q : Q) → publisher.send_message m q ≡ (ok tt, take m q)) where
  pub send_event-takes : (m : Message) (q : Q) → send_event publisher m q ≡ (ok tt, take m q)
  unfolding send_event
  send_event-takes m q = rw (takes m q)

module _ {Q : Type 0} (parse : String → Result (List SubExpr)) (publisher : Publisher Q)
    (take : Message → Q → Q)
    (takes : (m : Message) (q : Q) → publisher.send_message m q ≡ (ok tt, take m q))
    (tenant_id id alarm_definition_id event_type : String) (state_info : Option (String × String))
    (ms : List Metric) (msg : Dict SubAlarmMessage) where
  -- the event of the one alarm that the rows are of
  pub send_alarm_event-takes :
      (row : MetricRow) (rows : List MetricRow) (sub_alarms : List SubAlarm)
      → Builds id (row ∷ rows) ms
      → build_sub_alarm_event_msg parse (by_alarm [] sub_alarms) id ≡ ok msg
      → (q : Q)
      → send_alarm_event parse publisher event_type tenant_id alarm_definition_id
          (row ∷ rows)
          sub_alarms
          state_info
          q
        ≡ (
          ok tt,
          take
              (alarm_event
                (event parse tenant_id id alarm_definition_id event_type state_info ms msg))
              q,
        )
  unfolding send_alarm_event
  send_alarm_event-takes row rows sub_alarms built parsed q =
      rw
        (build_event-Builds parse tenant_id id alarm_definition_id event_type state_info ms msg row
          rows sub_alarms built parsed)
        (send_event-takes publisher take takes _ q)

  build_event_several :
      (row other : MetricRow) (rows rest : List MetricRow) (sub_alarms : List SubAlarm)
      → Builds id (row ∷ rows) ms
      → id ≢ other.alarm_id
      → build_sub_alarm_event_msg parse (by_alarm [] sub_alarms) id ≡ ok msg
      → build_event parse event_type tenant_id alarm_definition_id row
          (rows ++ other ∷ rest)
          sub_alarms
          state_info
        ≡ err (python "TypeError")
  unfolding build_event
  build_event_several row other rows rest sub_alarms built apart parsed =
      let its = its_alarm id row rows ms built in
      rw (
        fill_event_several parse (by_alarm [] sub_alarms) msg
          (start_event parse event_type tenant_id alarm_definition_id state_info row) (row ∷ rows)
          ms other rest (subst (λ i. Builds i (row ∷ rows) ms) (sym its) built)
          (subst (λ i. i ≢ other.alarm_id) (sym its) apart)
          (subst (λ i. build_sub_alarm_event_msg parse (by_alarm [] sub_alarms) i ≡ ok msg)
            (sym its) parsed))

  -- with a row of another alarm nothing is sent
  pub send_alarm_event_several :
      (row other : MetricRow) (rows rest : List MetricRow) (sub_alarms : List SubAlarm)
      → Builds id (row ∷ rows) ms
      → id ≢ other.alarm_id
      → build_sub_alarm_event_msg parse (by_alarm [] sub_alarms) id ≡ ok msg
      → (q : Q)
      → send_alarm_event parse publisher event_type tenant_id alarm_definition_id
          (row ∷ (rows ++ other ∷ rest))
          sub_alarms
          state_info
          q
        ≡ (err (python "TypeError"), q)
  unfolding send_alarm_event
  send_alarm_event_several row other rows rest sub_alarms built apart parsed q =
      rw (build_event_several row other rows rest sub_alarms built apart parsed)
