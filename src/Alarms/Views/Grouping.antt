-- ===== src/Alarms/Views/Grouping.antt =====
-- The list of alarms shows every row once, in the order of the rows.
use monasca_api.Prelude.{
  ◌≡◌, ◌≢◌, refl, sym, subst, ◌∙◌, ap, String, List, [], ◌∷◌, ◌++◌, map, seq, arith, eq_iff,
  Bool-cases, inl, inr,
}
use monasca_api.Errors.{ok}
use monasca_api.Errors.Outcomes.{Yields, Yields-bind}
use monasca_api.Http.{Uri}
use monasca_api.Alarms.{AlarmRow}
use monasca_api.Alarms.Views.{Metric, AlarmView, metric_of, start, add_metric, group_rows}

-- the pairs are the alarm and the metric of each row
abbrev pub Reads : List AlarmRow → List (String × Metric) → Type 0
Reads [] [] = Unit
Reads (row ∷ rows) (p ∷ ps) = (p.0 ≡ row.alarm_id) × (metric_of row ≡ ok p.1) × Reads rows ps
Reads [] (p ∷ ps) = ⊥
Reads (row ∷ rows) [] = ⊥

abbrev pub pairs_of_alarm : AlarmView → List (String × Metric)
pairs_of_alarm alarm = map (λ m. (alarm.id, m)) alarm.metrics

abbrev pub pairs_of : List AlarmView → List (String × Metric)
pairs_of [] = []
pairs_of (alarm ∷ alarms) = pairs_of_alarm alarm ++ pairs_of alarms

-- no two alarms next to each other have the same id, the one before them included
abbrev pub Apart : String → List AlarmView → Type 0
Apart id [] = Unit
Apart id (alarm ∷ alarms) = (id ≢ alarm.id) × Apart alarm.id alarms

-- what the alarms show: the pairs, in order, from an alarm with that id on
abbrev pub Shows : String → List (String × Metric) → List AlarmView → Type 0
Shows id pairs [] = ⊥
Shows id pairs (alarm ∷ alarms) =
    (alarm.id ≡ id) × Apart id alarms × (pairs_of (alarm ∷ alarms) ≡ pairs)

map-append {ℓ κ} :
    {A : Type ℓ} {B : Type κ} (f : A → B) (xs ys : List A) → map f (xs ++ ys) ≡ map f xs ++ map f ys
map-append f [] ys = refl
map-append f (x ∷ xs) ys = rw (map-append f xs ys)

++_assoc {ℓ} : {A : Type ℓ} (xs ys zs : List A) → (xs ++ ys) ++ zs ≡ xs ++ (ys ++ zs)
++_assoc [] ys zs = refl
++_assoc (x ∷ xs) ys zs = rw (++_assoc xs ys zs)

one_more :
    (alarm : AlarmView) (p : String × Metric) (ps : List (String × Metric))
    → p.0 ≡ alarm.id
    → pairs_of_alarm (add_metric p.1 alarm) ++ ps ≡ pairs_of_alarm alarm ++ p ∷ ps
one_more alarm p ps h = rw (
  map-append {B = String × Metric} (λ m. (alarm.id, m)) alarm.metrics (p.1 ∷ []),
  ++_assoc (pairs_of_alarm alarm) ((alarm.id, p.1) ∷ []) ps,
  h,
)

one_before :
    (alarm : AlarmView) (id : String) (pairs : List (String × Metric)) (alarms : List AlarmView)
    → alarm.id ≢ id
    → Shows id pairs alarms
    → Shows alarm.id (pairs_of_alarm alarm ++ pairs) (alarm ∷ alarms)
one_before alarm id pairs [] ne h = elim h [ ]
one_before alarm id pairs (a ∷ l) ne (same, apart, shown) = (
  refl,
  (λ e. ne (e ∙ same), subst (λ k. Apart k l) (sym same) apart),
  ap (λ q. pairs_of_alarm alarm ++ q) shown,
)

module _ (uri definitions_uri : Uri) where
  group_rows-Shows :
      (alarm : AlarmView) (rows : List AlarmRow) (pairs : List (String × Metric))
      → Reads rows pairs
      → Yields
          (Shows alarm.id (pairs_of_alarm alarm ++ pairs))
          (group_rows uri definitions_uri alarm rows)
  unfolding group_rows
  group_rows-Shows alarm [] [] h = (refl, tt, refl)
  group_rows-Shows alarm [] (p ∷ ps) h = elim h [ ]
  group_rows-Shows alarm (row ∷ rows) [] h = elim h [ ]
  group_rows-Shows alarm (row ∷ rows) (p ∷ ps) (id, read, h) =
      elim (Bool-cases (seq alarm.id row.alarm_id)) [
        | inl e ↦
            rw (read, e)
              (subst
                (λ q.
                  Yields (Shows alarm.id q)
                    (group_rows uri definitions_uri (add_metric p.1 alarm) rows))
                (one_more alarm p ps (id ∙ sym ((eq_iff alarm.id row.alarm_id).0 e)))
                (group_rows-Shows (add_metric p.1 alarm) rows ps h))
        | inr e ↦
            rw (read, e)
              (Yields-bind (Shows row.alarm_id ((row.alarm_id, p.1) ∷ ps))
                (Shows alarm.id (pairs_of_alarm alarm ++ p ∷ ps))
                (group_rows uri definitions_uri (add_metric p.1 (start uri definitions_uri row))
                  rows)
                _ (group_rows-Shows (add_metric p.1 (start uri definitions_uri row)) rows ps h)
                λ alarms shown.
                  one_before alarm row.alarm_id (p ∷ ps) alarms
                    (ground (arith, eq_iff alarm.id row.alarm_id))
                    (subst (λ i. Shows row.alarm_id ((i, p.1) ∷ ps) alarms) (sym id) shown))
      ]

  -- The alarms of the list show the metric of each row once, in the order of the rows, each under the
  -- id of its row; and no two alarms next to each other have the same id. The rows' dimensions are
  -- taken to be readable.
  pub group_rows_outcome :
      (row : AlarmRow) (rows : List AlarmRow) (pairs : List (String × Metric))
      → Reads (row ∷ rows) pairs
      → Yields
          (Shows row.alarm_id pairs)
          (group_rows uri definitions_uri (start uri definitions_uri row) (row ∷ rows))
  group_rows_outcome row rows pairs h =
      group_rows-Shows (start uri definitions_uri row) (row ∷ rows) pairs h
