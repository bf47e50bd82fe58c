-- ===== src/Tests/Alarms.antt =====
-- The alarms of a definition, and their rows in a listing.
use monasca_api.Prelude.{◌≡◌, refl, not, String, [], ◌∷◌, some, keep, split, put}
use monasca_api.Errors.{ok}
use monasca_api.Errors.Outcomes.{Yields}
use monasca_api.Database.{Db}
use monasca_api.Alarms.{AlarmRow, is_mine, set_state, update_alarm}
use monasca_api.Alarms.Changes.{update_alarm_outcome}
use monasca_api.Alarms.Views.{Metric, start, group_rows, metric_of}
use monasca_api.Alarms.Views.Grouping.{Shows, group_rows_outcome}
use monasca_api.Tests.Data.{stored, alarm}
use monasca_api.Tests.Pages.{uri}

abbrev raised : Db
raised = record stored { alarm = set_state (is_mine "t" "a" stored) "ALARM" stored.alarm }

update_alarm_outcome_example :
    (update_alarm "t" "a" "ALARM" stored ≡ (ok "OK", raised))
    × (update_alarm "t" "a" "ALARM" raised ≡ (ok "ALARM", raised))
    × (keep (λ b. not (is_mine "t" "a" stored b)) raised.alarm
        ≡ keep (λ b. not (is_mine "t" "a" stored b)) stored.alarm)
unfolding keep
update_alarm_outcome_example = update_alarm_outcome "t" "a" "ALARM" stored (alarm "a") refl

abbrev left : Db
left = record stored { alarm = keep (λ a. not (is_mine "t" "a" stored a)) stored.alarm }

abbrev row : String → String → AlarmRow
row id host = record {
  alarm_id = id;
  state = "OK";
  alarm_definition_id = "d";
  alarm_definition_name = "high";
  severity = "LOW";
  metric_name = "cpu";
  metric_dimensions = some host;
}

abbrev metric : String → Metric
metric host = record { name = "cpu"; dimensions = ("host", host) ∷ [] }

group_rows_outcome_example :
    Yields (Shows "a" (("a", metric "x") ∷ ("a", metric "y") ∷ ("b", metric "x") ∷ [])) (
      group_rows uri uri
        (start uri uri (row "a" "host=x"))
        (row "a" "host=x" ∷ row "a" "host=y" ∷ row "b" "host=x" ∷ []))
unfolding metric_of split put
group_rows_outcome_example =
    group_rows_outcome uri uri (row "a" "host=x") (row "a" "host=y" ∷ row "b" "host=x" ∷ [])
      (("a", metric "x") ∷ ("a", metric "y") ∷ ("b", metric "x") ∷ [])
      (refl, refl, (refl, refl, (refl, refl, tt)))
