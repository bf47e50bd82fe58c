-- ===== src/Tests/SubAlarms.antt =====
-- Two sub alarm definitions that differ in their thresholds.
use monasca_api.Prelude.{◌≡◌, ◌↔◌, true}
use monasca_api.SubAlarm.{equals}
use monasca_api.SubAlarm.Equality.{Same, equals_iff}
use monasca_api.Tests.Data.{sub_alarm, float_code}

equals_iff_example :
    (equals float_code (sub_alarm "s" "GT" "90") (sub_alarm "" "GT" "90") ≡ true)
    ↔ Same float_code (sub_alarm "s" "GT" "90") (sub_alarm "" "GT" "90")
equals_iff_example = equals_iff float_code (sub_alarm "s" "GT" "90") (sub_alarm "" "GT" "90")
