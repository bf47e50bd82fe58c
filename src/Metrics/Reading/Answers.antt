-- ===== src/Metrics/Reading/Answers.antt =====
-- How the requests that read fail.
use monasca_api.Prelude.{refl, String, List, Option, Dict}
use monasca_api.Errors.{Result, ok, err, map_err, service_unavailable}
use monasca_api.Errors.Translation.{HasStatus}
use monasca_api.Http.{Uri}
use monasca_api.Json.{Json}
use monasca_api.Influx.Metrics.{Client}
use monasca_api.Metrics.Reading.{
  Period, unavailable, list_of_metrics, list_of_measurements, metric_statistics,
}

-- a result that is a value or a 503
abbrev pub IsAvailable : {A : Type 0} → Result A → Type 0
IsAvailable (ok a) = Unit
IsAvailable (err e) = HasStatus service_unavailable e

map_err-IsAvailable : {A : Type 0} (r : Result A) → IsAvailable (map_err unavailable r)
unfolding unavailable
map_err-IsAvailable (ok a) = tt
map_err-IsAvailable (err e) = refl

-- Whatever the client of InfluxDB returns or raises, each of the three methods returns or raises a
-- 503: a malformed answer and a malformed query string of the next link are 503 as well.
pub reading_status :
    {W : Type 0} (query : Client W) (utc : Json → Result Json) (id_text : Json → String)
    (region tenant_id name : String) (dimensions : Dict String) (p : Period) (uri : Uri)
    (offset period : Option String) (statistics : List String) (w : W)
    → IsAvailable (list_of_metrics query region tenant_id name dimensions uri offset w).0
      × IsAvailable (list_of_measurements query region tenant_id utc id_text p uri offset w).0
      × IsAvailable (metric_statistics query region tenant_id utc p statistics period w).0
unfolding list_of_metrics list_of_measurements metric_statistics
reading_status query utc id_text region tenant_id name dimensions p uri offset period statistics w =
    (map_err-IsAvailable _, map_err-IsAvailable _, map_err-IsAvailable _)
