-- ===== src/Tests/Handlers.antt =====
-- Requests to the alarms and the metrics at concrete inputs.
use monasca_api.Prelude.{
  ◌≡◌, refl, ◌⊎◌, Bool, String, List, [], ◌∷◌, ◌++◌, Option, none, some, ℕ, lower, split,
}
use monasca_api.Errors.{Result, ok, python, Exec}
use monasca_api.Http.{Uri, Request}
use monasca_api.Json.{Json, str, int, arr, obj, nil, cons, end, field}
use monasca_api.Influx.Metrics.{Client, failure}
use monasca_api.Metrics.{do_post_metrics}
use monasca_api.Metrics.Posting.{NothingSent, BodySent, do_post_metrics_outcome}
use monasca_api.Alarms.Resource.States.{NothingAsked, StateSet, do_put_alarms_outcome}
use monasca_api.Tests.Events.{parse, log, world}

abbrev uri : Uri
uri = record {
  href = "http://m/v2.0/alarms/a";
  scheme = "http";
  netloc = "m";
  path = "/v2.0/alarms/a";
  query = "";
}

abbrev request : Request
request = record {
  x_roles = some "admin";
  x_tenant_id = some "t";
  content_type = some "application/json";
  params = [];
  uri = uri;
}

abbrev metric : Json
metric = obj (field "name" (str "cpu") (field "timestamp" (int 1) (field "value" (int 2) end)))

abbrev both : Json
both = arr (cons metric (cons metric nil))

-- every body is that of two metrics
abbrev loads : String → Option Json
loads body = some both

abbrev no_kind : String → Option Bool
no_kind text = none

abbrev record_sent : Json → Exec (List Json) (Unit {0})
record_sent json sent = (ok tt, sent ++ json ∷ [])

do_post_metrics_outcome_example :
    NothingSent record_sent loads no_kind ("admin" ∷ []) "identity" request "[]" []
    ⊎ BodySent record_sent loads no_kind ("admin" ∷ []) "identity" request "[]" []
do_post_metrics_outcome_example =
    do_post_metrics_outcome record_sent loads no_kind ("admin" ∷ []) "identity" request "[]" []

two_sent :
    do_post_metrics record_sent loads no_kind ("admin" ∷ []) "identity" request "[]" []
    ≡ (ok tt, metric ∷ metric ∷ [])
unfolding do_post_metrics split lower
two_sent = refl

abbrev state_body : String → Option Json
state_body body = some (obj (field "state" (str "alarm") end))

abbrev same : Uri → Uri
same u = u

do_put_alarms_outcome_example :
    NothingAsked same parse log ("admin" ∷ []) request "t" state_body "{}" "a" world
    ⊎ StateSet same parse log ("admin" ∷ []) request "t" state_body "{}" "a" world
do_put_alarms_outcome_example =
    do_put_alarms_outcome same parse log ("admin" ∷ []) request "t" state_body "{}" "a" world

abbrev no_time : String → Option ℕ
no_time text = none

-- a store of series that is never asked
abbrev unasked : Client (List String)
unasked text w = (failure (python "Exception"), text ∷ w)

abbrev as_is : Json → Result Json
as_is json = ok json

abbrev no_text : Json → String
no_text json = ""
