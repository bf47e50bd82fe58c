-- ===== src/Tests/Connections.antt =====
-- The Kafka connection and the middleware at concrete inputs.
use monasca_api.Prelude.{◌≡◌, refl, true, false, ℕ, String, [], Option, none, some}
use monasca_api.Errors.{ok, err, Exec, python}
use monasca_api.Json.{Json, Fields, str, int, obj, end, field, find}
use monasca_api.Kafka.Connection.{Calls, Connection, Settings, send_all, send_payload}
use monasca_api.Kafka.Connection.Codes.{HasCode, ready, send_all_outcome}
use monasca_api.Influx.Quoting.{begins}
use monasca_api.Middleware.{Env, truth, validate_call}
use monasca_api.Middleware.Zeros.{zero_refused}

-- a library that has no leader to send to, and counts what it was asked
abbrev leaderless : Calls ℕ (Unit {0}) (Unit {0}) (Unit {0}) String
leaderless = record {
  open_client = λ n. (ok tt, n);
  close_client = λ c n. (ok tt, n);
  new_consumer = λ c n. (ok tt, n);
  new_producer = λ c n. (ok tt, n);
  commit = λ c n. (ok tt, n);
  send_messages = λ p message n. (err (python "LeaderNotAvailableError"), n);
  messages = λ c n. ([], (ok tt, n));
}

abbrev settings : Settings
settings = record { max_retry = 3; auto_commit = true; compact = true; drop_data = false }

abbrev fresh : Connection ℕ (Unit {0}) (Unit {0}) (Unit {0})
fresh = record { client = none; consumer = none; producer = none; library = 0 }

abbrev printed : Json → String
printed json = "{}"

abbrev unread : String → Option Json
unread text = none

send_all_outcome_example :
    HasCode leaderless printed
      (ready leaderless printed settings fresh)
      (send_payload leaderless printed unread settings
        (ready leaderless printed settings fresh).producer
        "[]"
        (ready leaderless printed settings fresh).library)
      (send_all leaderless printed unread settings "[]" fresh)
send_all_outcome_example = send_all_outcome leaderless printed unread settings "[]" fresh refl

refused_by_kafka : (send_all leaderless printed unread settings "[]" fresh).0 ≡ 503
unfolding send_all
refused_by_kafka = refl

abbrev idle : Fields
idle = field "name" (str "cpu") (
    field "dimensions" (obj (field "host" (str "a") end))
      (field "timestamp" (int 1) (field "value" (int 0) end)))

abbrev post : Env
post = record {
  path_info = "/v2.0/metrics";
  request_method = "POST";
  project_id = some "t";
  input = "{...}";
}

abbrev reads_idle : String → Option Json
reads_idle text = some (obj idle)

abbrev count : Env → Exec ℕ ℕ
count env n = (ok 204, n)

zero_refused_example :
    validate_call (λ t. false) count 400 reads_idle (λ m. ok "") post 0 ≡ (ok 400, 0)
zero_refused_example =
    zero_refused (λ t. false) count 400 reads_idle (λ m. ok "") post idle 0 (unfold begins in refl)
      refl (int 0, unfold find in refl, unfold truth in refl)
