-- ===== src/Metrics.antt =====
-- The metrics resource, monasca/v2/reference/metrics.py, with the schema of a posted body
-- (monasca/v2/common/schemas/metrics_request_body_schema.py).
pub mod Reading
pub mod Posting
use Prim.Native.Nat.{◌^◌}
use monasca_api.Prelude.{
  ℕ, Bool, true, false, ◌&&◌, String, List, [], ◌∷◌, Option, none, some, seq, leb, slen, ltb,
  if◌then◌else◌, not,
}
use monasca_api.Errors.{
  Exec, Result, ok, err, ◌>>=◌, ◌>>◌, Exn, http, bad_request, service_unavailable, text, exception,
  python, Description, repository, repository_text, already_exists, validation, message_queue,
  no_description, map_err,
}
use monasca_api.Errors.Steps.{after}
use monasca_api.Http.{Request, validate_authorization, validate_json_content_type}
use monasca_api.Http.Query.{bad}
use monasca_api.Formats.{metrics_transform}
use monasca_api.Json.{
  Json, Items, Fields, int, other_number, bool, arr, obj, str, nil, cons, end, field, required,
  optional, keys_within, is_text, read_json_msg_body,
}

-- `dimensions_schema`: names and values of at most 255 characters
unfoldable pub short_fields : Fields → Bool
unfolding is_text
short_fields end = true
short_fields (field name value fields) =
    not (ltb 255 (slen name)) && (is_text 255 value && short_fields fields)

abbrev pub is_dimensions : Json → Bool
is_dimensions (obj fields) = short_fields fields
is_dimensions _ = false

-- What the schema asks of a number that is no natural one: `none` if it is no int and no float,
-- and else whether it is at least 0.
module _ (other_kind : String → Option Bool) where
  abbrev is_other_number : Option Bool → Bool
  is_other_number none = false
  is_other_number (some at_least_0) = true

  abbrev is_other_time : Option Bool → Bool
  is_other_time none = false
  is_other_time (some at_least_0) = at_least_0

  -- `Any(int, float)`; a bool is an int, and from 2 ** 63 on an integer is a long
  abbrev pub is_number : Json → Bool
  is_number (int n) = ltb n (2 ^ 63)
  is_number (other_number t) = is_other_number (other_kind t)
  is_number (bool b) = true
  is_number _ = false

  -- `All(Any(int, float), Range(min=0))`
  abbrev pub is_time : Json → Bool
  is_time (int n) = ltb n (2 ^ 63)
  is_time (other_number t) = is_other_time (other_kind t)
  is_time (bool b) = true
  is_time _ = false

  -- `metric_schema`
  unfoldable pub is_metric : Json → Bool
  unfolding keys_within required optional is_text short_fields
  is_metric (obj fields) =
      keys_within ("name" ∷ "dimensions" ∷ "timestamp" ∷ "value" ∷ []) fields
      && (required "name" (is_text 64) fields
          && (optional "dimensions" is_dimensions fields
              && (required "timestamp" is_time fields && required "value" is_number fields)))
  is_metric _ = false

  unfoldable pub all_metrics : Items → Bool
  unfolding is_metric
  all_metrics nil = true
  all_metrics (cons metric metrics) = is_metric metric && all_metrics metrics

  abbrev pub is_body : Json → Bool
  is_body (arr metrics) = all_metrics metrics
  is_body json = is_metric json

  -- `_validate_metrics`
  unfoldable pub validate_metrics : Json → Result (Unit {0})
  unfolding is_metric all_metrics
  validate_metrics metrics =
      if is_body metrics then ok tt else err (bad "The metrics do not follow the schema")

-- The client of the queue of metrics; a message stands for its JSON text.
abbrev pub Sender : Type 0 → Type 0
Sender Q = Json → Exec Q (Unit {0})

-- `except message_queue_exceptions.MessageQueueException` in `_send_metric`
abbrev pub metric_error : Exn → Exn
metric_error message_queue =
    http service_unavailable "Service unavailable" (exception message_queue)
metric_error e = e

module _ (loads : String → Option Json) (other_kind : String → Option Bool)
    (post_roles : List String) (format : String) where
  -- What is done before the metrics are sent. The tenant is read too; only the formats that raise
  -- would use it.
  unfoldable pub transformed : Request → String → Result Json
  unfolding validate_json_content_type validate_authorization read_json_msg_body validate_metrics
      metrics_transform
  transformed req body =
      validate_json_content_type req
      >> (validate_authorization req post_roles
          >> (read_json_msg_body loads body >>= λ metrics.
              validate_metrics other_kind metrics >> metrics_transform format metrics))

module _ {Q : Type 0} (send_message : Sender Q) where
  abbrev pub send_metric : Json → Exec Q (Unit {0})
  send_metric metric q = let (r, q') = send_message metric q in (map_err metric_error r, q')

  -- `for metric in metrics`
  unfoldable pub send_each : Items → Exec Q (Unit {0})
  send_each nil q = (ok tt, q)
  send_each (cons metric metrics) q = after (λ u. send_each metrics) (send_metric metric q)

  -- `_send_metrics`
  unfoldable pub send_metrics : Json → Exec Q (Unit {0})
  unfolding send_each
  send_metrics (arr metrics) q = send_each metrics q
  send_metrics metric q = send_metric metric q

  unfoldable pub do_post_metrics :
      (String → Option Json)
      → (String → Option Bool)
      → List String
      → String
      → Request
      → String
      → Exec Q (Unit {0})
  unfolding transformed send_metrics
  do_post_metrics loads other_kind post_roles format req body q =
      after send_metrics (transformed loads other_kind post_roles format req body, q)
