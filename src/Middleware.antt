-- ===== src/Middleware.antt =====
-- The metric validation of monasca/middleware/metric_validator.py. The application behind it is a
-- parameter with a state S and an answer A, and so are the JSON parser and printer: `dumps` prints
-- the message with the clock's time, or raises.
pub mod Zeros
use monasca_api.Prelude.{
  ℕ, zero, suc, Bool, true, false, not, ◌&&◌, String, Option, none, some, seq, if◌then◌else◌,
}
use monasca_api.Errors.{Exec, Result, ok, err, ◌>>=◌, python}
use monasca_api.Json.{
  Json, Items, Fields, null, bool, int, other_number, str, arr, obj, nil, cons, end, field, find,
}
use monasca_api.Influx.Quoting.{begins}

-- What is read of the WSGI environment. A variable that is not set is the empty text.
pub record Env : Type 0 where
  pub path_info : String
  pub request_method : String
  pub project_id : Option String
  pub input : String

-- the message that goes on, around the metrics as they came
pub record Wrapped : Type 0 where
  pub metric : Json
  pub tenant_id : Option String

module _ (is_zero : String → Bool) where
  -- the truth of a value; `is_zero` tells it of a number that is no natural
  unfoldable pub truth : Json → Bool
  truth null = false
  truth (bool b) = b
  truth (int zero) = false
  truth (int (suc n)) = true
  truth (other_number t) = not (is_zero t)
  truth (str s) = not (seq s "")
  truth (arr nil) = false
  truth (arr (cons json items)) = true
  truth (obj end) = false
  truth (obj (field name json fields)) = true

  -- `metric.get(name)`
  abbrev pub has_true : Option Json → Bool
  has_true none = false
  has_true (some json) = truth json

  -- `_is_valid_metric`; only a dict has `get`
  unfoldable pub is_valid_metric : Json → Result Bool
  unfolding truth find
  is_valid_metric (obj fields) = ok (
      has_true (find "name" fields)
      && (has_true (find "dimensions" fields)
          && (has_true (find "timestamp" fields) && has_true (find "value" fields))))
  is_valid_metric _ = err (python "AttributeError")

  -- the loop over a list, which ends at the first metric that is not valid
  unfoldable pub are_valid : Items → Result Bool
  unfolding is_valid_metric
  are_valid nil = ok true
  are_valid (cons metric metrics) = do
    is_valid ← is_valid_metric metric
    elim is_valid [ true ↦ are_valid metrics | false ↦ ok false ]

  abbrev pub body_is_valid : Json → Result Bool
  body_is_valid (arr metrics) = are_valid metrics
  body_is_valid metric = is_valid_metric metric

  module _ {S A : Type 0} (app : Env → Exec S A) (bad_request : A) (loads : String → Option Json)
      (dumps : Wrapped → Result String) where
    abbrev pub parsed_body : Env → Result Json
    parsed_body env = elim (loads env.input) [
      | none ↦ err (python "ValueError")
      | some json ↦ ok json
    ]

    -- The environment that goes on, or `none` if the metrics are not valid.
    unfoldable pub wrapped_env : Env → Result (Option Env)
    unfolding is_valid_metric are_valid
    wrapped_env env = do
      metrics ← parsed_body env
      is_valid ← body_is_valid metrics
      elim is_valid [
        | false ↦ ok none
        | true ↦ do
          input ← dumps (record { metric = metrics; tenant_id = env.project_id })
          ok (some (record env { input = input }))
      ]

    -- `except Exception: pass`, which catches what the application raises too
    abbrev pub or_bad_request : Result A × S → Result A × S
    or_bad_request (ok a, s) = (ok a, s)
    or_bad_request (err e, s) = (ok bad_request, s)

    abbrev pub passed_on : Result (Option Env) → Exec S A
    passed_on (ok (some env)) s = or_bad_request (app env s)
    passed_on (ok none) s = (ok bad_request, s)
    passed_on (err e) s = (ok bad_request, s)

    -- `__call__`
    unfoldable pub validate_call : Env → Exec S A
    unfolding begins wrapped_env
    validate_call env s =
        if begins "/v2.0/metrics" env.path_info && seq env.request_method "POST"
        then passed_on (wrapped_env env) s
        else app env s
