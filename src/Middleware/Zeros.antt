-- ===== src/Middleware/Zeros.antt =====
-- Which metrics do not reach the application.
use monasca_api.Prelude.{
  ◌≡◌, ◌∙◌, refl, ap, Bool, true, false, ◌&&◌, String, Option, none, some, seq,
}
use monasca_api.Errors.{Exec, Result, ok, err, ◌>>=◌, python}
use monasca_api.Json.{Json, Fields, obj, find}
use monasca_api.Influx.Quoting.{begins}
use monasca_api.Middleware.{
  Env, Wrapped, truth, has_true, is_valid_metric, body_is_valid, wrapped_env, validate_call,
}

-- A metric whose value the code takes for false.
abbrev pub HasFalseValue : (String → Bool) → Fields → Type 0
HasFalseValue is_zero fields =
    (v : Json) × (find "value" fields ≡ some v) × (truth is_zero v ≡ false)

last_false : (a b c d : Bool) → d ≡ false → (a && (b && (c && d))) ≡ false
last_false true true true d h = h
last_false true true false d h = refl
last_false true false c d h = refl
last_false false b c d h = refl

invalid :
    (is_zero : String → Bool) (fields : Fields)
    → HasFalseValue is_zero fields
    → is_valid_metric is_zero (obj fields) ≡ ok false
unfolding is_valid_metric
invalid is_zero fields (v, h, f) = ap ok (
    last_false (has_true is_zero (find "name" fields)) (has_true is_zero (find "dimensions" fields))
      (has_true is_zero (find "timestamp" fields)) (has_true is_zero (find "value" fields))
      (ap (has_true is_zero) h ∙ f))

module _ (is_zero : String → Bool) {S A : Type 0} (app : Env → Exec S A) (bad_request : A)
    (loads : String → Option Json) (dumps : Wrapped → Result String) (env : Env) where
  abbrev after_parsed : Result Json → Result (Option Env)
  after_parsed r = do
    metrics ← r
    is_valid ← body_is_valid is_zero metrics
    elim is_valid [
      | false ↦ ok none
      | true ↦ do
        input ← dumps (record { metric = metrics; tenant_id = env.project_id })
        ok (some (record env { input = input }))
    ]

  abbrev after_loaded : Option Json → Result Json
  after_loaded o = elim o [ none ↦ err (python "ValueError") | some json ↦ ok json ]

  not_wrapped :
      (fields : Fields)
      → loads env.input ≡ some (obj fields)
      → HasFalseValue is_zero fields
      → wrapped_env is_zero app bad_request loads dumps env ≡ ok none
  unfolding wrapped_env
  not_wrapped fields parsed h =
      ap (λ o. after_parsed (after_loaded o)) parsed ∙ rw (invalid is_zero fields h) refl

-- A post of one metric whose value is 0, or another value that Python takes for false, never reaches
-- the application: the answer is 400 and the application's state is as it was.
pub zero_refused :
    (is_zero : String → Bool) {S A : Type 0} (app : Env → Exec S A) (bad_request : A)
    (loads : String → Option Json) (dumps : Wrapped → Result String) (env : Env) (fields : Fields)
    (s : S)
    → (begins "/v2.0/metrics" env.path_info && seq env.request_method "POST") ≡ true
    → loads env.input ≡ some (obj fields)
    → HasFalseValue is_zero fields
    → validate_call is_zero app bad_request loads dumps env s ≡ (ok bad_request, s)
unfolding validate_call
zero_refused is_zero app bad_request loads dumps env fields s post parsed h =
    rw (post, not_wrapped is_zero app bad_request loads dumps env fields parsed h) refl
