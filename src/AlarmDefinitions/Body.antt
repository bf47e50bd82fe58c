-- ===== src/AlarmDefinitions/Body.antt =====
-- The body of a request about an alarm definition: the schema of
-- monasca/v2/common/schemas/alarm_definition_request_body_schema.py, and the functions
-- `get_query_alarm_definition_xxx` of monasca/v2/reference/alarm_definitions.py. They read a `Body`:
-- for each key of the dict its value, if the key is there, and nothing of the keys that no function
-- asks for. `body_of` gives it for a dict whose values are of the types that the schema names.
pub mod Typed
use monasca_api.Prelude.{
  ◌≡◌, ℕ, zero, suc, Bool, true, false, not, ◌&&◌, String, List, [], ◌∷◌, Option, none, some,
  listed, lower, ltb, length, if◌then◌else◌,
}
use monasca_api.Errors.{Result, ok, err, ◌>>=◌, python}
use monasca_api.Http.Query.{bad}
use monasca_api.Json.{
  Json, bool, str, arr, obj, Items, nil, cons, Fields, find, is_text, required, optional,
}

-- `[unicode]`, `[str]`: the texts of a list of texts
unfoldable pub texts_of : Items → Option (List String)
texts_of nil = some []
texts_of (cons (str s) xs) = elim (texts_of xs) [ none ↦ none | some ss ↦ some (s ∷ ss) ]
texts_of (cons x xs) = none

abbrev pub at_most : ℕ → Option (List String) → Bool
at_most n none = false
at_most n (some ss) = not (ltb n (length ss))

-- `Any([unicode], [str])` with `Length(max=n)`
abbrev pub is_texts : ℕ → Json → Bool
is_texts n (arr xs) = at_most n (texts_of xs)
is_texts n _ = false

abbrev pub schema_severities : List String
schema_severities =
    "low" ∷ "medium" ∷ "high" ∷ "critical" ∷ "LOW" ∷ "MEDIUM" ∷ "HIGH" ∷ "CRITICAL" ∷ []

abbrev pub is_severity : Json → Bool
is_severity (str s) = listed schema_severities s
is_severity _ = false

abbrev pub is_bool : Json → Bool
is_bool (bool b) = true
is_bool _ = false

-- The schema; `extra=True` lets other keys pass.
unfoldable pub is_alarm_definition : Json → Bool
unfolding is_text texts_of required optional
is_alarm_definition (obj fs) =
    required "name" (is_text 250) fs
    && (required "expression" (is_text 4096) fs
        && (optional "description" (is_text 250) fs
            && (optional "severity" is_severity fs
                && (optional "match_by" (is_texts 255) fs
                    && (optional "ok_actions" (is_texts 400) fs
                        && (optional "alarm_actions" (is_texts 400) fs
                            && (optional "undetermined_actions" (is_texts 400) fs
                                && optional "actions_enabled" is_bool fs)))))))
is_alarm_definition _ = false

-- the text of the schema's own message is left out
unfoldable pub validate_alarm_definition : Json → Result (Unit {0})
unfolding is_alarm_definition
validate_alarm_definition msg =
    if is_alarm_definition msg then ok tt else err (bad "invalid alarm definition")

pub record Body : Type 0 where
  pub name : Option String
  pub expression : Option String
  pub description : Option String
  pub severity : Option String
  pub match_by : Option (List String)
  pub alarm_actions : Option (List String)
  pub ok_actions : Option (List String)
  pub undetermined_actions : Option (List String)
  pub actions_enabled : Option Bool

-- The value under a key: `none` if it is of another type.
abbrev pub text_under : Option Json → Option (Option String)
text_under none = some none
text_under (some (str s)) = some (some s)
text_under (some _) = none

abbrev pub as_value : Option (List String) → Option (Option (List String))
as_value none = none
as_value (some ss) = some (some ss)

abbrev pub texts_under : Option Json → Option (Option (List String))
texts_under none = some none
texts_under (some (arr xs)) = as_value (texts_of xs)
texts_under (some _) = none

abbrev pub flag_under : Option Json → Option (Option Bool)
flag_under none = some none
flag_under (some (bool b)) = some (some b)
flag_under (some _) = none

abbrev pub with_value : {A B : Type 0} → Option A → (A → Option B) → Option B
with_value none f = none
with_value (some a) f = f a

abbrev pub typed : Fields → Option Body
unfolding find texts_of
typed fs = with_value (text_under (find "name" fs)) λ name.
    with_value (text_under (find "expression" fs)) λ expression.
      with_value (text_under (find "description" fs)) λ description.
        with_value (text_under (find "severity" fs)) λ severity.
          with_value (texts_under (find "match_by" fs)) λ match_by.
            with_value (texts_under (find "alarm_actions" fs)) λ alarm_actions.
              with_value (texts_under (find "ok_actions" fs)) λ ok_actions.
                with_value (texts_under (find "undetermined_actions" fs)) λ undetermined_actions.
                  with_value (flag_under (find "actions_enabled" fs)) λ actions_enabled.
                    some (record {
                      name = name;
                      expression = expression;
                      description = description;
                      severity = severity;
                      match_by = match_by;
                      alarm_actions = alarm_actions;
                      ok_actions = ok_actions;
                      undetermined_actions = undetermined_actions;
                      actions_enabled = actions_enabled;
                    })

unfoldable pub body_of : Json → Option Body
unfolding typed
body_of (obj fs) = typed fs
body_of _ = none

-- What the functions share: the value, or `None` or a default for a key that is missing.
abbrev pub given_or : {A : Type 0} → Bool → A → Option A → Option A
given_or return_none default (some a) = some a
given_or true default none = none
given_or false default none = some default

-- the same where a missing key raises
abbrev pub given_or_raise : {A : Type 0} → Bool → String → Option A → Result (Option A)
given_or_raise return_none what (some a) = ok (some a)
given_or_raise true what none = ok none
given_or_raise false what none = err (bad what)

unfoldable pub get_query_alarm_definition_name : Body → Bool → Result (Option String)
get_query_alarm_definition_name body return_none =
    given_or_raise return_none "Missing name" body.name

unfoldable pub get_query_alarm_definition_expression : Body → Bool → Result (Option String)
get_query_alarm_definition_expression body return_none =
    given_or_raise return_none "Missing expression" body.expression

unfoldable pub get_query_alarm_definition_description : Body → Bool → Option String
get_query_alarm_definition_description body return_none = given_or return_none "" body.description

abbrev pub checked_severity : String → Result (Option String)
checked_severity severity =
    if listed ("low" ∷ "medium" ∷ "high" ∷ "critical" ∷ []) severity
    then ok (some severity)
    else err (bad "Invalid severity")

unfoldable pub get_query_alarm_definition_severity : Body → Bool → Result (Option String)
get_query_alarm_definition_severity body return_none = elim body.severity [
  | some severity ↦ checked_severity (lower severity)
  | none ↦ ok (given_or return_none "" none)
]

unfoldable pub get_query_alarm_definition_match_by : Body → Bool → Option (List String)
get_query_alarm_definition_match_by body return_none = given_or return_none [] body.match_by

unfoldable pub get_query_alarm_definition_alarm_actions : Body → Bool → Option (List String)
get_query_alarm_definition_alarm_actions body return_none =
    given_or return_none [] body.alarm_actions

unfoldable pub get_query_alarm_definition_undetermined_actions : Body → Bool → Option (List String)
get_query_alarm_definition_undetermined_actions body return_none =
    given_or return_none [] body.undetermined_actions

unfoldable pub get_query_ok_actions : Body → Bool → Option (List String)
get_query_ok_actions body return_none = given_or return_none [] body.ok_actions

-- The default `''` of a flag that is neither required nor left out is as false as `False`.
unfoldable pub get_query_alarm_definition_actions_enabled :
    Body → Bool → Bool → Result (Option Bool)
get_query_alarm_definition_actions_enabled body is_required return_none =
    elim body.actions_enabled [
      | some enabled ↦ ok (some enabled)
      | none ↦
          if return_none
          then ok none
          else if is_required
          then err (bad "Missing actions-enabled")
          else ok (some false)
    ]
