-- ===== src/AlarmDefinitions/Body/Typed.antt =====
-- A body that passes the schema can be read.
use monasca_api.Prelude.{
  ◌≡◌, refl, ℕ, Bool, true, false, ◌&&◌, String, List, Option, none, some, Member, inl, inr, lower,
  listed_iff, if◌then◌else◌,
}
use monasca_api.Errors.{Exn, ok, err}
use monasca_api.Json.{
  Json, null, bool, int, other_number, str, arr, obj, Fields, find, is_text, required, optional,
}
use monasca_api.AlarmDefinitions.Body.{
  is_texts, texts_of, is_severity, is_bool, is_alarm_definition, text_under, texts_under, as_value,
  flag_under, get_query_alarm_definition_severity, get_query_alarm_definition_name,
  get_query_alarm_definition_expression, schema_severities, validate_alarm_definition,
  checked_severity, typed, body_of, Body, at_most,
}

-- A value that passes the test is read.
abbrev Reads : {A : Type 0} → (Json → Bool) → (Option Json → Option (Option A)) → Type 0
Reads {A} test under = (v : Json) → test v ≡ true → (a : A) × (under (some v) ≡ some (some a))

text_read : (n : ℕ) → Reads (is_text n) text_under
unfolding is_text
text_read n (str s) h = (s, refl)
text_read n null h = cc
text_read n (bool b) h = cc
text_read n (int k) h = cc
text_read n (other_number s) h = cc
text_read n (arr xs) h = cc
text_read n (obj fs) h = cc

severity_read : Reads is_severity text_under
severity_read (str s) h = (s, refl)
severity_read null h = cc
severity_read (bool b) h = cc
severity_read (int k) h = cc
severity_read (other_number s) h = cc
severity_read (arr xs) h = cc
severity_read (obj fs) h = cc

flag_read : Reads is_bool flag_under
flag_read (bool b) h = (b, refl)
flag_read null h = cc
flag_read (str s) h = cc
flag_read (int k) h = cc
flag_read (other_number s) h = cc
flag_read (arr xs) h = cc
flag_read (obj fs) h = cc

as_value_read :
    (n : ℕ) (o : Option (List String))
    → at_most n o ≡ true
    → (ss : List String) × (as_value o ≡ some (some ss))
as_value_read n none h = cc
as_value_read n (some ss) h = (ss, refl)

texts_read : (n : ℕ) → Reads (is_texts n) texts_under
texts_read n (arr xs) h = as_value_read n (texts_of xs) h
texts_read n null h = cc
texts_read n (bool b) h = cc
texts_read n (str s) h = cc
texts_read n (int k) h = cc
texts_read n (other_number s) h = cc
texts_read n (obj fs) h = cc

module _ {A : Type 0} (test : Json → Bool) (under : Option Json → Option (Option A))
    (reads : Reads test under) where
  required_value :
      (v : Option Json)
      → elim v as (λ _. Bool) [ none ↦ false | some v ↦ test v ] ≡ true
      → (a : A) × (under v ≡ some (some a))
  required_value none h = cc
  required_value (some v) h = reads v h

  required_read :
      (key : String) (fs : Fields)
      → required key test fs ≡ true
      → (a : A) × (under (find key fs) ≡ some (some a))
  unfolding required
  required_read key fs h = required_value (find key fs) h

  optional_value :
      (v : Option Json)
      → under none ≡ some none
      → elim v as (λ _. Bool) [ none ↦ true | some v ↦ test v ] ≡ true
      → (o : Option A) × (under v ≡ some o)
  optional_value none e h = (none, e)
  optional_value (some v) e h = let (a, found) = reads v h in (some a, found)

  optional_read :
      (key : String) (fs : Fields)
      → under none ≡ some none
      → optional key test fs ≡ true
      → (o : Option A) × (under (find key fs) ≡ some o)
  unfolding optional
  optional_read key fs e h = optional_value (find key fs) e h

-- the severities of the schema in lower case are those that the reading takes
severity_lowered :
    (s : String) → Member s schema_severities → checked_severity (lower s) ≡ ok (some (lower s))
unfolding lower
severity_lowered s (inl e) = rw (← e) refl
severity_lowered s (inr (inl e)) = rw (← e) refl
severity_lowered s (inr (inr (inl e))) = rw (← e) refl
severity_lowered s (inr (inr (inr (inl e)))) = rw (← e) refl
severity_lowered s (inr (inr (inr (inr (inl e))))) = rw (← e) refl
severity_lowered s (inr (inr (inr (inr (inr (inl e)))))) = rw (← e) refl
severity_lowered s (inr (inr (inr (inr (inr (inr (inl e))))))) = rw (← e) refl
severity_lowered s (inr (inr (inr (inr (inr (inr (inr (inl e)))))))) = rw (← e) refl
severity_lowered s (inr (inr (inr (inr (inr (inr (inr (inr h)))))))) = elim h [ ]

both : (a b : Bool) → (a && b) ≡ true → (a ≡ true) × (b ≡ true)
both true true h = (refl, refl)
both true false h = cc
both false b h = cc

severity_of :
    (body : Body) (v : Option Json)
    → text_under v ≡ some body.severity
    → elim v as (λ _. Bool) [ none ↦ true | some v ↦ is_severity v ] ≡ true
    → (s : Option String) × (get_query_alarm_definition_severity body false ≡ ok s)
unfolding get_query_alarm_definition_severity
severity_of body none e h = let missing : body.severity ≡ none = cc in (some "", rw missing)
severity_of body (some (str s)) e h =
    let here : body.severity ≡ some s = cc in
    (some (lower s), rw here (severity_lowered s ((listed_iff schema_severities s).0 h)))
severity_of body (some v) e h = cc

fields_read :
    (fs : Fields)
    → is_alarm_definition (obj fs) ≡ true
    → (name expression : String) × (severity : Option String) × (body : Body) × (typed fs
        ≡ some body)
      × (get_query_alarm_definition_name body false ≡ ok (some name))
      × (get_query_alarm_definition_expression body false ≡ ok (some expression))
      × (get_query_alarm_definition_severity body false ≡ ok severity)
unfolding is_alarm_definition typed get_query_alarm_definition_name
    get_query_alarm_definition_expression optional
fields_read fs h =
    let (h1, t1) = both _ _ h in
    let (h2, t2) = both _ _ t1 in
    let (h3, t3) = both _ _ t2 in
    let (h4, t4) = both _ _ t3 in
    let (h5, t5) = both _ _ t4 in
    let (h6, t6) = both _ _ t5 in
    let (h7, t7) = both _ _ t6 in
    let (h8, h9) = both _ _ t7 in
    let (name, e1) = required_read (is_text 250) text_under (text_read 250) "name" fs h1 in
    let (expression, e2) =
      required_read (is_text 4096) text_under (text_read 4096) "expression" fs h2 in
    let (description, e3) =
      optional_read (is_text 250) text_under (text_read 250) "description" fs refl h3 in
    let (severity, e4) = optional_read is_severity text_under severity_read "severity" fs refl h4 in
    let (match_by, e5) =
      optional_read (is_texts 255) texts_under (texts_read 255) "match_by" fs refl h5 in
    let (oks, e6) =
      optional_read (is_texts 400) texts_under (texts_read 400) "ok_actions" fs refl h6 in
    let (alarms, e7) =
      optional_read (is_texts 400) texts_under (texts_read 400) "alarm_actions" fs refl h7 in
    let (undetermined, e8) =
      optional_read (is_texts 400) texts_under (texts_read 400) "undetermined_actions" fs refl h8 in
    let (enabled, e9) = optional_read is_bool flag_under flag_read "actions_enabled" fs refl h9 in
    let body : Body = record {
      name = some name;
      expression = some expression;
      description = description;
      severity = severity;
      match_by = match_by;
      alarm_actions = alarms;
      ok_actions = oks;
      undetermined_actions = undetermined;
      actions_enabled = enabled;
    } in
    let (taken, e10) = severity_of body (find "severity" fs) e4 h4 in
    (name, expression, taken, body, rw (e1, e2, e3, e4, e5, e6, e7, e8, e9), refl, refl, e10)

passed : (b : Bool) (e : Exn) → (if b then ok (tt {0}) else err e) ≡ ok (tt {0}) → b ≡ true
passed true e h = refl
passed false e h = cc

pub validated_body :
    (msg : Json)
    → validate_alarm_definition msg ≡ ok tt
    → (name expression : String) × (severity : Option String) × (body : Body) × (body_of msg
        ≡ some body)
      × (get_query_alarm_definition_name body false ≡ ok (some name))
      × (get_query_alarm_definition_expression body false ≡ ok (some expression))
      × (get_query_alarm_definition_severity body false ≡ ok severity)
unfolding validate_alarm_definition body_of
validated_body (obj fs) h = fields_read fs (passed _ _ h)
validated_body null h = cc
validated_body (bool b) h = cc
validated_body (int k) h = cc
validated_body (str s) h = cc
validated_body (other_number s) h = cc
validated_body (arr xs) h = cc
