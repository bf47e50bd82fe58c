-- ===== src/AlarmDefinitions/Resource/Refusals.antt =====
-- Which puts and patches are refused.
use monasca_api.Prelude.{
  ◌≡◌, ◌≢◌, ◌∙◌, ◌⊎◌, subst, Option-cases, inl, inr, refl, ap, ℕ, Bool, true, false, String, List,
  Option, none, some, arith,
}
use monasca_api.Errors.{
  Exec, Result, ok, err, ◌>>=◌, ◌>>◌, mysql_try_catch_block, atomically, mysql_error, python,
  does_not_exist,
}
use monasca_api.Errors.Outcomes.{checked_step}
use monasca_api.Errors.Steps.{after}
use monasca_api.Errors.Refusals.{
  Raises, Refused, Raises-bind, Refused-after, Refused-caught, Refused-given,
}
use monasca_api.Expression.{SubExpr}
use monasca_api.Database.{Db}
use monasca_api.SubAlarm.{SubAlarmDefinition, equals, same_key_fields}
use monasca_api.Http.{Request, validate_authorization}
use monasca_api.Http.Query.{bad}
use monasca_api.Json.{Json, read_json_msg_body}
use monasca_api.AlarmDefinitions.Diff.{diff}
use monasca_api.AlarmDefinitions.Queries.{definition_rows, sub_definition_rows}
use monasca_api.AlarmDefinitions.Update.{Changes, first_row, read_rows, read_sub_exprs, with_id}
use monasca_api.AlarmDefinitions.Update.Named.{update_body_without_name, update_named}
use monasca_api.AlarmDefinitions.Body.{
  Body, body_of, validate_alarm_definition, get_query_alarm_definition_name,
  get_query_alarm_definition_expression, get_query_alarm_definition_actions_enabled,
}
use monasca_api.AlarmDefinitions.Body.Typed.{validated_body}
use monasca_api.AlarmDefinitions.Resource.{DefinitionResult, parsed}
use monasca_api.AlarmDefinitions.Resource.Updating.{
  changes_of, send_updated, update_parsed, update_uncaught, alarm_definition_update_or_patch,
}
use monasca_api.AlarmDefinitions.Resource.Handlers.{
  read_put, read_patch, validated_body_of, typed_body, update_from, do_put_alarm_definitions,
  do_patch_alarm_definitions,
}
use monasca_api.Messages.{Publisher}
use monasca_api.Alarming.Updates.{World}

module _ (now : ℕ) (fresh : ℕ → String) (float_code : String → ℕ)
    (literal : SubAlarmDefinition → String) (tenant_id id : String) where
  update_body_without_name-Raises :
      (es : List SubExpr) (db : Db)
      → Raises (update_body_without_name now fresh float_code literal tenant_id id es db)
  unfolding update_body_without_name
  update_body_without_name-Raises es db =
      Raises-bind (first_row does_not_exist (definition_rows tenant_id id db)) _ λ original.
        Raises-bind (read_rows (sub_definition_rows id db)) _ λ olds.
          Raises-bind (read_sub_exprs id es) _ λ news.
            Raises-bind
              (diff (equals float_code) same_key_fields (λ sad. sad.id) with_id fresh olds news) _
              λ d. (python "AttributeError", refl)

  update_named-Refused :
      (name : Option String) (es : List SubExpr) (changes : String → Changes) (patch : Bool)
      → (db : Db) → name ≡ none
      → Refused db (update_named now fresh float_code literal tenant_id id name es changes patch db)
  unfolding update_named mysql_try_catch_block atomically
  update_named-Refused none es changes patch db h =
      let (e, raised) = update_body_without_name-Raises es db in
      (mysql_error e, ap (λ r. mysql_try_catch_block (atomically λ _. r) db) raised)
  update_named-Refused (some name) es changes patch db h = absurd (cc)

  module _ {Q : Type 0} (parse : String → Result (List SubExpr)) (publisher : Publisher Q)
      (patch : Bool) (w : World Q) where
    update_parsed-Refused :
        (body : Body) (es : List SubExpr)
        → body.name ≡ none
        → Refused w (
            update_parsed parse publisher now fresh float_code literal tenant_id id body patch es w)
    update_parsed-Refused body es no_name =
        let (e, raised) =
          update_named-Refused body.name es (changes_of body es) patch w.db no_name in
        Refused-after
          (send_updated parse publisher now fresh float_code literal tenant_id id body patch) w _
          (e, ap (λ r. (r.0, record w { db = r.1 })) raised)

    parsed-Refused :
        (expression : Option String) (next : List SubExpr → Exec (World Q) DefinitionResult)
        → expression ≡ none
        → Refused w (after next (parsed parse publisher expression, w))
    unfolding parsed
    parsed-Refused none next h = (_, refl)
    parsed-Refused (some expression) next h = absurd (cc)

    -- An update without a name or an expression raises, and changes and sends nothing.
    alarm_definition_update_or_patch-Refused :
        (body : Body)
        → (body.name ≡ none) ⊎ (body.expression ≡ none)
        → Refused w (
            alarm_definition_update_or_patch parse publisher now fresh float_code literal tenant_id
              id body patch w)
    unfolding alarm_definition_update_or_patch
    alarm_definition_update_or_patch-Refused body (inl no_name) =
        Refused-caught
          (update_uncaught parse publisher now fresh float_code literal tenant_id id body patch) w
          (Refused-given
            (update_parsed parse publisher now fresh float_code literal tenant_id id body patch)
            (parsed parse publisher body.expression) w
            λ es h. update_parsed-Refused body es no_name)
    alarm_definition_update_or_patch-Refused body (inr no_expression) =
        Refused-caught
          (update_uncaught parse publisher now fresh float_code literal tenant_id id body patch) w
          (parsed-Refused body.expression
            (update_parsed parse publisher now fresh float_code literal tenant_id id body patch)
            no_expression)

-- what a patch reads is the given name and expression
read_patch_keeps :
    (body b : Body)
    → read_patch body ≡ ok b
    → (b.name ≡ body.name) × (b.expression ≡ body.expression)
unfolding read_patch get_query_alarm_definition_name
read_patch_keeps body b h = ground arith

still_missing :
    (body b : Body)
    → (body.name ≡ none) ⊎ (body.expression ≡ none)
    → b.name ≡ body.name
    → b.expression ≡ body.expression
    → (b.name ≡ none) ⊎ (b.expression ≡ none)
still_missing body b (inl h) n e = inl (n ∙ h)
still_missing body b (inr h) n e = inr (e ∙ h)

checks_passed :
    (let_in : Result (Unit {0})) (json : Result Json) (validate : Json → Result (Unit {0}))
    → (read : Json → Option Body) (msg : Json) (body : Body) → let_in ≡ ok tt
    → json ≡ ok msg
    → validate msg ≡ ok tt
    → read msg ≡ some body
    → (let_in >> (json >>= λ m. validate m >> typed_body (read m))) ≡ ok body
checks_passed let_in json validate read msg body a b c d = rw (a, b, c, d)

module _ (now : ℕ) (fresh : ℕ → String) (float_code : String → ℕ)
    (literal : SubAlarmDefinition → String) (tenant_id id : String) {Q : Type 0}
    (parse : String → Result (List SubExpr)) (publisher : Publisher Q) (w : World Q)
    (roles : List String) (req : Request) where
  update_from-Refused :
      (patch : Bool) (b : Body)
      → (b.name ≡ none) ⊎ (b.expression ≡ none)
      → Refused w (
          update_from roles req tenant_id parse publisher now fresh float_code literal id patch b w)
  update_from-Refused patch b h = Refused-after _ w _ (
      alarm_definition_update_or_patch-Refused now fresh float_code literal tenant_id id parse
        publisher patch w b h)

  -- A patch that gives no name or no expression is refused, whatever else it gives, and changes
  -- and sends nothing: the two are optional for the reading, but the update needs them.
  pub patch_incomplete :
      (body : Body)
      → (body.name ≡ none) ⊎ (body.expression ≡ none)
      → Refused w (
          do_patch_alarm_definitions roles req tenant_id parse publisher now fresh float_code
            literal id
            (ok body)
            w)
  unfolding do_patch_alarm_definitions
  patch_incomplete body h =
      Refused-given
        (update_from roles req tenant_id parse publisher now fresh float_code literal id true)
        (validate_authorization req roles >> read_patch body) w
        λ b read.
          let (same_name, same_expression) =
            read_patch_keeps body b (checked_step (validate_authorization req roles) _ b read).1 in
          update_from-Refused true b (still_missing body b h same_name same_expression)

  read_put_disabled :
      (body : Body) (name expression : String)
      → get_query_alarm_definition_name body false ≡ ok (some name)
      → get_query_alarm_definition_expression body false ≡ ok (some expression)
      → body.actions_enabled ≢ some true
      → (m : String) × (read_put body ≡ err (bad m))
  unfolding read_put get_query_alarm_definition_actions_enabled
  read_put_disabled body name expression n e off = elim (Option-cases body.actions_enabled) [
    | inl missing ↦ ("Missing actions-enabled", ground arith)
    | inr (true, on) ↦ absurd (off on)
    | inr (false, given) ↦ ("Missing actions_enabled", ground arith)
  ]

  -- A put with an authorized role and a body that passes the schema is answered by 400, and changes
  -- and sends nothing, if it does not turn the actions on: also if it gives the flag, as false.
  pub put_disabled :
      (loads : String → Option Json) (stream : String) (msg : Json) (body : Body)
      → validate_authorization req roles ≡ ok tt
      → loads stream ≡ some msg
      → validate_alarm_definition msg ≡ ok tt
      → body_of msg ≡ some body
      → body.actions_enabled ≢ some true
      → (m : String) × (do_put_alarm_definitions roles req tenant_id parse publisher now fresh
            float_code literal id loads stream w
          ≡ (err (bad m), w))
  unfolding do_put_alarm_definitions validated_body_of read_json_msg_body
  put_disabled loads stream msg body let_in is_json valid is_body off =
      let (name, expression, severity, body', same, n, e, s) = validated_body msg valid in
      let same_body : body' ≡ body = cc in
      let (m, refused) =
        read_put_disabled body name expression
          (subst (λ b. get_query_alarm_definition_name b false ≡ ok (some name)) same_body n)
          (subst (λ b. get_query_alarm_definition_expression b false ≡ ok (some expression))
            same_body e)
          off in
      let is_read : read_json_msg_body loads stream ≡ ok msg = rw (is_json, read_json_msg_body) in
      let checked : validated_body_of roles req tenant_id loads stream ≡ ok body =
        checks_passed (validate_authorization req roles) (read_json_msg_body loads stream)
          validate_alarm_definition body_of msg body let_in is_read valid is_body in
      (
        m,
        ap
              (λ r.
                after
                  (update_from roles req tenant_id parse publisher now fresh float_code literal id
                    false)
                  (r >>= read_put, w))
              checked
            ∙ ap
                (λ r.
                  after
                    (update_from roles req tenant_id parse publisher now fresh float_code literal id
                      false)
                    (r, w))
                refused,
      )
