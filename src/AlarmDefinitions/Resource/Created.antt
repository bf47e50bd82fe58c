-- ===== src/AlarmDefinitions/Resource/Created.antt =====
-- What a creation does to the database and to the queue of events.
use monasca_api.Prelude.{◌≡◌, ap, subst, ◌∙◌, ℕ, false, String, List, Option, All, any, seq}
use monasca_api.Errors.{Result, ok, map_err, resource_error, resource_try_catch_block}
use monasca_api.Errors.Steps.{returned, after}
use monasca_api.Errors.Outcomes.{Yields-returns, atomically-returns}
use monasca_api.Database.{Db}
use monasca_api.Expression.{SubExpr}
use monasca_api.AlarmDefinitions.Queries.{get_alarm_definition}
use monasca_api.AlarmDefinitions.Actions.Laws.{AreActions}
use monasca_api.AlarmDefinitions.Create.{create_body, create_alarm_definition}
use monasca_api.AlarmDefinitions.Create.RoundTrip.{
  IsWritable, fresh_ids, AreFresh, view, create-get,
}
use monasca_api.AlarmDefinitions.Create.Numbered.{numbered, create_alarm_definition-numbered}
use monasca_api.AlarmDefinitions.Events.Created.{message, created_message-Returns}
use monasca_api.AlarmDefinitions.Resource.{
  CreatedResult, created_result, parse_error, parsed, send_created, create_parsed,
  alarm_definition_create,
}
use monasca_api.Messages.{Message, Publisher, send_built}
use monasca_api.Alarming.Built.{send_event-takes}
use monasca_api.Alarming.Updates.{World, on_events}

module _ {Q : Type 0} (parse : String → Result (List SubExpr)) (publisher : Publisher Q)
    (take : Message → Q → Q)
    (takes : (m : Message) (q : Q) → publisher.send_message m q ≡ (ok tt, take m q)) (now : ℕ)
    (fresh : ℕ → String) (tenant_id name expression description severity : String)
    (match_by : List String) (alarm_actions undetermined_actions ok_actions : Option (List String))
    (w : World Q) where
  abbrev create : Result CreatedResult × World Q
  create =
      alarm_definition_create parse publisher now fresh tenant_id name expression description
        severity match_by alarm_actions undetermined_actions ok_actions w

  abbrev result : CreatedResult
  result =
      created_result parse publisher (fresh 0) name expression description severity match_by
        alarm_actions undetermined_actions ok_actions

  abbrev store : List SubExpr → Db → Result (String × List SubExpr) × Db
  store es =
      create_alarm_definition now fresh tenant_id name expression es description severity match_by
        alarm_actions undetermined_actions ok_actions

  abbrev Shows : List SubExpr → Db → Type 0
  Shows es db =
      (get_alarm_definition tenant_id (fresh 0) db).0
      ≡ ok (
          view now fresh tenant_id name expression description severity es match_by alarm_actions
            undetermined_actions ok_actions)

  abbrev caught : Result CreatedResult × World Q → Result CreatedResult × World Q
  caught r = (map_err resource_error r.0, r.1)

  created_steps :
      (es : List SubExpr) (db' : Db) (m : Message)
      → parse expression ≡ ok es
      → store es w.db ≡ (ok (fresh 0, numbered now fresh 1 es), db')
      → message now fresh tenant_id (fresh 0) name expression description es match_by ≡ ok m
      → create ≡ (ok result, record w { db = db'; events = take m w.events })
  unfolding alarm_definition_create resource_try_catch_block parsed
  created_steps es db' m is_parsed stored built =
      let send =
        send_created parse publisher now fresh tenant_id name expression description severity
          match_by alarm_actions undetermined_actions ok_actions in
      let w' : World Q = record w { db = db' } in
      ap
        (λ p. caught (
          after
            (create_parsed parse publisher now fresh tenant_id name expression description severity
              match_by alarm_actions undetermined_actions ok_actions)
            (map_err (parse_error expression) p, w)))
        is_parsed
      ∙ ap (λ s. caught (after send (s.0, record w { db = s.1 }))) stored
      ∙ ap (λ b. caught (after (λ u. returned (ok result)) (on_events (send_built publisher b) w')))
          built
      ∙ ap (λ r. caught (after (λ u. returned (ok result)) (r.0, record w' { events = r.1 })))
          (send_event-takes publisher take takes m w.events)

  -- Creating a definition from an expression that can be parsed answers the new id and what was
  -- given, stores the definition so that a read of the id shows it, and sends one event, which tells
  -- of the definition and its sub expressions under the ids that they got. The conditions: the sub
  -- expressions have operators, and dimensions with a "=" and different names; the actions are ids of
  -- notifications, none twice for a state; the ids generated for the sub expressions are different
  -- and new to their tables, and the one for the definition is new; and the queue takes every
  -- message.
  pub create_definition_outcome :
      (es : List SubExpr)
      → parse expression ≡ ok es
      → All IsWritable es
      → AreFresh now fresh (fresh_ids now fresh 1 es) w.db
      → AreActions alarm_actions w.db
      → AreActions undetermined_actions w.db
      → AreActions ok_actions w.db
      → any (λ ad. seq ad.id (fresh 0)) w.db.alarm_definition ≡ false
      → any (λ a. seq a.alarm_definition_id (fresh 0)) w.db.alarm_action ≡ false
      → (m : Message) × (db' : Db) × (message now fresh tenant_id
            (fresh 0)
            name
            expression
            description
            es
            match_by
          ≡ ok m)
        × (create ≡ (ok result, record w { db = db'; events = take m w.events }))
        × Shows es db'
  unfolding create_alarm_definition
  create_definition_outcome es is_parsed writable ids ea eu eo new new_actions =
      let (r, is_stored, both) =
        Yields-returns (λ r. (r.0 ≡ fresh 0) × Shows es (store es w.db).1) (store es w.db).0
          (create-get now fresh tenant_id name expression description severity es match_by
            alarm_actions undetermined_actions ok_actions w.db writable ids ea eu eo new
            new_actions) in
      let (db', body, committed) =
        atomically-returns
          (create_body now fresh tenant_id name expression es description severity match_by
            alarm_actions undetermined_actions ok_actions)
          w.db r is_stored in
      let (m, built) =
        created_message-Returns now fresh tenant_id (fresh 0) name expression description es
          match_by writable in
      let numbers =
        create_alarm_definition-numbered now fresh tenant_id name expression es description severity
          match_by alarm_actions undetermined_actions ok_actions w.db db' r body in
      (
        m,
        db',
        built,
        created_steps es db' m is_parsed
            (subst (λ r. store es w.db ≡ (ok r, db')) numbers committed) built,
        subst (Shows es) (ap (λ x. x.1) committed) both.1,
      )
