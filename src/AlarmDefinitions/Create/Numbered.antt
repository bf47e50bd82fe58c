-- ===== src/AlarmDefinitions/Create/Numbered.antt =====
-- The sub expressions that a creation hands to the event, with the ids that they have got.
use monasca_api.Prelude.{◌≡◌, sym, ap, ◌∙◌, ℕ, suc, String, List, [], ◌∷◌, Option, some}
use monasca_api.Errors.{Result, ok, err}
use monasca_api.Errors.Outcomes.{returned_steps}
use monasca_api.Database.{Db}
use monasca_api.Expression.{SubExpr, normalized_operator, dimensions_as_list}
use monasca_api.AlarmDefinitions.Actions.{insert_into_alarm_action}
use monasca_api.AlarmDefinitions.Create.{
  encoded, insert_dimensions, insert_sub_exprs, insert_sub_row, sub_row, insert_definition, created,
  create_body,
}

module _ (now : ℕ) (fresh : ℕ → String) where
  -- from the n-th generated id on
  abbrev pub numbered : ℕ → List SubExpr → List SubExpr
  numbered n [] = []
  numbered n (e ∷ es) = record e { id = some (fresh n) } ∷ numbered (suc n) es

  abbrev exprs_of : Result (List SubExpr × Db) → List SubExpr
  exprs_of (ok r) = r.0
  exprs_of (err e) = []

  insert_sub_exprs-numbered :
      (id : String) (n : ℕ) (es : List SubExpr) (db : Db) (r : List SubExpr × Db)
      → insert_sub_exprs now fresh id n es db ≡ ok r
      → numbered n es ≡ r.0
  unfolding insert_sub_exprs
  insert_sub_exprs-numbered id n [] db r h = ap exprs_of h
  insert_sub_exprs-numbered id n (e ∷ es) db r h =
      let (operator, _, h1) = returned_steps (encoded (normalized_operator e)) _ h in
      let (db1, _, h1') =
        returned_steps (insert_sub_row (sub_row now fresh (fresh n) id e operator) db) _ h1 in
      let (db', _, h2) =
        returned_steps (insert_dimensions (fresh n) (dimensions_as_list e) db1) _ h1' in
      let (rest, read, h3) = returned_steps (insert_sub_exprs now fresh id (suc n) es db') _ h2 in
      ap (λ rest. record e { id = some (fresh n) } ∷ rest)
        (insert_sub_exprs-numbered id (suc n) es db' rest read)
      ∙ ap exprs_of h3

  abbrev created_of : Result ((String × List SubExpr) × Db) → String × List SubExpr
  created_of (ok r) = r.0
  created_of (err e) = ("", [])

  module _ (tenant_id name expression : String) (es : List SubExpr) (description severity : String)
      (match_by : List String)
      (alarm_actions undetermined_actions ok_actions : Option (List String)) where
    -- what a creation returns: the first generated id, and the sub expressions with the next ones
    pub create_alarm_definition-numbered :
        (db db' : Db) (r : String × List SubExpr)
        → create_body now fresh tenant_id name expression es description severity match_by
            alarm_actions undetermined_actions ok_actions db
          ≡ ok (r, db')
        → r ≡ (fresh 0, numbered 1 es)
    unfolding create_body
    create_alarm_definition-numbered db db' r h =
        let (db0, _, h0) =
          returned_steps
            (insert_definition
              (created now fresh tenant_id name expression description severity match_by) db)
            _ h in
        let (subs, inserted, h1) =
          returned_steps (insert_sub_exprs now fresh (fresh 0) 1 es db0) _ h0 in
        let (db1, _, h2) =
          returned_steps (insert_into_alarm_action (fresh 0) alarm_actions "ALARM" subs.1) _ h1 in
        let (db2, _, h3) =
          returned_steps
            (insert_into_alarm_action (fresh 0) undetermined_actions "UNDETERMINED" db1) _ h2 in
        let (db3, _, h4) =
          returned_steps (insert_into_alarm_action (fresh 0) ok_actions "OK" db2) _ h3 in
        sym (
          ap (λ l. (fresh 0, l)) (insert_sub_exprs-numbered (fresh 0) 1 es _ subs inserted)
          ∙ ap created_of h4)
