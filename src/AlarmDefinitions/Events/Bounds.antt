-- ===== src/AlarmDefinitions/Events/Bounds.antt =====
-- How much the event of an update says: less than was changed.
use monasca_api.Prelude.{
  ◌≡◌, refl, ℕ, String, List, [], ◌∷◌, Option, some, arith, Dict, put, All, eq_iff, subst,
}
use monasca_api.Errors.{ok}
use monasca_api.Errors.Outcomes.{Yields, Yields-bind, returned_steps}
use monasca_api.Database.{SubAlarmDefinitionRow}
use monasca_api.Expression.{SubExpr}
use monasca_api.SubAlarm.{
  SubAlarmDefinition, of_row, of_sub_expr, init_dimensions, expression, equals, same_key_fields,
}
use monasca_api.AlarmDefinitions.Diff.{Diff, diff}
use monasca_api.AlarmDefinitions.Diff.Values.{
  AllValues, AllValues-put, diff-AllValues, diff_changed-AllValues,
}
use monasca_api.AlarmDefinitions.Update.{read_rows, read_sub_exprs, with_id, text_or_null}
use monasca_api.AlarmDefinitions.Body.{Body}
use monasca_api.AlarmDefinitions.Events.{
  uname_dimensions, updated_sub_message, add_sub_messages, build_sub_alarm_def_update_dict,
  updated_message,
}
use monasca_api.Messages.{SubAlarmMessage, Message, alarm_definition_updated}

-- At most one entry, under the given key.
abbrev pub AtMostOne : {V : Type 0} → String → Dict V → Type 0
AtMostOne k [] = Unit
AtMostOne k (e ∷ []) = e.0 ≡ k
AtMostOne k (e ∷ e' ∷ d) = ⊥

AtMostOne-put :
    {V : Type 0} (k : String) (v : V) (d : Dict V) → AtMostOne k d → AtMostOne k (put k v d)
unfolding put
AtMostOne-put k v [] h = refl
AtMostOne-put k v ((j, w) ∷ []) h = ground (arith, eq_iff j k)
AtMostOne-put k v (e ∷ e' ∷ d) h = elim h [ ]

AtMostOne-uname :
    (acc dimensions : Dict String)
    → AtMostOne "uname" acc
    → AtMostOne "uname" (uname_dimensions acc dimensions)
unfolding uname_dimensions
AtMostOne-uname acc [] h = h
AtMostOne-uname acc ((name, value) ∷ ds) h =
    AtMostOne-uname (put "uname" value acc) ds (AtMostOne-put "uname" value acc h)

abbrev pub HasOperator : SubAlarmDefinition → Type 0
HasOperator sad = (o : String) × (sad.operator ≡ some o)

-- a sub alarm's message names at most one dimension
abbrev pub NamesOne : SubAlarmMessage → Type 0
NamesOne m = AtMostOne "uname" m.metric_definition.dimensions

updated_sub_message-NamesOne :
    (sad : SubAlarmDefinition) → HasOperator sad → Yields NamesOne (updated_sub_message sad)
unfolding updated_sub_message
updated_sub_message-NamesOne sad (o, h) = rw h (AtMostOne-uname [] sad.dimensions tt)

module _ (P : SubAlarmDefinition → Type 0) (R : Dict SubAlarmMessage → Type 0)
    (keeps : (sad : SubAlarmDefinition) (m : SubAlarmMessage) (acc : Dict SubAlarmMessage)
      → P sad
      → NamesOne m
      → R acc
      → R (put sad.id m acc)) where
  add_sub_messages-Yields :
      (acc : Dict SubAlarmMessage) (sads : Dict SubAlarmDefinition)
      → AllValues HasOperator sads
      → AllValues P sads
      → R acc
      → Yields R (add_sub_messages acc sads)
  unfolding add_sub_messages
  add_sub_messages-Yields acc [] h p r = r
  add_sub_messages-Yields acc ((id, sad) ∷ sads) (o, h) (q, p) r =
      Yields-bind NamesOne R (updated_sub_message sad) _ (updated_sub_message-NamesOne sad o)
        λ m one. add_sub_messages-Yields (put sad.id m acc) sads h p (keeps sad m acc q one r)

abbrev pub AllNameOne : Dict SubAlarmMessage → Type 0
AllNameOne messages = AllValues NamesOne messages

dict-NamesOne :
    (sads : Dict SubAlarmDefinition)
    → AllValues HasOperator sads
    → Yields AllNameOne (build_sub_alarm_def_update_dict sads)
unfolding build_sub_alarm_def_update_dict
dict-NamesOne sads h =
    add_sub_messages-Yields HasOperator AllNameOne
      (λ sad m acc o one r. AllValues-put NamesOne sad.id m acc one r) [] sads h h tt

-- the definitions of the changed ones have no id yet
abbrev pub WithoutId : SubAlarmDefinition → Type 0
WithoutId sad = sad.id ≡ ""

abbrev pub OneWithoutId : Dict SubAlarmMessage → Type 0
OneWithoutId messages = AllNameOne messages × AtMostOne "" messages

dict-OneWithoutId :
    (sads : Dict SubAlarmDefinition)
    → AllValues HasOperator sads
    → AllValues WithoutId sads
    → Yields OneWithoutId (build_sub_alarm_def_update_dict sads)
unfolding build_sub_alarm_def_update_dict
dict-OneWithoutId sads h k =
    add_sub_messages-Yields WithoutId OneWithoutId
      (λ sad m acc no_id one (r, most).
        (AllValues-put NamesOne sad.id m acc one r, rw no_id (AtMostOne-put "" m acc most)))
      [] sads h k (tt, tt)

of_row-HasOperator :
    (row : SubAlarmDefinitionRow) (dimensions : String) (sad : SubAlarmDefinition)
    → of_row row dimensions ≡ ok sad
    → HasOperator sad
unfolding of_row
of_row-HasOperator row dimensions sad h =
    let (_, _, built) = returned_steps (init_dimensions dimensions) _ h in
    (row.operator, ground arith)

of_sub_expr-WithoutId :
    (id : String) (e : SubExpr) (sad : SubAlarmDefinition)
    → of_sub_expr id e ≡ ok sad
    → WithoutId sad
unfolding of_sub_expr
of_sub_expr-WithoutId id e sad h =
    let (_, _, built) = returned_steps (init_dimensions e.dimensions) _ h in ground arith

read_rows-HasOperator :
    (rows : List (SubAlarmDefinitionRow × Option String)) (sads : List SubAlarmDefinition)
    → read_rows rows ≡ ok sads
    → All HasOperator sads
unfolding read_rows
read_rows-HasOperator [] sads h = subst (All HasOperator) (let e : [] ≡ sads = cc in e) tt
read_rows-HasOperator (row ∷ rows) sads h =
    let (sad, read, more) = returned_steps (of_row row.0 (text_or_null row.1)) _ h in
    let (rest, read_rest, result) = returned_steps (read_rows rows) _ more in
    let same : (sad ∷ rest) ≡ sads = cc in
    subst (All HasOperator) same (
      of_row-HasOperator row.0 (text_or_null row.1) sad read,
      read_rows-HasOperator rows rest read_rest,
    )

read_sub_exprs-WithoutId :
    (id : String) (es : List SubExpr) (sads : List SubAlarmDefinition)
    → read_sub_exprs id es ≡ ok sads
    → All WithoutId sads
unfolding read_sub_exprs
read_sub_exprs-WithoutId id [] sads h = subst (All WithoutId) (let e : [] ≡ sads = cc in e) tt
read_sub_exprs-WithoutId id (e ∷ es) sads h =
    let (sad, read, more) = returned_steps (of_sub_expr id e) _ h in
    let (rest, read_rest, result) = returned_steps (read_sub_exprs id es) _ more in
    let same : (sad ∷ rest) ≡ sads = cc in
    subst (All WithoutId) same
      (of_sub_expr-WithoutId id e sad read, read_sub_exprs-WithoutId id es rest read_rest)

-- what the event of an update says
abbrev pub IsNarrow : Message → Type 0
IsNarrow (alarm_definition_updated u) =
    OneWithoutId u.changed_sub_expressions
    × AllNameOne u.old_alarm_sub_expressions
    × AllNameOne u.new_alarm_sub_expressions
    × AllNameOne u.unchanged_sub_expressions
IsNarrow _ = ⊥

module _ (float_code : String → ℕ) (fresh : ℕ → String) (id : String) where
  -- The event of an update that was sorted names at most one dimension for each sub expression,
  -- under the text "uname", and at most one changed sub expression, under the empty id, however many
  -- there are. The new definitions are taken to have operators.
  pub updated_message-IsNarrow :
      (tenant_id expression : String) (body : Body) (es : List SubExpr)
      → (rows : List (SubAlarmDefinitionRow × Option String)) (olds news : List SubAlarmDefinition)
      → (d : Diff SubAlarmDefinition) → read_rows rows ≡ ok olds
      → read_sub_exprs id es ≡ ok news
      → All HasOperator news
      → diff (equals float_code) same_key_fields (λ sad. sad.id) with_id fresh olds news ≡ ok d
      → Yields IsNarrow (updated_message tenant_id id body expression d)
  unfolding updated_message
  updated_message-IsNarrow tenant_id expression body es rows olds news d read_old read_new operators
        sorted =
      let (old, changed, new, unchanged) =
        diff-AllValues HasOperator (equals float_code) same_key_fields (λ sad. sad.id) olds news
          with_id fresh d (λ i sad h. h) (read_rows-HasOperator rows olds read_old) operators
          sorted in
      let no_ids : AllValues WithoutId d.changed =
        diff_changed-AllValues WithoutId (equals float_code) same_key_fields (λ sad. sad.id) olds
          news with_id fresh d (read_sub_exprs-WithoutId id es news read_new) sorted in
      Yields-bind AllNameOne IsNarrow (build_sub_alarm_def_update_dict d.old) _
        (dict-NamesOne d.old old)
        λ o one_o.
          Yields-bind AllNameOne IsNarrow (build_sub_alarm_def_update_dict d.new) _
            (dict-NamesOne d.new new)
            λ n one_n.
              Yields-bind OneWithoutId IsNarrow (build_sub_alarm_def_update_dict d.changed) _
                (dict-OneWithoutId d.changed changed no_ids)
                λ c one_c.
                  Yields-bind AllNameOne IsNarrow (build_sub_alarm_def_update_dict d.unchanged) _
                    (dict-NamesOne d.unchanged unchanged) λ u one_u. (one_c, one_o, one_n, one_u)
