-- ===== src/Tests/Definitions.antt =====
-- An alarm definition that is created, updated and deleted.
use monasca_api.Prelude.{
  ◌≡◌, refl, ◌⊎◌, Option, inr, ℕ, zero, suc, true, false, not, String, List, [], ◌∷◌, map, none,
  some, keep, differ, seq, split, lower, upper, join, get,
}
use monasca_api.Errors.{Exn, Result, ok, err, does_not_exist, repository, python}
use monasca_api.Database.{Db}
use monasca_api.Expression.{SubExpr}
use monasca_api.Errors.Outcomes.{Yields}
use monasca_api.SubAlarm.{SubAlarmDefinition, equals, same_key_fields}
use monasca_api.SubAlarm.Equality.{equals-IsEquivalence, same_key_fields_congr}
use monasca_api.AlarmDefinitions.Queries.{
  DefinitionRow, get_alarm_definition, delete_alarm_definition,
}
use monasca_api.AlarmDefinitions.Queries.Deletion.{after_deletion, delete_live, delete_other}
use monasca_api.AlarmDefinitions.Create.{create_alarm_definition, encoded, parsed_dimension}
use monasca_api.Expression.{
  dimensions_as_list, normalized_func, period, periods, normalized_operator,
}
use monasca_api.AlarmDefinitions.Create.RoundTrip.{create-get}
use monasca_api.AlarmDefinitions.Create.Conditions.{Conditions, create_conditions}
use monasca_api.AlarmDefinitions.Diff.{Diff, diff}
use monasca_api.AlarmDefinitions.Diff.Sets.{In, Pairwise, DistinctTexts}
use monasca_api.AlarmDefinitions.Diff.Partition.{Goes, diff-Goes}
use monasca_api.AlarmDefinitions.Update.{Changes, with_id}
use monasca_api.Tests.Data.{stored, sub_expr, sub_alarm, float_code}

delete_live_example :
    ((delete_alarm_definition 7 "t" "d" stored).0 ≡ ok true)
    × (get_alarm_definition "t" "d" (after_deletion 7 "t" "d" stored)
        ≡ (err does_not_exist, after_deletion 7 "t" "d" stored))
    × (delete_alarm_definition 7 "t" "d" (after_deletion 7 "t" "d" stored)
        ≡ (ok false, after_deletion 7 "t" "d" stored))
    × ((after_deletion 7 "t" "d" stored).alarm
        ≡ keep (λ a. not (seq a.alarm_definition_id "d")) stored.alarm)
delete_live_example = delete_live 7 "t" "d" stored refl

delete_other_example :
    (get_alarm_definition "t" "e" (after_deletion 7 "t" "d" stored)).0
    ≡ (get_alarm_definition "t" "e" stored).0
delete_other_example = delete_other 7 "t" "d" "t" "e" stored (inr (differ "e" "d" refl))

-- the ids that are generated
abbrev fresh : ℕ → String
fresh zero = "x"
fresh (suc n) = "y"

create-get_example :
    Yields
      (λ r.
        (r.0 ≡ "x")
        × ((get_alarm_definition "t" "x"
              (create_alarm_definition 3 fresh "t" "hot" "max(cpu{host=a}) > 90"
                (sub_expr ">" "90" ∷ [])
                ""
                "low"
                ("host" ∷ [])
                (some ("n" ∷ []))
                none
                none
                stored).1).0
            ≡ ok (record {
              id = "x";
              name = "hot";
              description = "";
              expression = "max(cpu{host=a}) > 90";
              match_by = "host";
              severity = "LOW";
              actions_enabled = 1;
              alarm_actions = some "n";
              ok_actions = none;
              undetermined_actions = none;
            })))
      (create_alarm_definition 3 fresh "t" "hot" "max(cpu{host=a}) > 90"
        (sub_expr ">" "90" ∷ [])
        ""
        "low"
        ("host" ∷ [])
        (some ("n" ∷ []))
        none
        none
        stored).0
unfolding split lower upper join dimensions_as_list normalized_operator encoded parsed_dimension
create-get_example =
    create-get 3 fresh "t" "hot" "max(cpu{host=a}) > 90" "" "low" (sub_expr ">" "90" ∷ [])
      ("host" ∷ []) (some ("n" ∷ [])) none none stored ((tt, (tt, tt), refl), tt)
      ((tt, tt), ((refl, refl), tt)) (refl, refl) (refl, refl) (refl, refl) refl refl

-- an action that is given twice
abbrev pub twice : Option (List String)
twice = some ("n" ∷ "n" ∷ [])

abbrev pub created_twice : Result (String × List SubExpr) × Db
created_twice =
    create_alarm_definition 3 fresh "t" "hot" "max(cpu{host=a}) > 90" (sub_expr ">" "90" ∷ []) ""
      "low" ("host" ∷ []) twice none none stored

create_conditions_example :
    ((e : Exn) × (created_twice ≡ (err e, stored)))
    ⊎ ((r : String × List SubExpr) × (db' : Db) × (created_twice ≡ (ok r, db'))
        × Conditions 3 fresh "t" "hot" "max(cpu{host=a}) > 90" "" "low"
            (sub_expr ">" "90" ∷ [])
            ("host" ∷ [])
            twice
            none
            none
            stored)
create_conditions_example =
    create_conditions 3 fresh "t" "hot" "max(cpu{host=a}) > 90" "" "low" (sub_expr ">" "90" ∷ [])
      ("host" ∷ []) twice none none stored

repeated_action : created_twice ≡ (err (repository (python "IntegrityError")), stored)
unfolding create_alarm_definition split lower upper join dimensions_as_list normalized_operator
    normalized_func period periods
repeated_action = refl

abbrev olds : List SubAlarmDefinition
olds = sub_alarm "s" "GT" "90" ∷ sub_alarm "r" "GT" "95" ∷ []

abbrev news : List SubAlarmDefinition
news = sub_alarm "" "GT" "95" ∷ sub_alarm "" "LT" "95" ∷ []

no_duplicates : Pairwise (equals float_code) (equals-IsEquivalence float_code) olds
unfolding equals get
no_duplicates = ((refl, tt), (tt, tt))

distinct : DistinctTexts (map (λ sad. sad.id) olds)
distinct = ((refl, tt), (tt, tt))

-- one old definition is unchanged, and the other changed
diff-Goes_example :
    (d : Diff SubAlarmDefinition) × (diff
        (equals float_code)
        same_key_fields
        (λ sad. sad.id)
        with_id
        fresh
        olds
        news
      ≡ ok d)
    × ((o : SubAlarmDefinition)
        → In o olds
        → Goes
            (equals float_code)
            same_key_fields
            (λ sad. sad.id)
            (equals-IsEquivalence float_code)
            (same_key_fields_congr float_code)
            olds
            news
            no_duplicates
            distinct
            d
            o)
diff-Goes_example =
    diff-Goes (equals float_code) same_key_fields (λ sad. sad.id) (equals-IsEquivalence float_code)
      (same_key_fields_congr float_code) olds news no_duplicates distinct with_id fresh

-- a patch of the expression and of the actions for "ALARM"
abbrev changes : Changes
changes = record {
  name = "high";
  expression = "max(cpu{host=a}) < 95";
  sub_expr_list = sub_expr "lt" "95" ∷ [];
  actions_enabled = true;
  description = none;
  alarm_actions = some [];
  ok_actions = none;
  undetermined_actions = none;
  match_by = none;
  severity = some "HIGH";
}

abbrev sorted : Diff SubAlarmDefinition
sorted = record { old = []; changed = ("s", sub_alarm "" "LT" "95") ∷ []; new = []; unchanged = [] }

abbrev patched : DefinitionRow
patched = record {
  id = "d";
  name = "high";
  description = "";
  expression = "max(cpu{host=a}) < 95";
  match_by = "";
  severity = "HIGH";
  actions_enabled = 1;
  alarm_actions = none;
  ok_actions = some "n";
  undetermined_actions = none;
}

abbrev as_parameter : SubAlarmDefinition → String
as_parameter sad = "object"
