-- ===== src/AlarmDefinitions/Update/Laws.antt =====
-- What a read shows after an update.
use monasca_api.Prelude.{◌≡◌, ℕ, Bool, true, String, List, [], map, Dict}
use monasca_api.Errors.{Result}
use monasca_api.Errors.Outcomes.{Yields}
use monasca_api.Database.{Db, AlarmDefinition, SubAlarmDefinitionRow, group_concat}
use monasca_api.SubAlarm.{SubAlarmDefinition}
use monasca_api.AlarmDefinitions.Queries.{DefinitionRow, base_row}
use monasca_api.AlarmDefinitions.Keys.{new_to}
use monasca_api.AlarmDefinitions.Actions.Laws.{with_all, ids_for}
use monasca_api.AlarmDefinitions.Create.{encoded}
use monasca_api.AlarmDefinitions.Diff.{Diff}
use monasca_api.AlarmDefinitions.Update.{
  Changes, or_original, joined_match_by, flag, update_rows, update_changed, delete_old,
  delete_old_actions, update_or_patch_alarm_definition,
}
use monasca_api.AlarmDefinitions.Update.Actions.{replaced}

-- A new sub alarm definition has an operator, and dimensions of different names.
abbrev pub IsNew : String × SubAlarmDefinition → Type 0
IsNew n =
    Yields (λ _. Unit {0}) (encoded n.1.operator)
    × (new_to [] (map (λ pair. pair.0) n.1.dimensions) ≡ true)

abbrev pub new_ids : Dict SubAlarmDefinition → List String
new_ids new = map (λ n. n.1.id) new

-- the sub alarm definitions before the new ones are inserted
abbrev rewritten_subs :
    ℕ
    → (SubAlarmDefinition → String)
    → Diff SubAlarmDefinition
    → List SubAlarmDefinitionRow
    → List SubAlarmDefinitionRow
rewritten_subs now literal d rows = update_changed now d.changed (delete_old literal d.old rows)

module _ (now : ℕ) (fresh : ℕ → String) (float_code : String → ℕ)
    (literal : SubAlarmDefinition → String) (tenant_id id : String) (changes : Changes)
    (patch : Bool) (ad : AlarmDefinition) (db : Db) where
  abbrev original : DefinitionRow
  original = base_row db ad

  -- what a read shows after the update
  abbrev view : DefinitionRow
  view = record {
    id = id;
    name = changes.name;
    description = or_original ad.description changes.description;
    expression = changes.expression;
    match_by = or_original ad.match_by (joined_match_by changes.match_by);
    severity = or_original ad.severity changes.severity;
    actions_enabled = flag changes.actions_enabled;
    alarm_actions =
        group_concat (replaced patch changes.alarm_actions (ids_for id "ALARM" db.alarm_action));
    ok_actions = group_concat (replaced patch changes.ok_actions (ids_for id "OK" db.alarm_action));
    undetermined_actions =
        group_concat
          (replaced patch changes.undetermined_actions (ids_for id "UNDETERMINED" db.alarm_action));
  }

  abbrev rewritten : Diff SubAlarmDefinition → Db
  rewritten d = record db {
    alarm_definition = update_rows now tenant_id id original changes db.alarm_definition;
    sub_alarm_definition = rewritten_subs now literal d db.sub_alarm_definition;
  }

  abbrev cleared : Db → Db
  cleared db' = delete_old_actions patch id changes db'

  abbrev final : Db → Db
  final db' =
      with_all id changes.alarm_actions changes.undetermined_actions changes.ok_actions
        (cleared db')

  abbrev update : Result (DefinitionRow × Diff SubAlarmDefinition) × Db
  update =
      update_or_patch_alarm_definition now fresh float_code literal tenant_id id changes patch db
