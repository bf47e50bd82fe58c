-- ===== src/AlarmDefinitions/Update/Named.antt =====
-- The update of an alarm definition as the handlers call it, where the name may be `None`:
-- `name.encode` raises when the row is about to be written, after the reads and the sorting.
use monasca_api.Prelude.{ℕ, Bool, String, List, Option, none, some}
use monasca_api.Errors.{
  Exec, Result, err, ◌>>=◌, python, does_not_exist, mysql_try_catch_block, atomically,
}
use monasca_api.Database.{Db}
use monasca_api.Expression.{SubExpr}
use monasca_api.SubAlarm.{SubAlarmDefinition, equals, same_key_fields}
use monasca_api.AlarmDefinitions.Diff.{Diff, diff}
use monasca_api.AlarmDefinitions.Queries.{DefinitionRow, definition_rows, sub_definition_rows}
use monasca_api.AlarmDefinitions.Update.{
  Changes, read_rows, read_sub_exprs, with_id, first_row, update_or_patch_alarm_definition,
}

module _ (now : ℕ) (fresh : ℕ → String) (float_code : String → ℕ)
    (literal : SubAlarmDefinition → String) where
  unfoldable pub update_body_without_name :
      String → String → List SubExpr → Db → Result ((DefinitionRow × Diff SubAlarmDefinition) × Db)
  unfolding definition_rows sub_definition_rows read_rows read_sub_exprs equals same_key_fields diff
  update_body_without_name tenant_id id sub_expr_list db = do
    original ← first_row does_not_exist (definition_rows tenant_id id db)
    olds ← read_rows (sub_definition_rows id db)
    news ← read_sub_exprs id sub_expr_list
    d ← diff (equals float_code) same_key_fields (λ sad. sad.id) with_id fresh olds news
    err (python "AttributeError")

  -- `changes` for the name that is given
  unfoldable pub update_named :
      String
      → String
      → Option String
      → List SubExpr
      → (String → Changes)
      → Bool
      → Exec Db (DefinitionRow × Diff SubAlarmDefinition)
  unfolding update_body_without_name update_or_patch_alarm_definition mysql_try_catch_block
      atomically
  update_named tenant_id id (some name) sub_expr_list changes patch =
      update_or_patch_alarm_definition now fresh float_code literal tenant_id id (changes name)
        patch
  update_named tenant_id id none sub_expr_list changes patch =
      mysql_try_catch_block (atomically (update_body_without_name tenant_id id sub_expr_list))
