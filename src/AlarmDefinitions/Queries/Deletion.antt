-- ===== src/AlarmDefinitions/Queries/Deletion.antt =====
-- What deleting an alarm definition does, and to whom.
use monasca_api.Prelude.{
  ◌≡◌, ◌≢◌, refl, ℕ, true, false, not, String, List, [], ◌∷◌, seq, any, keep, arith, eq_iff, ◌⊎◌,
  keep_none,
}
use monasca_api.Errors.{ok, err, does_not_exist}
use monasca_api.Database.{Db, AlarmDefinition}
use monasca_api.AlarmDefinitions.Queries.{
  is_live, get_alarm_definition, mark_deleted, delete_alarm_definition,
}

module _ (now : ℕ) (tenant id : String) where
  no_live_left :
      (ads : List AlarmDefinition)
      → any (is_live tenant id) (mark_deleted now tenant id ads) ≡ false
  unfolding mark_deleted
  no_live_left [] = refl
  no_live_left (ad ∷ ads) = ground (arith, no_live_left ads)

  other_live :
      (tenant' id' : String) (ads : List AlarmDefinition)
      → (tenant' ≢ tenant) ⊎ (id' ≢ id)
      → keep (is_live tenant' id') (mark_deleted now tenant id ads) ≡ keep (is_live tenant' id') ads
  unfolding mark_deleted keep
  other_live tenant' id' [] h = refl
  other_live tenant' id' (ad ∷ ads) h = ground (
    arith,
    eq_iff ad.tenant_id tenant,
    eq_iff ad.tenant_id tenant',
    eq_iff ad.id id,
    eq_iff ad.id id',
    other_live tenant' id' ads h,
  )

  abbrev pub after_deletion : Db → Db
  after_deletion db = (delete_alarm_definition now tenant id db).1

  -- Deleting a live definition of the tenant returns True. Afterwards a read of it finds no row, a
  -- second deletion returns False and changes nothing, no alarm of the definition is left, and the
  -- alarms of other definitions are still there.
  pub delete_live :
      (db : Db)
      → any (is_live tenant id) db.alarm_definition ≡ true
      → let after = after_deletion db in
        ((delete_alarm_definition now tenant id db).0 ≡ ok true)
        × (get_alarm_definition tenant id after ≡ (err does_not_exist, after))
        × (delete_alarm_definition now tenant id after ≡ (ok false, after))
        × (after.alarm ≡ keep (λ a. not (seq a.alarm_definition_id id)) db.alarm)
  unfolding delete_alarm_definition get_alarm_definition
  delete_live db live = (
    ground arith,
    ground (
      arith,
      no_live_left db.alarm_definition,
      keep_none (is_live tenant id) (mark_deleted now tenant id db.alarm_definition)
          (no_live_left db.alarm_definition),
    ),
    ground (arith, no_live_left db.alarm_definition),
    ground arith,
  )

  -- A definition of another tenant, or another one of the tenant, is read after a deletion as before,
  -- with its actions, whether or not there was something to delete.
  pub delete_other :
      (tenant' id' : String) (db : Db)
      → (tenant' ≢ tenant) ⊎ (id' ≢ id)
      → (get_alarm_definition tenant' id' (after_deletion db)).0
        ≡ (get_alarm_definition tenant' id' db).0
  unfolding delete_alarm_definition get_alarm_definition
  delete_other tenant' id' db h = ground (arith, other_live tenant' id' db.alarm_definition h)
