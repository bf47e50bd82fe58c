-- ===== src/Alarms/Changes.antt =====
-- What setting the state of an alarm and deleting an alarm do.
use monasca_api.Prelude.{
  ◌≡◌, refl, ap, ◌∙◌, Bool, true, false, not, String, List, [], ◌∷◌, map, seq, any, keep, All,
  arith, eq_iff, Bool-cases, inl, inr, if◌then◌else◌, keep-keep-not, any-false_of_keep-nil,
}
use monasca_api.Errors.{ok, err, does_not_exist, mysql_try_catch_block, transaction}
use monasca_api.Database.{Db, Alarm}
use monasca_api.Alarms.{is_mine, write_state, with_state, set_state, update_alarm, delete_alarm}

module _ (tenant_id id state : String) (db : Db) where
  abbrev mine : Alarm → Bool
  mine = is_mine tenant_id id db

  keep-set_state :
      (l : List Alarm) → keep mine (set_state mine state l) ≡ map (with_state state) (keep mine l)
  unfolding keep set_state
  keep-set_state [] = refl
  keep-set_state (a ∷ l) = ground (arith, keep-set_state l)

  set_state-twice :
      (l : List Alarm) → set_state mine state (set_state mine state l) ≡ set_state mine state l
  unfolding set_state
  set_state-twice [] = refl
  set_state-twice (a ∷ l) = ground (arith, set_state-twice l)

  keep-not-set_state :
      (l : List Alarm)
      → keep (λ b. not (mine b)) (set_state mine state l) ≡ keep (λ b. not (mine b)) l
  unfolding keep set_state
  keep-not-set_state [] = refl
  keep-not-set_state (a ∷ l) = ground (arith, keep-not-set_state l)

  -- a row that the update would not change
  kept_row :
      (b : Bool) (a : Alarm) (l : List Alarm)
      → All (λ a. with_state state a ≡ a) (if b then a ∷ l else l)
      → ((if b then with_state state a else a) ≡ a) × All (λ a. with_state state a ≡ a) l
  kept_row true a l h = h
  kept_row false a l h = (refl, h)

  set_state-same :
      (l : List Alarm)
      → All (λ a. with_state state a ≡ a) (keep mine l)
      → set_state mine state l ≡ l
  unfolding keep set_state
  set_state-same [] h = refl
  set_state-same (a ∷ l) h =
      let (same, rest) = kept_row (mine a) a (keep mine l) h in rw (same, set_state-same l rest)

  abbrev changed : Db
  changed = record db { alarm = set_state mine state db.alarm }

  update_alarm-found :
      (a : Alarm)
      → keep mine db.alarm ≡ a ∷ []
      → update_alarm tenant_id id state db ≡ (ok a.state, if seq state a.state then db else changed)
  unfolding update_alarm mysql_try_catch_block transaction
  update_alarm-found a found =
      ap (λ rows. mysql_try_catch_block (transaction (write_state tenant_id id state rows)) db)
        found

  update_steps :
      (a : Alarm)
      → keep mine db.alarm ≡ a ∷ []
      → update_alarm tenant_id id state db ≡ (ok a.state, changed)
  update_steps a found = update_alarm-found a found ∙ elim (Bool-cases (seq state a.state)) [
    | inl e ↦
        rw (e, set_state-same db.alarm (rw (found) (rw ((eq_iff state a.state).0 e) (refl, tt))))
    | inr e ↦ rw (e)
  ]

-- For the one alarm of the tenant under an id, an update returns the state before and sets the state
-- of that alarm and of no other row; a second one returns the new state and changes nothing.
pub update_alarm_outcome :
    (tenant_id id state : String) (db : Db) (a : Alarm)
    → keep (is_mine tenant_id id db) db.alarm ≡ a ∷ []
    → let after = record db { alarm = set_state (is_mine tenant_id id db) state db.alarm } in
      (update_alarm tenant_id id state db ≡ (ok a.state, after))
      × (update_alarm tenant_id id state after ≡ (ok state, after))
      × (keep (λ b. not (is_mine tenant_id id db b)) after.alarm
          ≡ keep (λ b. not (is_mine tenant_id id db b)) db.alarm)
update_alarm_outcome tenant_id id state db a found = (
  update_steps tenant_id id state db a found,
  update_steps tenant_id id state (changed tenant_id id state db) (with_state state a)
        (keep-set_state tenant_id id state db db.alarm ∙ ap (map (with_state state)) found)
      ∙ ap (λ rows. (ok state, record db { alarm = rows }))
          (set_state-twice tenant_id id state db db.alarm),
  keep-not-set_state tenant_id id state db db.alarm,
)

none_left :
    (tenant_id id : String) (db : Db) (l : List Alarm)
    → any (is_mine tenant_id id db) (keep (λ a. not (is_mine tenant_id id db a)) l) ≡ false
none_left tenant_id id db l =
    any-false_of_keep-nil (is_mine tenant_id id db) (keep (λ a. not (is_mine tenant_id id db a)) l)
      (keep-keep-not (is_mine tenant_id id db) l)

-- Deleting an alarm of the tenant removes just the rows that are it; a second deletion raises
-- `DoesNotExistException` and changes nothing.
pub delete_alarm_outcome :
    (tenant_id id : String) (db : Db)
    → any (is_mine tenant_id id db) db.alarm ≡ true
    → let after = record db { alarm = keep (λ a. not (is_mine tenant_id id db a)) db.alarm } in
      (delete_alarm tenant_id id db ≡ (ok tt, after))
      × (delete_alarm tenant_id id after ≡ (err does_not_exist, after))
unfolding delete_alarm
delete_alarm_outcome tenant_id id db h =
    (ground arith, ground (arith, none_left tenant_id id db db.alarm))
