-- ===== src/Notifications.antt =====
-- Notification methods: monasca/common/repositories/mysql/notifications_repository.py. The clock's
-- `now` and the id that `generate_uuid` makes are arguments. `lt` is the database's order of the ids.
pub mod Repository
pub mod Resource
pub mod Update
use monasca_api.Prelude.{
  ◌≡◌, ℕ, ◌==◌, Bool, true, false, ◌&&◌, not, String, List, [], ◌∷◌, ◌++◌, Option, none, some, seq,
  any, keep, page, if◌then◌else◌, length, map,
}
use monasca_api.Errors.{
  Exn, does_not_exist, already_exists, Exec, mysql_try_catch_block, transaction, ok, err,
}
use monasca_api.Database.{Db, Notification}
use monasca_api.Paging.{page_limit}

-- `where tenant_id = %s and name = %s`
abbrev pub named : String → String → Notification → Bool
named tenant_id name n = seq n.tenant_id tenant_id && seq n.name name

-- `where tenant_id = %s and id = %s`
abbrev pub identified : String → String → Notification → Bool
identified tenant_id id n = seq n.tenant_id tenant_id && seq n.id id

abbrev pub owned : String → Notification → Bool
owned tenant_id n = seq n.tenant_id tenant_id

abbrev set_table : Db → List Notification → Db
set_table db rows = record db { notification_method = rows }

module _ (now : ℕ) where
  abbrev pub new_row : String → String → String → String → String → Notification
  new_row notification_id tenant_id name notification_type address = record {
    id = notification_id;
    tenant_id = tenant_id;
    name = name;
    type = notification_type;
    address = address;
    created_at = now;
    updated_at = now;
  }

  -- not under `mysql_try_catch_block`
  unfoldable pub create_notification : String → String → String → String → String → Exec Db String
  unfolding transaction
  create_notification notification_id tenant_id name notification_type address = transaction λ db.
      if any (named tenant_id name) db.notification_method
      then (err (already_exists "Notification already exists"), db)
      else (
        ok notification_id,
        set_table db (
            db.notification_method
            ++ new_row notification_id tenant_id name notification_type address ∷ []),
      )

  abbrev pub overwritten : String → String → String → Notification → Notification
  overwritten name type address n = record n {
    name = name;
    type = type;
    address = address;
    created_at = now;
    updated_at = now;
  }

  -- the row differs from what the statement writes
  abbrev pub differs : String → String → String → Notification → Bool
  differs name type address n = not (
      seq n.name name
      && seq n.type type
      && seq n.address address
      && n.created_at == now
      && n.updated_at == now)

  -- `update … where`: the rows after it
  unfoldable pub overwrite_rows :
      String → String → String → String → String → List Notification → List Notification
  overwrite_rows id tenant_id name type address [] = []
  overwrite_rows id tenant_id name type address (n ∷ ns) =
      (if identified tenant_id id n then overwritten name type address n else n)
      ∷ overwrite_rows id tenant_id name type address ns

  -- `cursor.rowcount < 1`: MySQL counts the rows whose content changes.
  unfoldable pub update_notification :
      String → String → String → String → String → Exec Db (Unit {0})
  unfolding transaction mysql_try_catch_block overwrite_rows
  update_notification id tenant_id name type address = mysql_try_catch_block (
      transaction λ db.
        if any (λ n. identified tenant_id id n && differs name type address n)
          db.notification_method
        then (
          ok tt,
          set_table db (overwrite_rows id tenant_id name type address db.notification_method),
        )
        else (err does_not_exist, db))

unfoldable pub list_notifications :
    (String → String → Bool) → String → Option String → Exec Db (List Notification)
unfolding mysql_try_catch_block keep page
list_notifications lt tenant_id none =
    mysql_try_catch_block λ db. (ok (keep (owned tenant_id) db.notification_method), db)
list_notifications lt tenant_id (some offset) = mysql_try_catch_block λ db.
    (ok (page lt (λ n. n.id) page_limit offset (keep (owned tenant_id) db.notification_method)), db)

unfoldable pub delete_notification : String → String → Exec Db (Unit {0})
unfolding mysql_try_catch_block transaction keep
delete_notification tenant_id id = mysql_try_catch_block (
    transaction λ db.
      if any (identified tenant_id id) db.notification_method
      then (
        ok tt,
        set_table db (keep (λ n. not (identified tenant_id id n)) db.notification_method),
      )
      else (err does_not_exist, db))

-- `if rows: return rows[0]`
abbrev first_row : Db → List Notification → Exec Db Notification
first_row db [] = λ s. (err does_not_exist, s)
first_row db (n ∷ ns) = λ s. (ok n, s)

unfoldable pub list_notification : String → String → Exec Db Notification
unfolding mysql_try_catch_block keep
list_notification tenant_id notification_id =
    mysql_try_catch_block
      λ db. first_row db (keep (identified tenant_id notification_id) db.notification_method) db
