-- ===== src/Notifications/Repository.antt =====
-- What the repository of notification methods guarantees: read after write, one row at a time, one
-- tenant at a time, and unique names.
use monasca_api.Prelude.{
  ◌≡◌, ◌≢◌, refl, ◌∙◌, ℕ, true, false, not, String, List, [], ◌∷◌, arith, any, keep, All,
  keep-concat_drop, keep-concat_keep, keep_none, keep-keep-not, any-false_of_keep-nil, eq_iff,
  eq_refl, ◌⊎◌, inl, inr, Bool-cases,
}
use monasca_api.Errors.{does_not_exist, already_exists, ok, err}
use monasca_api.Database.{Db, Notification}
use monasca_api.Notifications.{
  named, identified, owned, new_row, create_notification, overwrite_rows, update_notification,
  delete_notification, list_notification,
}

-- The calls that change the table, with the clock and the fresh id that each uses.
pub data Call : Type 0 where
  create : ℕ → String → String → String → String → String → Call
  update : ℕ → String → String → String → String → String → Call
  delete : String → String → Call

abbrev pub tenant_of : Call → String
tenant_of (create now id tenant name type address) = tenant
tenant_of (update now id tenant name type address) = tenant
tenant_of (delete tenant id) = tenant

unfoldable pub perform : Call → Db → Db
unfolding create_notification update_notification delete_notification
perform (create now id tenant name type address) db =
    (create_notification now id tenant name type address db).1
perform (update now id tenant name type address) db =
    (update_notification now id tenant name type address db).1
perform (delete tenant id) db = (delete_notification tenant id db).1

unfoldable pub perform_all : List Call → Db → Db
unfolding perform
perform_all [] db = db
perform_all (c ∷ cs) db = perform_all cs (perform c db)

keep-overwrite_rows :
    (now : ℕ) (id tenant name type address other : String) (ns : List Notification)
    → tenant ≢ other
    → keep (owned other) (overwrite_rows now id tenant name type address ns) ≡ keep (owned other) ns
unfolding keep overwrite_rows
keep-overwrite_rows now id tenant name type address other [] h = refl
keep-overwrite_rows now id tenant name type address other (n ∷ ns) h = ground (
  arith,
  eq_iff n.tenant_id tenant,
  eq_iff n.tenant_id other,
  keep-overwrite_rows now id tenant name type address other ns h,
)

keep-delete :
    (tenant id other : String) (ns : List Notification)
    → tenant ≢ other
    → keep (owned other) (keep (λ n. not (identified tenant id n)) ns) ≡ keep (owned other) ns
unfolding keep
keep-delete tenant id other [] h = refl
keep-delete tenant id other (n ∷ ns) h =
    ground
      (arith, eq_iff n.tenant_id tenant, eq_iff n.tenant_id other, keep-delete tenant id other ns h)

perform-owned :
    (c : Call) (other : String) (db : Db)
    → tenant_of c ≢ other
    → keep (owned other) (perform c db).notification_method
      ≡ keep (owned other) db.notification_method
unfolding perform
perform-owned (create now id tenant name type address) other db h = ground (
  arith,
  eq_iff tenant other,
  keep-concat_drop (owned other) db.notification_method (new_row now id tenant name type address),
)
perform-owned (update now id tenant name type address) other db h =
    ground
      (arith, keep-overwrite_rows now id tenant name type address other db.notification_method h)
perform-owned (delete tenant id) other db h =
    ground (arith, keep-delete tenant id other db.notification_method h)

-- Whatever calls other tenants make, one after the other, failing ones included, the rows of a
-- tenant stay as they are.
pub perform_all-owned :
    (cs : List Call) (other : String) (db : Db)
    → All (λ c. tenant_of c ≢ other) cs
    → keep (owned other) (perform_all cs db).notification_method
      ≡ keep (owned other) db.notification_method
unfolding perform_all
perform_all-owned [] other db h = refl
perform_all-owned (c ∷ cs) other db (p, h) =
    perform_all-owned cs other (perform c db) h ∙ perform-owned c other db p

-- A notification method that is created under a name new to the tenant, and under an id new to the
-- tenant, is what a read of that id returns, and the read changes nothing.
pub list-create :
    (now : ℕ) (id tenant name type address : String) (db : Db)
    → any (named tenant name) db.notification_method ≡ false
    → any (identified tenant id) db.notification_method ≡ false
    → let after = (create_notification now id tenant name type address db).1 in
      list_notification tenant id after ≡ (ok (new_row now id tenant name type address), after)
unfolding create_notification list_notification
list-create now id tenant name type address db free fresh = ground (
  arith,
  eq_refl tenant,
  eq_refl id,
  keep_none (identified tenant id) db.notification_method fresh,
  keep-concat_keep (identified tenant id) db.notification_method
      (new_row now id tenant name type address),
)

-- A second method of the same name is refused, and nothing is stored.
pub create_taken :
    (now : ℕ) (id tenant name type address : String) (db : Db)
    → any (named tenant name) db.notification_method ≡ true
    → create_notification now id tenant name type address db
      ≡ (err (already_exists "Notification already exists"), db)
unfolding create_notification
create_taken now id tenant name type address db taken = ground arith

-- A deletion of a stored method succeeds, and afterwards a read and a second deletion of the id find
-- no row; without such a row it is refused and changes nothing.
pub delete_outcome :
    (tenant id : String) (db : Db)
    → let after = (delete_notification tenant id db).1 in
      ((any (identified tenant id) db.notification_method ≡ true)
        × ((delete_notification tenant id db).0 ≡ ok tt)
        × (list_notification tenant id after ≡ (err does_not_exist, after))
        × (delete_notification tenant id after ≡ (err does_not_exist, after)))
      ⊎ ((any (identified tenant id) db.notification_method ≡ false)
          × (delete_notification tenant id db ≡ (err does_not_exist, db)))
unfolding delete_notification list_notification
delete_outcome tenant id db =
    elim (Bool-cases (any (identified tenant id) db.notification_method)) [
      | inl found ↦
          let gone = keep-keep-not (identified tenant id) db.notification_method in
          inl (
            found,
            ground arith,
            ground (arith, gone),
            ground (
              arith,
              gone,
              any-false_of_keep-nil (identified tenant id)
                  (keep (λ n. not (identified tenant id n)) db.notification_method) gone,
            ),
          )
      | inr absent ↦ inr (absent, ground arith)
    ]
