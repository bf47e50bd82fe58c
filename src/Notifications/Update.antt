-- ===== src/Notifications/Update.antt =====
-- An update of a notification method, and listing all pages.
use monasca_api.Prelude.{
  ◌≡◌, refl, ap, ◌∙◌, ℕ, ◌<◌, zero, suc, Bool, true, false, ◌&&◌, String, List, [], ◌∷◌, map, some,
  arith, any, keep, All, eq_refl, length, IsOrder, DistinctKeys, order_by,
}
use mathlib.Core.Path.{fun_ext}
use monasca_api.Errors.{Result, does_not_exist, ok, err}
use monasca_api.Database.{Db, Notification}
use monasca_api.Paging.Cover.{turn, follow, follow-order_by}
use monasca_api.Notifications.{
  identified, owned, differs, overwritten, overwrite_rows, update_notification, list_notifications,
  list_notification,
}

module _ (now : ℕ) (tenant id name type address : String) where
  abbrev pub updated : List Notification → List Notification
  updated ns = overwrite_rows now id tenant name type address ns

  keep-updated :
      (ns : List Notification)
      → keep (identified tenant id) (updated ns)
        ≡ map (overwritten now name type address) (keep (identified tenant id) ns)
  unfolding keep overwrite_rows
  keep-updated [] = refl
  keep-updated (n ∷ ns) = ground (arith, keep-updated ns)

  abbrev pub changes : Notification → Bool
  changes n = identified tenant id n && differs now name type address n

  any-changes-updated : (ns : List Notification) → any changes (updated ns) ≡ false
  unfolding overwrite_rows
  any-changes-updated [] = refl
  any-changes-updated (n ∷ ns) =
      ground (arith, any-changes-updated ns, eq_refl name, eq_refl type, eq_refl address)

  -- An update that changes a stored row of the tenant succeeds; a read then returns the row that it
  -- returned before with the new name, type and address, and both times set to the clock. The same
  -- update again in the same tick of the clock changes nothing and is answered as if there were no
  -- such method.
  pub update_outcome :
      (db : Db) (n : Notification)
      → (list_notification tenant id db).0 ≡ ok n
      → any changes db.notification_method ≡ true
      → let after = (update_notification now id tenant name type address db).1 in
        ((update_notification now id tenant name type address db).0 ≡ ok tt)
        × ((list_notification tenant id after).0 ≡ ok (overwritten now name type address n))
        × (update_notification now id tenant name type address after ≡ (err does_not_exist, after))
  unfolding update_notification list_notification
  update_outcome db n found changed = (
    ground arith,
    ground (arith, keep-updated db.notification_method),
    ground (arith, any-changes-updated db.notification_method),
  )

module _ (lt : String → String → Bool) (tenant : String) where
  abbrev rows_of : Result (List Notification) → List Notification
  rows_of (ok rows) = rows
  rows_of (err e) = []

  -- A client of the repository that asks for page after page.
  pub list_all : ℕ → String → Db → List Notification
  list_all zero offset db = []
  list_all (suc fuel) offset db =
      turn lt (λ n. n.id) (rows_of (list_notifications lt tenant (some offset) db).0)
        (λ last. list_all fuel last db)

  list_all-follow :
      (fuel : ℕ) (offset : String) (db : Db)
      → list_all fuel offset db
        ≡ follow lt (λ n. n.id) fuel offset (keep (owned tenant) db.notification_method)
  unfolding list_all follow list_notifications
  list_all-follow zero offset db = refl
  list_all-follow (suc fuel) offset db =
      ap (turn lt (λ n. n.id) (rows_of (list_notifications lt tenant (some offset) db).0))
        (fun_ext λ last. list_all-follow fuel last db)

  -- With distinct ids that lie behind the first offset, a client that asks for page after page gets
  -- each notification method of its tenant exactly once and those of no other tenant, in the order
  -- of the ids, if it may ask for more pages than the tenant has methods.
  pub list_all-order_by :
      IsOrder lt
      → (fuel : ℕ) (first : String) (db : Db)
      → DistinctKeys lt (λ n. n.id) (keep (owned tenant) db.notification_method)
      → All (λ n. lt first n.id ≡ true) (keep (owned tenant) db.notification_method)
      → length (keep (owned tenant) db.notification_method) < fuel
      → list_all fuel first db
        ≡ order_by lt (λ n. n.id) (keep (owned tenant) db.notification_method)
  list_all-order_by o fuel first db distinct above enough =
      list_all-follow fuel first db
      ∙ follow-order_by lt (λ n. n.id) o fuel first (keep (owned tenant) db.notification_method)
          distinct above enough
