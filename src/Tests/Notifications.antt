-- ===== src/Tests/Notifications.antt =====
-- Two tenants' notification methods.
use monasca_api.Prelude.{
  any, upper, ◌≡◌, refl, ◌⊎◌, true, false, [], ◌∷◌, keep, order_by, arith, differ,
}
use monasca_api.Prelude.Order.Texts.{text_lt, text_lt-IsOrder}
use monasca_api.Errors.{resource_error, ok, err, does_not_exist}
use monasca_api.Database.{Db}
use monasca_api.Notifications.{
  identified, owned, overwritten, update_notification, list_notification,
}
use monasca_api.Json.{Fields, str, obj, field, end, find}
use monasca_api.Influx.Quoting.{is_ascii}
use monasca_api.Notifications.Resource.{post_notification, remove_notification, get_notification}
use monasca_api.Notifications.Resource.Answers.{
  missing, remove_outcome, all_ascii, undecodable, Answered, post_outcome,
}
use monasca_api.Tests.Pages.{uri}
use monasca_api.Notifications.Repository.{create, update, delete, perform_all, perform_all-owned}
use monasca_api.Notifications.Update.{update_outcome, list_all, list_all-order_by}
use monasca_api.Tests.Data.{mail, stored, empty}

perform_all-owned_example :
    keep
      (owned "t")
      (perform_all
        (create 2 "k" "u" "sms" "EMAIL" "c@d"
          ∷ delete "u" "n"
          ∷ update 3 "m" "u" "x" "EMAIL" "e@f"
          ∷ [])
        stored).notification_method
    ≡ keep (owned "t") stored.notification_method
perform_all-owned_example =
    perform_all-owned
      (create 2 "k" "u" "sms" "EMAIL" "c@d"
        ∷ delete "u" "n"
        ∷ update 3 "m" "u" "x" "EMAIL" "e@f"
        ∷ [])
      "t" stored (differ "u" "t" refl, (differ "u" "t" refl, (differ "u" "t" refl, tt)))

update_outcome_example :
    ((update_notification 5 "n" "t" "sms" "EMAIL" "c@d" stored).0 ≡ ok tt)
    × ((list_notification "t" "n" (update_notification 5 "n" "t" "sms" "EMAIL" "c@d" stored).1).0
        ≡ ok (overwritten 5 "sms" "EMAIL" "c@d" (mail "t" "n")))
    × (update_notification 5 "n" "t" "sms" "EMAIL" "c@d"
          (update_notification 5 "n" "t" "sms" "EMAIL" "c@d" stored).1
        ≡ (err does_not_exist, (update_notification 5 "n" "t" "sms" "EMAIL" "c@d" stored).1))
unfolding list_notification
update_outcome_example =
    update_outcome 5 "t" "n" "sms" "EMAIL" "c@d" stored (mail "t" "n") refl refl

abbrev three : Db
three = record empty { notification_method = mail "t" "c" ∷ mail "u" "m" ∷ mail "t" "a" ∷ [] }

list_all-order_by_example :
    list_all text_lt "t" 3 "" three
    ≡ order_by text_lt (λ n. n.id) (keep (owned "t") three.notification_method)
unfolding keep text_lt
list_all-order_by_example =
    list_all-order_by text_lt "t" text_lt-IsOrder 3 "" three ((differ "c" "a" refl, tt), (tt, tt))
      (refl, (refl, tt)) (omega arith)

abbrev request_fields : Fields
request_fields =
    field "name" (str "sms") (field "type" (str "email") (field "address" (str "c@d") end))

post_outcome_example :
    ((all_ascii "sms" "email" "c@d" ≡ false)
      × (post_notification 2 "t" "k" (obj request_fields) uri stored ≡ (undecodable, stored)))
    ⊎ ((all_ascii "sms" "email" "c@d" ≡ true)
        × Answered 2 "k" "t"
            (obj request_fields)
            (record { name = "sms"; type = upper "email"; address = "c@d" })
            uri
            stored)
unfolding find
post_outcome_example =
    post_outcome 2 "k" "t" request_fields "sms" "email" "c@d" uri stored refl refl refl refl

-- a name that is no ASCII text
posted_umlaut :
    post_notification 2 "t" "k"
      (obj
        (field "name" (str "sürum") (field "type" (str "email") (field "address" (str "c@d") end))))
      uri
      stored
    ≡ (undecodable, stored)
unfolding post_notification find is_ascii upper resource_error
posted_umlaut = refl

abbrev after_removal : Db
after_removal = (remove_notification "t" "n" stored).1

remove_outcome_example :
    ((any (identified "t" "n") stored.notification_method ≡ true)
      × ((remove_notification "t" "n" stored).0 ≡ ok tt)
      × (get_notification "t" "n" uri after_removal ≡ (missing, after_removal))
      × (remove_notification "t" "n" after_removal ≡ (missing, after_removal)))
    ⊎ ((any (identified "t" "n") stored.notification_method ≡ false)
        × (remove_notification "t" "n" stored ≡ (missing, stored)))
remove_outcome_example = remove_outcome "t" "n" uri stored
