-- ===== src/Notifications/Resource/Answers.antt =====
-- What a client is answered when it creates and deletes a notification method.
use monasca_api.Prelude.{
  ◌≡◌, refl, ap, ◌∙◌, ℕ, Bool, true, false, ◌&&◌, String, List, [], ◌∷◌, seq, any, arith,
  Bool-cases, inl, inr, ◌⊎◌, some, upper,
}
use monasca_api.Errors.{
  Exn, Result, ok, err, http, internal_server_error, exception, python, conflict, not_found, text,
  no_description, does_not_exist, resource_error, map_err, ◌>>=◌, resource_try_catch_block,
}
use monasca_api.Http.{Uri}
use monasca_api.Paging.{Linked}
use monasca_api.Json.{Json, Fields, str, obj, find}
use monasca_api.Influx.Quoting.{is_ascii}
use monasca_api.Database.{Db, Notification}
use monasca_api.Notifications.{
  named, identified, new_row, create_notification, list_notification, delete_notification,
}
use monasca_api.Notifications.Repository.{list-create, create_taken, delete_outcome}
use monasca_api.Notifications.Resource.{
  NotificationBody, decoded, read_body, post_notification, get_notification, remove_notification,
  notification_result, notification_response, NotificationResult, given_value, then_return,
}

-- the answers that a client sees as 404 and 409
abbrev pub missing {ℓ} : {A : Type ℓ} → Result A
missing = err (http not_found "" no_description)

abbrev pub taken {ℓ} : {A : Type ℓ} → Result A
taken = err (http conflict "AlreadyExistsException" (text "Notification already exists"))

-- a read through the resource, from one of the repository
read_answer :
    (tenant id : String) (uri : Uri) (db : Db) (n : Notification)
    → list_notification tenant id db ≡ (ok n, db)
    → get_notification tenant id uri db ≡ (ok (notification_result uri n), db)
unfolding get_notification resource_try_catch_block
read_answer tenant id uri db n e =
    ap (λ r. (map_err resource_error (r.0 >>= λ a. ok (notification_result uri a)), r.1)) e

read_missing :
    (tenant id : String) (uri : Uri) (db : Db)
    → list_notification tenant id db ≡ (err does_not_exist, db)
    → get_notification tenant id uri db ≡ (missing, db)
unfolding get_notification resource_try_catch_block resource_error
read_missing tenant id uri db e =
    ap (λ r. (map_err resource_error (r.0 >>= λ a. ok (notification_result uri a)), r.1)) e

module _ (now : ℕ) (id tenant : String) (msg : Json) (body : NotificationBody) (uri : Uri)
    (db : Db) where
  abbrev posted : Db
  posted = (post_notification now tenant id msg uri db).1

  abbrev row_created : Result String × Db
  row_created = create_notification now id tenant body.name body.type body.address db

  abbrev answer : Result String × Db → Result (Linked NotificationResult) × Db
  answer r = (map_err resource_error (r.0 >>= λ i. ok (notification_response uri i body)), r.1)

  refused_body :
      (e : Exn)
      → read_body msg ≡ err e
      → post_notification now tenant id msg uri db ≡ (err (resource_error e), db)
  unfolding post_notification resource_try_catch_block
  refused_body e read =
      ap
        (λ r.
          let (x, s) =
            given_value r
              (λ b.
                then_return (λ i. notification_response uri i b)
                  (create_notification now id tenant b.name b.type b.address))
              db in
          (map_err resource_error x, s))
        read

  post_notification-create :
      read_body msg ≡ ok body → post_notification now tenant id msg uri db ≡ answer row_created
  unfolding post_notification resource_try_catch_block
  post_notification-create read =
      ap
        (λ r.
          let (x, s) =
            given_value r
              (λ b.
                then_return (λ i. notification_response uri i b)
                  (create_notification now id tenant b.name b.type b.address))
              db in
          (map_err resource_error x, s))
        read

  create_free : any (named tenant body.name) db.notification_method ≡ false → row_created.0 ≡ ok id
  unfolding create_notification
  create_free free = ground arith

  -- the answer to a body that was read
  abbrev pub Answered : Type 0
  Answered =
      ((any (named tenant body.name) db.notification_method ≡ false)
        × ((post_notification now tenant id msg uri db).0 ≡ ok (notification_response uri id body))
        × (get_notification tenant id uri posted ≡ (
          ok (notification_result uri (new_row now id tenant body.name body.type body.address)),
          posted,
        )))
      ⊎ ((any (named tenant body.name) db.notification_method ≡ true)
          × (post_notification now tenant id msg uri db ≡ (taken, db)))

  body_answered :
      read_body msg ≡ ok body → any (identified tenant id) db.notification_method ≡ false → Answered
  body_answered read fresh =
      elim (Bool-cases (any (named tenant body.name) db.notification_method)) [
        | inl there ↦ inr (
          there,
          post_notification-create read
              ∙ ap answer (create_taken now id tenant body.name body.type body.address db there)
              ∙ unfold resource_error in refl,
        )
        | inr free ↦ inl (
          free,
          ap (λ r. r.0) (post_notification-create read)
              ∙ ap (λ r. map_err resource_error (r >>= λ i. ok (notification_response uri i body)))
                  (create_free free),
          rw (ap (λ r. r.1) (post_notification-create read)) (
              read_answer tenant id uri row_created.1
                (new_row now id tenant body.name body.type body.address)
                (list-create now id tenant body.name body.type body.address db free fresh)),
        )
      ]

abbrev body_of : String → String → String → NotificationBody
body_of name type address = record { name = name; type = upper type; address = address }

-- the answer to a text that cannot be decoded
abbrev pub undecodable {ℓ} : {A : Type ℓ} → Result A
undecodable =
    err (http internal_server_error "Service unavailable" (exception (python "UnicodeEncodeError")))

module _ (name type address : String) where
  abbrev pub all_ascii : Bool
  all_ascii = is_ascii name && (is_ascii (upper type) && is_ascii address)

  -- what the reading of the three texts is
  abbrev three_decoded : Result NotificationBody
  three_decoded = decoded name >>= λ n. decoded (upper type) >>= λ t.
      decoded address >>= λ a. ok (record { name = n; type = t; address = a })

  decoded_all : all_ascii ≡ true → three_decoded ≡ ok (body_of name type address)
  decoded_all h = ground arith

  decoded_not : all_ascii ≡ false → three_decoded ≡ err (python "UnicodeEncodeError")
  decoded_not h = ground arith

  read_three :
      (fields : Fields)
      → find "name" fields ≡ some (str name)
      → find "type" fields ≡ some (str type)
      → find "address" fields ≡ some (str address)
      → read_body (obj fields) ≡ three_decoded
  unfolding read_body
  read_three fields n t a = rw (n, t, a)

new_to_tenant :
    (tenant id : String) (rows : List Notification)
    → any (λ n. seq n.id id) rows ≡ false
    → any (identified tenant id) rows ≡ false
new_to_tenant tenant id [] h = refl
new_to_tenant tenant id (n ∷ rows) h = ground (arith, new_to_tenant tenant id rows)

-- A request to create a method, with a name, a type and an address, under an id that is new: if
-- one of the three texts has a character outside ASCII, the answer is 500 and nothing is stored;
-- otherwise, if the tenant has a method of the name, it is 409 and nothing is stored; otherwise it is
-- the method that was stored, with its type in upper case, and a read of the id then answers that.
pub post_outcome :
    (now : ℕ) (id tenant : String) (fields : Fields) (name type address : String) (uri : Uri)
    → (db : Db) → find "name" fields ≡ some (str name)
    → find "type" fields ≡ some (str type)
    → find "address" fields ≡ some (str address)
    → any (λ n. seq n.id id) db.notification_method ≡ false
    → ((all_ascii name type address ≡ false)
        × (post_notification now tenant id (obj fields) uri db ≡ (undecodable, db)))
      ⊎ ((all_ascii name type address ≡ true)
          × Answered now id tenant (obj fields) (body_of name type address) uri db)
post_outcome now id tenant fields name type address uri db n t a unused =
    let fresh = new_to_tenant tenant id db.notification_method unused in
    let read = read_three name type address fields n t a in
    let body = body_of name type address in
    elim (Bool-cases (all_ascii name type address)) [
      | inl plain ↦ inr (
        plain,
        body_answered now id tenant (obj fields) body uri db
            (read ∙ decoded_all name type address plain) fresh,
      )
      | inr other ↦ inl (
        other,
        refused_body now id tenant (obj fields) body uri db (python "UnicodeEncodeError")
              (read ∙ decoded_not name type address other)
            ∙ unfold resource_error in refl,
      )
    ]

-- A request to delete a method that is stored succeeds, and afterwards a read and a second deletion of
-- the id are answered by 404; without such a method it is answered by 404 and changes nothing.
pub remove_outcome :
    (tenant id : String) (uri : Uri) (db : Db)
    → let after = (remove_notification tenant id db).1 in
      ((any (identified tenant id) db.notification_method ≡ true)
        × ((remove_notification tenant id db).0 ≡ ok tt)
        × (get_notification tenant id uri after ≡ (missing, after))
        × (remove_notification tenant id after ≡ (missing, after)))
      ⊎ ((any (identified tenant id) db.notification_method ≡ false)
          × (remove_notification tenant id db ≡ (missing, db)))
unfolding remove_notification resource_try_catch_block
remove_outcome tenant id uri db = elim (delete_outcome tenant id db) [
  | inl (there, done, gone, again) ↦ inl (
    there,
    ap (map_err resource_error) done,
    read_missing tenant id uri (delete_notification tenant id db).1 gone,
    ap (λ r. (map_err resource_error r.0, r.1)) again ∙ unfold resource_error in refl,
  )
  | inr (absent, refused) ↦
      inr (
        absent,
        ap (λ r. (map_err resource_error r.0, r.1)) refused ∙ unfold resource_error in refl,
      )
]
