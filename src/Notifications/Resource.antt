-- ===== src/Notifications/Resource.antt =====
-- The requests about notification methods, monasca/v2/reference/notifications.py and
-- monasca/v2/common/schemas/notifications_request_body_schema.py. `loads` is the JSON parser, and
-- `tenant_id` the header's value, which the authentication in front of the server sets.
pub mod Answers
use monasca_api.Prelude.{
  ◌≡◌, ℕ, Bool, true, false, ◌&&◌, String, List, [], ◌∷◌, map, Option, none, some, listed, upper,
  if◌then◌else◌,
}
use monasca_api.Errors.{
  Exec, Result, ok, err, ◌>>=◌, ◌>>◌, python, map_err, resource_try_catch_block,
}
use monasca_api.Http.{Uri, Request, validate_authorization, validate_json_content_type}
use monasca_api.Http.Query.{bad, get_query_param, normalize_offset}
use monasca_api.Paging.{Linked, Page, add_links_to_resource, paginate}
use monasca_api.Json.{Json, str, obj, Fields, find, keys_within, is_text, required}
use monasca_api.Database.{Db, Notification}
use monasca_api.Influx.Quoting.{is_ascii}
use monasca_api.Notifications.{
  create_notification, update_notification, list_notifications, list_notification,
  delete_notification,
}

pub record NotificationResult : Type 0 where
  pub id : String
  pub name : String
  pub type : String
  pub address : String

-- the body once it is validated
pub record NotificationBody : Type 0 where
  pub name : String
  pub type : String
  pub address : String

abbrev pub is_type : Json → Bool
is_type (str s) = listed ("EMAIL" ∷ "email" ∷ "WEBHOOK" ∷ "webhook" ∷ []) s
is_type _ = false

unfoldable pub is_notification : Json → Bool
unfolding is_text required keys_within
is_notification (obj fs) =
    keys_within ("name" ∷ "type" ∷ "address" ∷ []) fs
    && (required "name" (is_text 250) fs
        && (required "type" is_type fs && required "address" (is_text 100) fs))
is_notification _ = false

-- the text of the schema's own message is left out
unfoldable pub validate_notification : Json → Result (Unit {0})
unfolding is_notification
validate_notification msg = if is_notification msg then ok tt else err (bad "invalid notification")

-- `text.decode('utf8')`: the parser gives a text with other characters than those of ASCII as
-- `unicode`, which Python encodes in ASCII before it decodes it.
abbrev pub decoded : String → Result String
decoded s = if is_ascii s then ok s else err (python "UnicodeEncodeError")

-- `notification[key].decode('utf8')`
abbrev pub text_of : Option Json → Result String
text_of none = err (python "KeyError")
text_of (some (str s)) = decoded s
text_of (some _) = err (python "AttributeError")

-- `notification[key].upper().decode('utf8')`
abbrev pub upper_text_of : Option Json → Result String
upper_text_of none = err (python "KeyError")
upper_text_of (some (str s)) = decoded (upper s)
upper_text_of (some _) = err (python "AttributeError")

unfoldable pub read_body : Json → Result NotificationBody
unfolding find is_ascii upper
read_body (obj fs) = do
  name ← text_of (find "name" fs)
  type ← upper_text_of (find "type" fs)
  address ← text_of (find "address" fs)
  ok (record { name = name; type = type; address = address })
read_body _ = err (python "TypeError")

-- `read_http_resource`
unfoldable pub read_http_resource : (String → Option Json) → String → Result Json
read_http_resource loads body = elim (loads body) [
  | none ↦ err (bad "Request body is not valid JSON")
  | some msg ↦ ok msg
]

unfoldable pub notification_result : Uri → Notification → Linked NotificationResult
unfolding add_links_to_resource
notification_result uri n =
    add_links_to_resource (record { id = n.id; name = n.name; type = n.type; address = n.address })
      n.id uri (some "self")

unfoldable pub notification_response : Uri → String → NotificationBody → Linked NotificationResult
unfolding add_links_to_resource
notification_response uri id body =
    add_links_to_resource
      (record { id = id; name = body.name; type = body.type; address = body.address }) id uri
      (some "self")

-- a method of the repository, and what is made of its value
abbrev pub then_return : {S A B : Type 0} → (A → B) → Exec S A → Exec S B
then_return f method s = let (r, s') = method s in (r >>= λ a. ok (f a), s')

-- a computation of a `Result`, and the method that takes its value
abbrev pub given_value : {S A B : Type 0} → Result A → (A → Exec S B) → Exec S B
given_value (ok a) f s = f a s
given_value (err e) f s = (err e, s)

module _ (now : ℕ) (tenant_id : String) where
  unfoldable pub post_notification : String → Json → Uri → Exec Db (Linked NotificationResult)
  unfolding read_body create_notification notification_response resource_try_catch_block
  post_notification fresh_id notification uri = resource_try_catch_block (
      given_value (read_body notification) λ body.
        then_return (λ id. notification_response uri id body)
          (create_notification now fresh_id tenant_id body.name body.type body.address))

  unfoldable pub put_notification : String → Json → Uri → Exec Db (Linked NotificationResult)
  unfolding read_body update_notification notification_response resource_try_catch_block
  put_notification id notification uri = resource_try_catch_block (
      given_value (read_body notification) λ body.
        then_return (λ u. notification_response uri id body)
          (update_notification now id tenant_id body.name body.type body.address))

unfoldable pub get_notification : String → String → Uri → Exec Db (Linked NotificationResult)
unfolding list_notification notification_result resource_try_catch_block
get_notification tenant_id id uri =
    resource_try_catch_block
      (then_return (notification_result uri) (list_notification tenant_id id))

unfoldable pub remove_notification : String → String → Exec Db (Unit {0})
unfolding delete_notification resource_try_catch_block
remove_notification tenant_id id = resource_try_catch_block (delete_notification tenant_id id)

abbrev pub id_of : Linked NotificationResult → String
id_of r = r.resource.id

abbrev pub listed_page :
    Uri
    → Option String
    → Result (List Notification)
    → Result (Page (List (Linked NotificationResult)))
listed_page uri offset rows = do
  ns ← rows
  paginate id_of (map (notification_result uri) ns) uri offset

unfoldable pub get_notifications :
    (String → String → Bool)
    → String
    → Uri
    → Option String
    → Exec Db (Page (List (Linked NotificationResult)))
unfolding list_notifications notification_result paginate resource_try_catch_block
get_notifications lt tenant_id uri offset = resource_try_catch_block λ db.
    let (rows, db') = list_notifications lt tenant_id offset db in
    (listed_page uri offset rows, db')

-- The handlers: what they check before they call the methods above.
module _ (roles : List String) (req : Request) where
  unfoldable pub checked_body : (String → Option Json) → String → Result Json
  unfolding validate_json_content_type validate_authorization read_http_resource
      validate_notification
  checked_body loads body =
      validate_json_content_type req
      >> (validate_authorization req roles
          >> (read_http_resource loads body >>= λ msg. validate_notification msg >> ok msg))

  unfoldable pub do_post_notification_methods :
      (String → Option Json) → ℕ → String → String → String → Exec Db (Linked NotificationResult)
  unfolding checked_body post_notification
  do_post_notification_methods loads now fresh_id tenant_id body =
      given_value (checked_body loads body)
        λ msg. post_notification now tenant_id fresh_id msg req.uri

  unfoldable pub do_put_notification_methods :
      (String → Option Json) → ℕ → String → String → String → Exec Db (Linked NotificationResult)
  unfolding checked_body put_notification
  do_put_notification_methods loads now id tenant_id body =
      given_value (checked_body loads body) λ msg. put_notification now tenant_id id msg req.uri

  unfoldable pub do_get_notification_method : String → String → Exec Db (Linked NotificationResult)
  unfolding validate_authorization get_notification
  do_get_notification_method tenant_id id =
      given_value (validate_authorization req roles) λ u. get_notification tenant_id id req.uri

  unfoldable pub do_delete_notification_methods : String → String → Exec Db (Unit {0})
  unfolding validate_authorization remove_notification
  do_delete_notification_methods tenant_id id =
      given_value (validate_authorization req roles) λ u. remove_notification tenant_id id

  unfoldable pub do_get_notification_methods :
      (String → String → Bool) → String → Exec Db (Page (List (Linked NotificationResult)))
  unfolding validate_authorization get_query_param normalize_offset get_notifications
  do_get_notification_methods lt tenant_id =
      given_value
        (validate_authorization req roles
          >> (get_query_param req "offset" false none >>= λ offset. ok (normalize_offset offset)))
        λ offset. get_notifications lt tenant_id req.uri offset
