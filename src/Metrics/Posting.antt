-- ===== src/Metrics/Posting.antt =====
-- What a post of metrics sends.
use monasca_api.Prelude.{
  ◌≡◌, ◌∙◌, refl, ap, sym, Bool, true, false, String, List, Option, none, some, seq, ◌⊎◌, inl, inr,
  if◌then◌else◌,
}
use monasca_api.Errors.{Exn, Result, ok, err}
use monasca_api.Errors.Outcomes.{returned_steps, checked_step}
use monasca_api.Errors.Steps.{after}
use monasca_api.Http.{Request, validate_json_content_type, validate_authorization}
use monasca_api.Http.Query.{bad}
use monasca_api.Formats.{metrics_transform}
use monasca_api.Json.{Json, read_json_msg_body}
use monasca_api.Metrics.{
  Sender, is_body, validate_metrics, send_metrics, transformed, do_post_metrics,
}

read_of :
    (loads : String → Option Json) (body : String) (metrics : Json)
    → read_json_msg_body loads body ≡ ok metrics
    → loads body ≡ some metrics
unfolding read_json_msg_body
read_of loads body metrics h = read (loads body) h
  where
    read :
        (found : Option Json)
        → (elim found [ none ↦ err (bad "Request body is not valid JSON") | some msg ↦ ok msg ])
          ≡ ok metrics
        → found ≡ some metrics
    read none h = absurd (cc)
    read (some msg) h = let same : msg ≡ metrics = cc in ap some same

chosen-ok :
    {A : Type 0} (b : Bool) (e : Exn) (r : Result A) (a : A)
    → (if b then err e else r) ≡ ok a
    → (b ≡ false) × (r ≡ ok a)
chosen-ok true e r a h = absurd (cc)
chosen-ok false e r a h = (refl, h)

abbrev refused : Bool → Result (Unit {0})
refused b = if b then ok tt else err (bad "The metrics do not follow the schema")

valid_of :
    (other_kind : String → Option Bool) (metrics : Json)
    → validate_metrics other_kind metrics ≡ ok tt
    → is_body other_kind metrics ≡ true
unfolding validate_metrics
valid_of other_kind metrics h = valid (is_body other_kind metrics) h
  where
    valid : (b : Bool) → refused b ≡ ok tt → b ≡ true
    valid true h = refl
    valid false h = absurd (cc)

unchanged_of :
    (format : String) (metrics sent : Json)
    → metrics_transform format metrics ≡ ok sent
    → (seq format "reference" ≡ false) × (seq format "cadf" ≡ false) × (metrics ≡ sent)
unfolding metrics_transform
unchanged_of format metrics sent h =
    let (p, rest) = chosen-ok (seq format "reference") _ _ sent h in
    let (q, same) = chosen-ok (seq format "cadf") _ (ok metrics) sent rest in
    let equal : metrics ≡ sent = cc in (p, q, equal)

module _ {Q : Type 0} (send_message : Sender Q) (loads : String → Option Json)
    (other_kind : String → Option Bool) (post_roles : List String) (format : String) (req : Request)
    (body : String) (q : Q) where
  abbrev posted : Result (Unit {0}) × Q
  posted = do_post_metrics send_message loads other_kind post_roles format req body q

  -- a post that raises before anything is sent
  abbrev pub NothingSent : Type 0
  NothingSent = (e : Exn) × (posted ≡ (err e, q))

  -- The body is sent, as it was read.
  abbrev pub BodySent : Type 0
  BodySent =
      (metrics : Json) × (loads body ≡ some metrics)
      × (is_body other_kind metrics ≡ true)
      × (seq format "reference" ≡ false)
      × (seq format "cadf" ≡ false)
      × (posted ≡ send_metrics send_message metrics q)

  abbrev before : Result Json
  before = transformed loads other_kind post_roles format req body

  body_sent : (sent : Json) → before ≡ ok sent → BodySent
  unfolding transformed do_post_metrics
  body_sent sent h =
      let (c, h1) = checked_step (validate_json_content_type req) _ sent h in
      let (a, h2) = checked_step (validate_authorization req post_roles) _ sent h1 in
      let (metrics, r, h3) = returned_steps (read_json_msg_body loads body) _ h2 in
      let (v, h4) = checked_step (validate_metrics other_kind metrics) _ sent h3 in
      let (p, c', same) = unchanged_of format metrics sent h4 in
      (
        metrics,
        read_of loads body metrics r,
        valid_of other_kind metrics v,
        p,
        c',
        ap (λ t. after (send_metrics send_message) (t, q)) h
            ∙ ap (λ m. send_metrics send_message m q) (sym same),
      )

  settled : (r : Result Json) → before ≡ r → NothingSent ⊎ BodySent
  unfolding do_post_metrics
  settled (err e) h = inl (e, ap (λ t. after (send_metrics send_message) (t, q)) h)
  settled (ok sent) h = inr (body_sent sent h)

  -- Either the post raises and nothing is sent, or the body follows the schema and is sent as it was
  -- read; with the format "reference" or "cadf" a post always raises.
  pub do_post_metrics_outcome : NothingSent ⊎ BodySent
  do_post_metrics_outcome = settled before refl
