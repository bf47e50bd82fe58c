-- ===== src/Kafka/Connection/Codes.antt =====
-- Which code a sending answers, and what it leaves behind.
use monasca_api.Prelude.{
  ◌≡◌, refl, ℕ, Bool, true, false, String, Option, none, seq, ◌||◌, ◌⊎◌, inl, inr, Bool-cases,
}
use monasca_api.Errors.{
  Result, ok, err, Exn, python, http, does_not_exist, already_exists, repository, repository_text,
  message_queue, validation,
}
use monasca_api.Json.{Json}
use monasca_api.Kafka.{is_kafka_error}
use monasca_api.Kafka.Connection.{
  Calls, Connection, Settings, with_producer_open, send_payload, code_of, send_all,
}

module _ {E C S P M : Type 0} (kafka : Calls E C S P M) (dumps : Json → String) where
  module _ (s : Connection E C S P) where
    -- an outcome of the sending, with the code and the connection
    abbrev pub HasCode : Result (Unit {0}) × E → ℕ × Connection E C S P → Type 0
    HasCode r answer =
        (r.0 ≡ ok tt) × (answer ≡ (204, record s { library = r.1 }))
        ⊎ (x : Exn) × (r.0 ≡ err x)
          × ((is_kafka_error x ≡ true) × (answer ≡ (503, record s { client = none; library = r.1 }))
              ⊎ (is_kafka_error x ≡ false)
                × ((answer ≡ (406, record s { library = r.1 }))
                    ⊎ (answer ≡ (500, record s { library = r.1 }))))

    other_code :
        (e : E) (name : String)
        → (b : Bool) → seq name "ValueError" ≡ b
        → is_kafka_error (python name) ≡ false
        → HasCode (err (python name), e) (code_of kafka dumps s (err (python name), e))
    other_code e name true v k = inr (python name, refl, inr (k, inl (rw (k, v) refl)))
    other_code e name false v k = inr (python name, refl, inr (k, inr (rw (k, v) refl)))

    named_code :
        (e : E) (name : String)
        → HasCode (err (python name), e) (code_of kafka dumps s (err (python name), e))
    named_code e name = elim (Bool-cases (is_kafka_error (python name))) [
      | inl k ↦ inr (python name, refl, inl (k, rw k refl))
      | inr k ↦ other_code e name (seq name "ValueError") refl k
    ]

    has_code : (r : Result (Unit {0}) × E) → HasCode r (code_of kafka dumps s r)
    has_code (ok tt, e) = inl (refl, refl)
    has_code (err (python name), e) = named_code e name
    has_code (err (http t title d), e) = inr (http t title d, refl, inr (refl, inr refl))
    has_code (err does_not_exist, e) = inr (does_not_exist, refl, inr (refl, inr refl))
    has_code (err (already_exists m), e) = inr (already_exists m, refl, inr (refl, inr refl))
    has_code (err (repository x), e) = inr (repository x, refl, inr (refl, inr refl))
    has_code (err (repository_text m), e) = inr (repository_text m, refl, inr (refl, inr refl))
    has_code (err message_queue, e) = inr (message_queue, refl, inr (refl, inr refl))
    has_code (err (validation m), e) = inr (validation m, refl, inr (refl, inr refl))

  abbrev pub ready : Settings → Connection E C S P → Connection E C S P
  ready settings s = with_producer_open kafka settings.max_retry s s.producer

  -- A sending of some messages never raises. It answers 204 if the sending of the payload
  -- returned, 503 after a Kafka error, which drops the client and keeps the producer, and 406 or
  -- 500 after any other error, which changes nothing but the library.
  pub send_all_outcome :
      (loads : String → Option Json) (settings : Settings) (messages : String)
      (s : Connection E C S P)
      → (seq messages "" || settings.drop_data) ≡ false
      → HasCode
          (ready settings s)
          (send_payload kafka dumps loads settings
            (ready settings s).producer
            messages
            (ready settings s).library)
          (send_all kafka dumps loads settings messages s)
  unfolding send_all
  send_all_outcome loads settings messages s h = rw h (
      has_code (ready settings s) (
        send_payload kafka dumps loads settings (ready settings s).producer messages
          (ready settings s).library))
