-- ===== src/Kafka/Sending.antt =====
-- When the publisher connects, and what a sending returns or raises.
use monasca_api.Prelude.{
  ◌≡◌, refl, ◌∙◌, ap, ℕ, zero, suc, ◌<◌, Bool, true, false, String, Option, none, some, arith, ◌⊎◌,
  inl, inr,
}
use monasca_api.Errors.{Exn, Result, ok, err, message_queue}
use monasca_api.Kafka.{
  Library, State, is_kafka_error, opened, init_client, concluded, sent_by, ready, send_message,
}

module _ {E C P : Type 0} (kafka : Library E C P) where
  -- The library refuses a client that many times and then gives one.
  abbrev pub OpensAfter : ℕ → E → C → E → Type 0
  OpensAfter zero e c e' = kafka.open_client e ≡ (ok c, e')
  OpensAfter (suc k) e c e' =
      (x : Exn) × (e1 : E) × (kafka.open_client e ≡ (err x, e1)) × OpensAfter k e1 c e'

  abbrev next_step : ℕ → Bool × State E C P → State E C P
  next_step n r = elim r.0 [ true ↦ r.1 | false ↦ init_client kafka n r.1 ]

  abbrev unconnected : Option P → E → State E C P
  unconnected p e = record { client = none; producer = p; library = e }

  init_client_step :
      (n : ℕ) (p : Option P) (e : E) (r : Result C × E)
      → kafka.open_client e ≡ r
      → init_client kafka (suc n) (unconnected p e) ≡ next_step n (opened kafka (unconnected p e) r)
  unfolding init_client
  init_client_step n p e r h = ap (λ q. next_step n (opened kafka (unconnected p e) q)) h

  -- Without a client, the publisher connects if the library gives one after fewer refusals than there
  -- are attempts; it then has that client, and no producer.
  pub init_client-OpensAfter :
      (k max_retry : ℕ) (p : Option P) (e e' : E) (c : C)
      → k < max_retry
      → OpensAfter k e c e'
      → init_client kafka max_retry (record { client = none; producer = p; library = e })
        ≡ record { client = some c; producer = none; library = e' }
  init_client-OpensAfter k zero p e e' c lt h = absurd (omega arith)
  init_client-OpensAfter zero (suc n) p e e' c lt h = init_client_step n p e (ok c, e') h
  init_client-OpensAfter (suc k) (suc n) p e e' c lt (x, e1, refused, h) =
      init_client_step n p e (err x, e1) refused
      ∙ init_client-OpensAfter k n p e1 e' c (omega arith) h

  -- The library has taken the message from a producer; it raised a Kafka error; or there was no
  -- producer, or it raised another error.
  abbrev pub Taken : String → State E C P → State E C P → Type 0
  Taken message t t' =
      (p : P) × (t.producer ≡ some p)
      × ((kafka.send_messages p message t.library).0 ≡ ok tt)
      × (t'.client ≡ t.client)

  abbrev pub Dropped : ℕ → String → State E C P → State E C P → Type 0
  Dropped max_retry message t t' =
      (p : P) × (x : Exn) × (t.producer ≡ some p)
      × ((kafka.send_messages p message t.library).0 ≡ err x)
      × (is_kafka_error x ≡ true)
      × (t'.client ≡ none)
      × (ready kafka max_retry t' ≡ t')

  abbrev pub Unsent : String → Option P → E → Type 0
  Unsent message none e = Unit {0}
  Unsent message (some p) e =
      (x : Exn) × ((kafka.send_messages p message e).0 ≡ err x) × (is_kafka_error x ≡ false)

  abbrev pub SendOutcome : ℕ → String → State E C P → Result (Unit {0}) × State E C P → Type 0
  SendOutcome max_retry message t sent =
      ((sent.0 ≡ ok tt) × Taken message t sent.1)
      ⊎ (((sent.0 ≡ err message_queue) × Dropped max_retry message t sent.1)
          ⊎ ((sent.0 ≡ err message_queue)
              × Unsent message t.producer t.library
              × (sent.1.client ≡ t.client)
              × (sent.1.producer ≡ t.producer)))

  module _ (max_retry : ℕ) (message : String) where
    raised :
        (c : Option C) (p : P) (e : E) (x : Exn) (e' : E) (b : Bool)
        → (kafka.send_messages p message e).0 ≡ err x
        → is_kafka_error x ≡ b
        → let t : State E C P = record { client = c; producer = some p; library = e } in
          SendOutcome max_retry message t (concluded kafka t (err x, e'))
    raised c p e x e' true h k = rw k (inr (inl (refl, (p, x, refl, h, k, refl, refl))))
    raised c p e x e' false h k = rw k (inr (inr (refl, (x, h, k), refl, refl)))

    given_outcome :
        (c : Option C) (p : P) (e : E) (r : Result (Unit {0}) × E)
        → kafka.send_messages p message e ≡ r
        → let t : State E C P = record { client = c; producer = some p; library = e } in
          SendOutcome max_retry message t (concluded kafka t r)
    given_outcome c p e (ok u, e') h = inl (refl, (p, refl, ap (λ r. r.0) h, refl))
    given_outcome c p e (err x, e') h = raised c p e x e' (is_kafka_error x) (ap (λ r. r.0) h) refl

    sent_by-SendOutcome :
        (c : Option C) (o : Option P) (e : E)
        → let t : State E C P = record { client = c; producer = o; library = e } in
          SendOutcome max_retry message t (sent_by kafka message t o)
    sent_by-SendOutcome c none e = inr (inr (refl, tt, refl, refl))
    sent_by-SendOutcome c (some p) e = given_outcome c p e (kafka.send_messages p message e) refl

  -- Once a producer has been sought, sending returns just if there is one and the library takes the
  -- message from it, and then keeps the client. Otherwise it raises `MessageQueueException`: after a
  -- Kafka error the client is dropped but the producer stays, so that the next message goes to that
  -- producer without a connection being made; without a producer, and after any other error, the
  -- client and the producer stay.
  pub send_message_outcome :
      (max_retry : ℕ) (message : String) (s : State E C P)
      → SendOutcome max_retry message
          (ready kafka max_retry s)
          (send_message kafka max_retry message s)
  unfolding send_message
  send_message_outcome max_retry message s =
      let t = ready kafka max_retry s in
      sent_by-SendOutcome max_retry message t.client t.producer t.library
