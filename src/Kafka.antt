-- ===== src/Kafka.antt =====
-- The publisher of monasca/common/messaging/kafka_publisher.py as a state machine. The kafka client
-- library is a parameter: E is its world, C a client and P a producer of it. Waiting is left out.
pub mod Sending
pub mod Connection
use monasca_api.Prelude.{
  ◌≡◌, ℕ, zero, suc, Bool, true, false, String, Option, none, some, seq, ◌||◌, if◌then◌else◌,
}
use monasca_api.Errors.{Exec, Exn, Result, ok, err, python, message_queue}

-- the calls of the library, each of which may raise
pub record Library (E C P : Type 0) : Type 0 where
  pub open_client : Exec E C
  pub close_client : C → Exec E (Unit {0})
  pub new_producer : Option C → Exec E P
  pub send_messages : P → String → Exec E (Unit {0})

-- the attributes `_client` and `_producer`, and the world of the library
pub record State (E C P : Type 0) : Type 0 where
  pub client : Option C
  pub producer : Option P
  pub library : E

-- `KafkaUnavailableError` or `LeaderNotAvailableError`
abbrev pub is_kafka_error : Exn → Bool
is_kafka_error (python name) =
    seq name "KafkaUnavailableError" || seq name "LeaderNotAvailableError"
is_kafka_error _ = false

module _ {E C P : Type 0} (kafka : Library E C P) where
  -- one attempt of `_init_client`: whether the loop breaks, and the state
  abbrev pub opened : State E C P → Result C × E → Bool × State E C P
  opened s (ok c, e) = (true, record { client = some c; producer = none; library = e })
  opened s (err x, e) = (false, record s { library = e })

  abbrev pub open_after : State E C P → Result (Unit {0}) × E → Bool × State E C P
  open_after s (ok u, e) = opened s (kafka.open_client e)
  open_after s (err x, e) = (false, record s { library = e })

  abbrev pub closed_first : State E C P → Option C → Bool × State E C P
  closed_first s none = opened s (kafka.open_client s.library)
  closed_first s (some c) = open_after s (kafka.close_client c s.library)

  abbrev pub attempt : State E C P → Bool × State E C P
  attempt s = closed_first s s.client

  -- `for i in range(self.max_retry)`
  unfoldable pub init_client : ℕ → State E C P → State E C P
  init_client zero s = s
  init_client (suc n) s = elim (attempt s).0 [
    | true ↦ (attempt s).1
    | false ↦ init_client n (attempt s).1
  ]

  abbrev pub with_producer : State E C P → Result P × E → State E C P
  with_producer s (ok p, e) = record s { producer = some p; library = e }
  with_producer s (err x, e) = record s { producer = none; library = e }

  abbrev pub make_producer : State E C P → State E C P
  make_producer s = with_producer s (kafka.new_producer s.client s.library)

  abbrev pub client_or_init : ℕ → State E C P → Option C → State E C P
  client_or_init max_retry s none = init_client max_retry s
  client_or_init max_retry s (some c) = s

  unfoldable pub init_producer : ℕ → State E C P → State E C P
  unfolding init_client
  init_producer max_retry s = make_producer (client_or_init max_retry s s.client)

  -- What `send_message` makes of the outcome of the sending: any error becomes a
  -- `MessageQueueException`, and a Kafka error drops the client first.
  abbrev pub concluded : State E C P → Result (Unit {0}) × E → Result (Unit {0}) × State E C P
  concluded s (ok u, e) = (ok tt, record s { library = e })
  concluded s (err x, e) =
      if is_kafka_error x
      then (err message_queue, record s { client = none; library = e })
      else (err message_queue, record s { library = e })

  -- `None.send_messages` raises
  abbrev pub sent_by : String → State E C P → Option P → Result (Unit {0}) × State E C P
  sent_by message s none = concluded s (err (python "AttributeError"), s.library)
  sent_by message s (some p) = concluded s (kafka.send_messages p message s.library)

  abbrev pub producer_or_init : ℕ → State E C P → Option P → State E C P
  producer_or_init max_retry s none = init_producer max_retry s
  producer_or_init max_retry s (some p) = s

  abbrev pub ready : ℕ → State E C P → State E C P
  ready max_retry s = producer_or_init max_retry s s.producer

  unfoldable pub send_message : ℕ → String → Exec (State E C P) (Unit {0})
  unfolding init_producer
  send_message max_retry message s =
      sent_by message (ready max_retry s) (ready max_retry s).producer

  abbrev close_open : State E C P → Option C → Result (Unit {0}) × State E C P
  close_open s none = (ok tt, s)
  close_open s (some c) =
      let (r, e) = kafka.close_client c s.library in (r, record s { producer = none; library = e })

  unfoldable pub close : Exec (State E C P) (Unit {0})
  close s = close_open s s.client
