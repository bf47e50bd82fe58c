-- ===== src/Kafka/Connection.antt =====
-- The connection of monasca/common/kafka_conn.py, which sends and also consumes, as a state machine.
-- The kafka client library is a parameter: E is its world, C a client, S a consumer and P a producer
-- of it, and M a message that is read. Waiting is left out.
pub mod Codes
use monasca_api.Prelude.{
  ◌≡◌, ℕ, zero, suc, Bool, true, false, String, List, [], ◌∷◌, ◌++◌, map, Option, none, some, seq,
  ◌||◌, ◌&&◌, if◌then◌else◌,
}
use monasca_api.Errors.{Exec, Exn, Result, ok, err, python}
use monasca_api.Errors.Steps.{after}
use monasca_api.Json.{Json, Items, arr, nil, cons}
use monasca_api.Kafka.{is_kafka_error}

-- The calls of the library, each of which may raise. `messages` is the loop over a consumer: what it
-- gives before it ends or raises.
pub record Calls (E C S P M : Type 0) : Type 0 where
  pub open_client : Exec E C
  pub close_client : C → Exec E (Unit {0})
  pub new_consumer : Option C → Exec E S
  pub new_producer : Option C → Exec E P
  pub commit : S → Exec E (Unit {0})
  pub send_messages : P → String → Exec E (Unit {0})
  pub messages : S → E → List M × (Result (Unit {0}) × E)

-- the attributes that change, and the world of the library
pub record Connection (E C S P : Type 0) : Type 0 where
  pub client : Option C
  pub consumer : Option S
  pub producer : Option P
  pub library : E

-- the attributes of the configuration
pub record Settings : Type 0 where
  pub max_retry : ℕ
  pub auto_commit : Bool
  pub compact : Bool
  pub drop_data : Bool

module _ {E C S P M : Type 0} (kafka : Calls E C S P M) where
  -- one attempt of `_init_client`: whether the loop breaks, and the state
  abbrev connected : Connection E C S P → Result C × E → Bool × Connection E C S P
  connected s (ok c, e) =
      (true, record { client = some c; consumer = none; producer = none; library = e })
  connected s (err x, e) = (false, record s { library = e })

  abbrev connect_after : Connection E C S P → Result (Unit {0}) × E → Bool × Connection E C S P
  connect_after s (ok u, e) = connected s (kafka.open_client e)
  connect_after s (err x, e) = (false, record s { library = e })

  abbrev pub connect : Connection E C S P → Option C → Bool × Connection E C S P
  connect s none = connected s (kafka.open_client s.library)
  connect s (some c) = connect_after s (kafka.close_client c s.library)

  -- `for i in range(self.max_retry)`
  unfoldable pub connect_retrying : ℕ → Connection E C S P → Connection E C S P
  connect_retrying zero s = s
  connect_retrying (suc n) s = elim (connect s s.client).0 [
    | true ↦ (connect s s.client).1
    | false ↦ connect_retrying n (connect s s.client).1
  ]

  -- `if not self._client: self._init_client()`
  abbrev pub with_client : ℕ → Connection E C S P → Option C → Connection E C S P
  with_client max_retry s none = connect_retrying max_retry s
  with_client max_retry s (some c) = s

  abbrev consumer_made : Connection E C S P → Result S × E → Connection E C S P
  consumer_made s (ok c, e) = record s { consumer = some c; library = e }
  consumer_made s (err x, e) = record s { consumer = none; library = e }

  abbrev make_consumer : Connection E C S P → Connection E C S P
  make_consumer s = consumer_made s (kafka.new_consumer s.client s.library)

  -- `_init_consumer`
  unfoldable pub init_consumer : ℕ → Connection E C S P → Connection E C S P
  unfolding connect_retrying
  init_consumer max_retry s = make_consumer (with_client max_retry s s.client)

  abbrev producer_made : Connection E C S P → Result P × E → Connection E C S P
  producer_made s (ok p, e) = record s { producer = some p; library = e }
  producer_made s (err x, e) = record s { producer = none; library = e }

  abbrev produce : Connection E C S P → Connection E C S P
  produce s = producer_made s (kafka.new_producer s.client s.library)

  -- `_init_producer`
  unfoldable pub open_producer : ℕ → Connection E C S P → Connection E C S P
  unfolding connect_retrying
  open_producer max_retry s = produce (with_client max_retry s s.client)

  abbrev in_library :
      Connection E C S P → Exec E (Unit {0}) → Result (Unit {0}) × Connection E C S P
  in_library s call = let (r, e) = call s.library in (r, record s { library = e })

  abbrev commit_of : Bool → Connection E C S P → Option S → Result (Unit {0}) × Connection E C S P
  commit_of auto_commit s none = (ok tt, s)
  commit_of auto_commit s (some c) =
      if auto_commit then in_library s (kafka.commit c) else (ok tt, s)

  -- `commit`
  unfoldable pub commit_offsets : Settings → Exec (Connection E C S P) (Unit {0})
  commit_offsets settings s = commit_of settings.auto_commit s s.consumer

  abbrev close_of : Connection E C S P → Option C → Result (Unit {0}) × Connection E C S P
  close_of s none = (ok tt, s)
  close_of s (some c) =
      in_library (record s { consumer = none; producer = none }) (kafka.close_client c)

  -- `close`
  unfoldable pub close_connection : Exec (Connection E C S P) (Unit {0})
  close_connection s = close_of s s.client

  abbrev with_consumer : ℕ → Connection E C S P → Option S → Connection E C S P
  with_consumer max_retry s none = init_consumer max_retry s
  with_consumer max_retry s (some c) = s

  -- What the generator gives up to its end: when something raises, a last `None`.
  abbrev read_all :
      Connection E C S P → List M × (Result (Unit {0}) × E) → List (Option M) × Connection E C S P
  read_all s (read, (ok u, e)) = (map some read, record s { library = e })
  read_all s (read, (err x, e)) =
      (map some read ++ none ∷ [], record s { consumer = none; library = e })

  abbrev read_from : Connection E C S P → Option S → List (Option M) × Connection E C S P
  read_from s none = (none ∷ [], record s { consumer = none })
  read_from s (some c) = read_all s (kafka.messages c s.library)

  abbrev read_ready : Connection E C S P → List (Option M) × Connection E C S P
  read_ready s = read_from s s.consumer

  -- `get_messages`, run to its end
  unfoldable pub get_messages : Settings → Connection E C S P → List (Option M) × Connection E C S P
  unfolding init_consumer
  get_messages settings s = read_ready (with_consumer settings.max_retry s s.consumer)

  abbrev pub with_producer_open : ℕ → Connection E C S P → Option P → Connection E C S P
  with_producer_open max_retry s none = open_producer max_retry s
  with_producer_open max_retry s (some p) = s

  -- `self._producer.send_messages(...)`; without a producer it is a call of `None`
  abbrev pub send_one : Option P → String → Exec E (Unit {0})
  send_one none message e = (err (python "AttributeError"), e)
  send_one (some p) message e = kafka.send_messages p message e

  module _ (dumps : Json → String) where
    -- `for item in data`
    unfoldable pub send_items : Option P → Items → Exec E (Unit {0})
    send_items producer nil e = (ok tt, e)
    send_items producer (cons item items) e =
        after (λ u. send_items producer items) (send_one producer (dumps item) e)

    abbrev pub send_data : Option P → String → Option Json → Exec E (Unit {0})
    send_data producer messages none e = (err (python "ValueError"), e)
    send_data producer messages (some (arr items)) e = send_items producer items e
    send_data producer messages (some data_) e = send_one producer messages e

    -- the statements between the start of the sending and the code 204
    unfoldable pub send_payload :
        (String → Option Json) → Settings → Option P → String → Exec E (Unit {0})
    unfolding send_items
    send_payload loads settings producer messages e =
        if settings.compact
        then send_one producer messages e
        else send_data producer messages (loads messages) e

    -- The code of an outcome; a Kafka error drops the client.
    abbrev pub code_of : Connection E C S P → Result (Unit {0}) × E → ℕ × Connection E C S P
    code_of s (ok u, e) = (204, record s { library = e })
    code_of s (err (python name), e) =
        if is_kafka_error (python name)
        then (503, record s { client = none; library = e })
        else if seq name "ValueError"
        then (406, record s { library = e })
        else (500, record s { library = e })
    code_of s (err x, e) = (500, record s { library = e })

    abbrev pub send_ready :
        (String → Option Json) → Settings → String → Connection E C S P → ℕ × Connection E C S P
    send_ready loads settings messages s =
        code_of s (send_payload loads settings s.producer messages s.library)

    -- `send_messages`
    unfoldable pub send_all :
        (String → Option Json) → Settings → String → Connection E C S P → ℕ × Connection E C S P
    unfolding open_producer send_payload
    send_all loads settings messages s =
        if seq messages "" || settings.drop_data
        then (204, s)
        else send_ready loads settings messages (with_producer_open settings.max_retry s s.producer)
