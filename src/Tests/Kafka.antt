-- ===== src/Tests/Kafka.antt =====
-- A library that refuses a client as often as its world says, and takes no message.
use monasca_api.Prelude.{◌≡◌, refl, ℕ, zero, suc, arith, String, none, some}
use monasca_api.Errors.{Result, ok, err, python}
use monasca_api.Kafka.{Library, State, init_client, send_message, ready}
use monasca_api.Kafka.Sending.{init_client-OpensAfter, SendOutcome, send_message_outcome}

abbrev refuse : ℕ → Result String × ℕ
refuse zero = (ok "client", zero)
refuse (suc n) = (err (python "KafkaUnavailableError"), n)

abbrev library : Library ℕ String String
library = record {
  open_client = refuse;
  close_client = λ c e. (ok tt, e);
  new_producer = λ c e. (err (python "ValueError"), e);
  send_messages = λ p message e. (err (python "KafkaUnavailableError"), e);
}

init_client-OpensAfter_example :
    init_client library 3 (record { client = none; producer = some "p"; library = 2 })
    ≡ record { client = some "client"; producer = none; library = 0 }
init_client-OpensAfter_example =
    init_client-OpensAfter library 2 3 (some "p") 2 0 "client" (omega arith)
      (python "KafkaUnavailableError", 1, refl, (python "KafkaUnavailableError", 0, refl, refl))

abbrev connected : State ℕ String String
connected = record { client = some "client"; producer = some "p"; library = 2 }

send_message_outcome_example :
    SendOutcome library 3 "m" (ready library 3 connected) (send_message library 3 "m" connected)
send_message_outcome_example = send_message_outcome library 3 "m" connected
