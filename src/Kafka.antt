-- ===== src/Kafka.antt =====
-- src/kafka.rs: the settings of the producer and the sending of one message. The client library's
-- configuration and its producer are parameters.
use saimiris_gateway.Prelude.{ℕ, String, Option, List, [], ◌∷◌, Result, ok, err}

pub record SaslAuth : Type 0 where
  pub username : String
  pub password : String
  pub mechanism : String

pub data KafkaAuth : Type 0 where
  sasl_plain_text : SaslAuth → KafkaAuth
  plain_text : KafkaAuth

pub record KafkaConfig : Type 0 where
  pub brokers : String
  pub topic : String
  pub auth : KafkaAuth

unfoldable pub default_config : KafkaConfig
default_config = record { brokers = "localhost:9092"; topic = "probes"; auth = plain_text }

-- A call `set(name, value)`.
abbrev pub Setting : Type 0
Setting = String × String

abbrev pub auth_settings : KafkaAuth → List Setting
auth_settings plain_text = []
auth_settings (sasl_plain_text sasl_auth) =
    ("sasl.username", sasl_auth.username)
    ∷ ("sasl.password", sasl_auth.password)
    ∷ ("sasl.mechanisms", sasl_auth.mechanism)
    ∷ ("security.protocol", "SASL_PLAINTEXT")
    ∷ []

-- The calls in their order.
unfoldable pub client_config : KafkaConfig → List Setting
client_config config =
    ("bootstrap.servers", config.brokers)
    ∷ ("message.timeout.ms", "5000")
    ∷ auth_settings config.auth

-- `ClientConfig::create`
unfoldable pub create_producer :
    {Producer E : Type 0} → (List Setting → Result E Producer) → KafkaConfig → Result E Producer
create_producer create config = create (client_config config)

pub record FutureRecord (Headers : Type 0) : Type 0 where
  pub topic : String
  pub payload : List ℕ
  pub key : String
  pub headers : Option Headers

-- A delivery has a partition and an offset; an error comes with the message.
abbrev pub Delivery : Type 0 → Type 0 → Type 0
Delivery E Owned = Result (E × Owned) (ℕ × ℕ)

abbrev pub delivery_result : {E Owned : Type 0} → Delivery E Owned → Result E (Unit {0})
delivery_result (ok _) = ok tt
delivery_result (err (e, _)) = err e

-- `producer.send`, with no wait for room in the queue, changes what was sent.
module _ {W E Owned Headers : Type 0} (send : FutureRecord Headers → W → Delivery E Owned × W) where
  unfoldable pub send_to_kafka :
      String → String → List ℕ → Option Headers → W → Result E (Unit {0}) × W
  send_to_kafka topic key payload headers w =
      let (delivery_status, w') =
        send (record { topic = topic; payload = payload; key = key; headers = headers }) w in
      (delivery_result delivery_status, w')
