-- ===== src/Main.antt =====
-- src/main.rs: the start of the gateway and its background task. The parsers of addresses, the
-- Kafka client, the database, the exporter of the metrics, the subscriber of the tracing and the
-- listener are parameters; the log lines are left out.
pub mod Configured
pub mod Cleanup
use saimiris_gateway.Prelude.{
  ℕ, zero, suc, ◌*◌, String, Bool, Option, none, some, List, [], ◌∷◌, str_eq, if◌then◌else◌, Result,
  ok, err, ◌>>=◌, ok_or,
}
use saimiris_gateway.Prelude.Int.{ℤ, pos}
use saimiris_gateway.App.{AppState}
use saimiris_gateway.Agent.{AgentStore, new_store, remove_stale_agents}
use saimiris_gateway.Kafka.{
  SaslAuth, KafkaAuth, sasl_plain_text, plain_text, KafkaConfig, create_producer, Setting,
}

-- The arguments of the command line, but for the verbosity.
pub record Cli : Type 0 where
  pub address : String
  pub agent_key : String
  pub kafka_brokers : String
  pub kafka_topic : String
  pub kafka_auth_protocol : String
  pub kafka_sasl_username : Option String
  pub kafka_sasl_password : Option String
  pub kafka_sasl_mechanism : String
  pub auth0_jwks_uri : Option String
  pub auth0_issuer : Option String
  pub bypass_jwt : Bool
  pub database_url : String
  pub metrics_address : String

-- Why the start fails; the errors of the code outside are quoted.
pub data StartError (E : Type 0) : Type 0 where
  invalid_address : String → StartError E
  username_required password_required : StartError E
  invalid_protocol : String → StartError E
  no_tracing : E → StartError E
  panicked : E → StartError E
  no_producer no_database no_migrations no_listener : E → StartError E

abbrev pub or_error : {E A : Type 0} → (E → StartError E) → Result E A → Result (StartError E) A
or_error f (ok a) = ok a
or_error f (err e) = err (f e)

unfoldable pub kafka_auth : {E : Type 0} → Cli → Result (StartError E) KafkaAuth
kafka_auth cli =
    if str_eq cli.kafka_auth_protocol "PLAINTEXT"
    then ok plain_text
    else if str_eq cli.kafka_auth_protocol "SASL_PLAINTEXT"
    then (ok_or cli.kafka_sasl_username username_required >>= λ username.
        ok_or cli.kafka_sasl_password password_required >>= λ password. ok (
          sasl_plain_text (record {
            username = username;
            password = password;
            mechanism = cli.kafka_sasl_mechanism;
          })))
    else err (invalid_protocol cli.kafka_auth_protocol)

unfoldable pub kafka_config : {E : Type 0} → Cli → Result (StartError E) KafkaConfig
kafka_config cli = do
  auth ← kafka_auth cli
  ok (record { brokers = cli.kafka_brokers; topic = cli.kafka_topic; auth = auth })

abbrev pub app_state : Cli → AppState
app_state cli = record {
  agent_key = cli.agent_key;
  auth0_jwks_uri = cli.auth0_jwks_uri;
  auth0_issuer = cli.auth0_issuer;
  bypass_jwt_validation = cli.bypass_jwt;
}

pub data MetricKind : Type 0 where
  counter gauge : MetricKind

pub record Metric : Type 0 where
  pub kind : MetricKind
  pub name : String
  pub description : String

abbrev pub described_metrics : List Metric
described_metrics =
    record {
      kind = counter;
      name = "saimiris_gateway_probes_submitted_total";
      description = "Total number of probes submitted";
    }
    ∷ record {
      kind = counter;
      name = "saimiris_gateway_measurements_created_total";
      description = "Total number of measurements created";
    }
    ∷ record {
      kind = counter;
      name = "saimiris_gateway_agents_registered_total";
      description = "Total number of agent registrations";
    }
    ∷ record {
      kind = counter;
      name = "saimiris_gateway_kafka_errors_total";
      description = "Total number of Kafka send errors";
    }
    ∷ record {
      kind = counter;
      name = "saimiris_gateway_http_requests_total";
      description = "Total number of HTTP requests";
    }
    ∷ record {
      kind = gauge;
      name = "saimiris_gateway_agents_active";
      description = "Number of currently active agents";
    }
    ∷ []

-- `install().expect(..)`, then the descriptions.
unfoldable pub set_metrics :
    {Addr E : Type 0} → (Addr → Result E (Unit {0})) → Addr → Result (StartError E) (List Metric)
set_metrics install metrics_address = do
  _ ← or_error panicked (install metrics_address)
  ok described_metrics

-- What the start asks of the code outside: the subscriber for the verbosity of the command line is
-- set, the exporter of the metrics is installed, an address is parsed, a producer is created, a database is
-- connected to and its migrations run, and a listener is bound.
pub record Platform (Addr Producer Database Listener E : Type 0) : Type 0 where
  pub set_tracing : Result E (Unit {0})
  pub install_exporter : Addr → Result E (Unit {0})
  pub parse_addr : String → Option Addr
  pub create : List Setting → Result E Producer
  pub connect : String → Result E Database
  pub initialize : Database → Result E (Unit {0})
  pub bind : Addr → Result E Listener

pub record Gateway (Producer Database Listener : Type 0) : Type 0 where
  pub agent_store : AgentStore
  pub state : AppState
  pub metrics : List Metric
  pub config : KafkaConfig
  pub producer : Producer
  pub database : Database
  pub listener : Listener

-- What stands at the end is the server that `axum::serve` runs.
module _ {Addr Producer Database Listener E : Type 0}
    (platform : Platform Addr Producer Database Listener E) where
  unfoldable pub main : Cli → Result (StartError E) (Gateway Producer Database Listener)
  main cli = do
    _ ← or_error no_tracing platform.set_tracing
    metrics_addr ←
        ok_or (platform.parse_addr cli.metrics_address) (invalid_address cli.metrics_address)
    metrics ← set_metrics platform.install_exporter metrics_addr
    config ← kafka_config cli
    producer ← or_error no_producer (create_producer platform.create config)
    database ← or_error no_database (platform.connect cli.database_url)
    _ ← or_error no_migrations (platform.initialize database)
    addr ← ok_or (platform.parse_addr cli.address) (invalid_address cli.address)
    listener ← or_error no_listener (platform.bind addr)
    ok (record {
      agent_store = new_store;
      state = app_state cli;
      metrics = metrics;
      config = config;
      producer = producer;
      database = database;
      listener = listener;
    })

-- Ten minutes, in nanoseconds.
abbrev pub cleanup_max_age : ℤ
cleanup_max_age = pos (10 * 60 * 1000000000)

-- One tick of the background task.
unfoldable pub cleanup_tick : AgentStore → ℕ → List String × AgentStore
cleanup_tick s now = remove_stale_agents s cleanup_max_age now
