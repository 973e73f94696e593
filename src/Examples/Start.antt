-- ===== src/Examples/Start.antt =====
-- The start of the gateway, its clean-up and its database target at concrete inputs.
use saimiris_gateway.Prelude.{ℕ, String, false, Option, none, some, List, [], ◌≡◌, refl, ok, codes}
use saimiris_gateway.Kafka.{KafkaConfig, sasl_plain_text, client_config, create_producer}
use saimiris_gateway.Main.{
  Cli, Platform, Gateway, app_state, kafka_auth, kafka_config, main, described_metrics, set_metrics,
}
use saimiris_gateway.Main.Configured.{Authenticates, main-Authenticates}
use saimiris_gateway.Database.Connection.{PgConnectOptions}
use saimiris_gateway.Database.Connection.Target.{IsTarget, connect_options-IsTarget}

abbrev cli : Cli
cli = record {
  address = "0.0.0.0:8080";
  agent_key = "key";
  kafka_brokers = "localhost:9092";
  kafka_topic = "probes";
  kafka_auth_protocol = "SASL_PLAINTEXT";
  kafka_sasl_username = some "gateway";
  kafka_sasl_password = some "pass";
  kafka_sasl_mechanism = "SCRAM-SHA-512";
  auth0_jwks_uri = none;
  auth0_issuer = none;
  bypass_jwt = false;
  database_url = "postgresql://localhost/saimiris_gateway";
  metrics_address = "0.0.0.0:9090";
}

abbrev platform : Platform String ℕ String String String
platform = record {
  set_tracing = ok tt;
  install_exporter = λ addr. ok tt;
  parse_addr = λ s. some s;
  create = λ settings. ok 1;
  connect = λ url. ok url;
  initialize = λ database. ok tt;
  bind = λ addr. ok addr;
}

abbrev config : KafkaConfig
config = record {
  brokers = "localhost:9092";
  topic = "probes";
  auth =
      sasl_plain_text
        (record { username = "gateway"; password = "pass"; mechanism = "SCRAM-SHA-512" });
}

abbrev gateway : Gateway ℕ String String
gateway = record {
  agent_store = record { agents = [] };
  state = app_state cli;
  metrics = described_metrics;
  config = config;
  producer = 1;
  database = "postgresql://localhost/saimiris_gateway";
  listener = "0.0.0.0:8080";
}

starts : main platform cli ≡ ok gateway
unfolding main set_metrics kafka_config kafka_auth create_producer
starts = refl

main-Authenticates_example :
    Authenticates cli config
    × (platform.create (client_config config) ≡ ok 1)
    × (platform.connect cli.database_url ≡ ok "postgresql://localhost/saimiris_gateway")
    × (platform.initialize "postgresql://localhost/saimiris_gateway" ≡ ok tt)
    × (gateway.state ≡ app_state cli)
    × ((a : String) × (platform.parse_addr cli.metrics_address ≡ some a)
        × (platform.install_exporter a ≡ ok tt))
    × ((a : String) × (platform.parse_addr cli.address ≡ some a)
        × (platform.bind a ≡ ok "0.0.0.0:8080"))
main-Authenticates_example = main-Authenticates platform cli gateway starts

-- Options that keep what was parsed: the host, the port and the database.
abbrev pg : PgConnectOptions (List ℕ × (ℕ × Option (List ℕ))) String
pg = record {
  parse = λ url. ok (codes "[2001:db8::1]", (5432, some (codes "db")));
  get_host = λ o. o.0;
  get_port = λ o. o.1.0;
  get_database = λ o. o.1.1;
  host = λ h o. (h, o.1);
  get_host-host = λ h o. refl;
  get_port-host = λ h o. refl;
  get_database-host = λ h o. refl;
}

connect_options-IsTarget_example :
    (o : List ℕ × (ℕ × Option (List ℕ))) × IsTarget pg "postgresql://[2001:db8::1]:5432/db"
      (codes "[2001:db8::1]", (5432, some (codes "db")))
      o
connect_options-IsTarget_example =
    connect_options-IsTarget pg "postgresql://[2001:db8::1]:5432/db"
      (codes "[2001:db8::1]", (5432, some (codes "db"))) refl
