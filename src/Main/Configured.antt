-- ===== src/Main/Configured.antt =====
-- What a gateway that has started is configured with.
use saimiris_gateway.Prelude.{
  String, true, false, Option, List, none, some, ◌≡◌, refl, sym, ◌∙◌, ◌⊎◌, inl, inr, arith, Result,
  ok, err, ok_or, ◌>>=◌, >>=-eq-ok, Bool-cases, str_eq, eq_iff,
}
use saimiris_gateway.Prelude.Map.{lookup}
use saimiris_gateway.Agent.{new_store}
use saimiris_gateway.Kafka.{
  SaslAuth, KafkaAuth, sasl_plain_text, plain_text, KafkaConfig, client_config, create_producer,
}
use saimiris_gateway.Main.{
  Cli, StartError, Metric, set_metrics, panicked, or_error, kafka_auth, kafka_config, app_state,
  Platform, Gateway, main, username_required, password_required,
}

ok_or_ok : {F A : Type 0} (o : Option A) (e : F) (a : A) → ok_or o e ≡ ok a → o ≡ some a
ok_or_ok (some b) e a h = cc
ok_or_ok none e a h = absurd cc

or_error_ok :
    {E A : Type 0} (f : E → StartError E) (r : Result E A) (a : A) → or_error f r ≡ ok a → r ≡ ok a
or_error_ok f (ok b) a h = cc
or_error_ok f (err e) a h = absurd cc

ok_same : {F A : Type 0} (a b : A) → ◌≡◌ {A = Result F A} (ok a) (ok b) → a ≡ b
ok_same a b h = cc

-- The settings have no credentials and no protocol of their own, or the protocol and the credentials
-- of the command line.
abbrev pub Authenticates : Cli → KafkaConfig → Type 0
Authenticates cli config =
    ((cli.kafka_auth_protocol ≡ "PLAINTEXT")
      × (lookup "security.protocol" (client_config config) ≡ none)
      × (lookup "sasl.password" (client_config config) ≡ none))
    ⊎ ((cli.kafka_auth_protocol ≡ "SASL_PLAINTEXT")
        × (lookup "security.protocol" (client_config config) ≡ some "SASL_PLAINTEXT")
        × (lookup "sasl.username" (client_config config) ≡ cli.kafka_sasl_username)
        × (lookup "sasl.password" (client_config config) ≡ cli.kafka_sasl_password)
        × (lookup "sasl.mechanisms" (client_config config) ≡ some cli.kafka_sasl_mechanism))

abbrev sasl : Cli → String → String → SaslAuth
sasl cli username password = record {
  username = username;
  password = password;
  mechanism = cli.kafka_sasl_mechanism;
}

module _ {E : Type 0} where
  credentials :
      (cli : Cli) (auth : KafkaAuth)
      → kafka_auth {E = E} cli ≡ ok auth
      → str_eq cli.kafka_auth_protocol "PLAINTEXT" ≡ false
      → str_eq cli.kafka_auth_protocol "SASL_PLAINTEXT" ≡ true
      → (ok_or {E = StartError E} cli.kafka_sasl_username username_required >>= λ username.
          ok_or cli.kafka_sasl_password password_required >>= λ password.
          ok (sasl_plain_text (sasl cli username password)))
        ≡ ok auth
  unfolding kafka_auth
  credentials cli auth h no_plain e = sym (rw (no_plain, e) refl) ∙ h

  kafka_auth-Authenticates :
      (cli : Cli) (auth : KafkaAuth)
      → kafka_auth {E = E} cli ≡ ok auth
      → Authenticates cli
          (record { brokers = cli.kafka_brokers; topic = cli.kafka_topic; auth = auth })
  unfolding kafka_auth client_config lookup
  kafka_auth-Authenticates cli auth h =
      elim (Bool-cases (str_eq cli.kafka_auth_protocol "PLAINTEXT")) [
        | inl e ↦
            let same : plain_text ≡ auth = ground arith in
            rw (sym same) (inl ((eq_iff cli.kafka_auth_protocol "PLAINTEXT").0 e, refl, refl))
        | inr no_plain ↦ elim (Bool-cases (str_eq cli.kafka_auth_protocol "SASL_PLAINTEXT")) [
          | inl e ↦
              let (username, h1, k1) =
                >>=-eq-ok (ok_or cli.kafka_sasl_username username_required) _
                  (credentials cli auth h no_plain e) in
              let (password, h2, k2) =
                >>=-eq-ok (ok_or cli.kafka_sasl_password password_required) _ k1 in
              let same : sasl_plain_text (sasl cli username password) ≡ auth = cc in
              rw (sym same) (
                inr (
                  (eq_iff cli.kafka_auth_protocol "SASL_PLAINTEXT").0 e,
                  refl,
                  sym (ok_or_ok cli.kafka_sasl_username _ username h1),
                  sym (ok_or_ok cli.kafka_sasl_password _ password h2),
                  refl,
                ))
          | inr no_sasl ↦ absurd (ground arith)
        ]
      ]

module _ {Addr Producer Database Listener E : Type 0}
    (platform : Platform Addr Producer Database Listener E) where
  abbrev made :
      Cli
      → KafkaConfig
      → List Metric
      → Producer
      → Database
      → Listener
      → Gateway Producer Database Listener
  made cli config metrics producer database listener = record {
    agent_store = new_store;
    state = app_state cli;
    metrics = metrics;
    config = config;
    producer = producer;
    database = database;
    listener = listener;
  }

  configured :
      (cli : Cli) (auth : KafkaAuth) (config : KafkaConfig)
      → ◌≡◌ {A = Result (StartError E) KafkaConfig}
          (ok (record { brokers = cli.kafka_brokers; topic = cli.kafka_topic; auth = auth }))
          (ok config)
      → record { brokers = cli.kafka_brokers; topic = cli.kafka_topic; auth = auth } ≡ config
  configured cli auth config h = cc

  -- A gateway that starts has a producer made with the protocol and the credentials of the command
  -- line, of which both are there if the protocol asks for them, a database that was connected to and
  -- whose migrations ran, and an exporter of its metrics and a listener at the addresses that the
  -- command line's parse to.
  pub main-Authenticates :
      (cli : Cli) (g : Gateway Producer Database Listener)
      → main platform cli ≡ ok g
      → Authenticates cli g.config
        × (platform.create (client_config g.config) ≡ ok g.producer)
        × (platform.connect cli.database_url ≡ ok g.database)
        × (platform.initialize g.database ≡ ok tt)
        × (g.state ≡ app_state cli)
        × ((a : Addr) × (platform.parse_addr cli.metrics_address ≡ some a)
            × (platform.install_exporter a ≡ ok tt))
        × ((a : Addr) × (platform.parse_addr cli.address ≡ some a)
            × (platform.bind a ≡ ok g.listener))
  unfolding main set_metrics create_producer kafka_config
  main-Authenticates cli g h =
      let (_, _, k0) = >>=-eq-ok (or_error _ platform.set_tracing) _ h in
      let (metrics_addr, h1, k1) =
        >>=-eq-ok (ok_or (platform.parse_addr cli.metrics_address) _) _ k0 in
      let (metrics, m1, m2) = >>=-eq-ok (set_metrics platform.install_exporter metrics_addr) _ k1 in
      let (_, m3, _) =
        >>=-eq-ok (or_error panicked (platform.install_exporter metrics_addr)) _ m1 in
      let (config, h2, k2) = >>=-eq-ok (kafka_config cli) _ m2 in
      let (producer, h3, k3) =
        >>=-eq-ok (or_error _ (create_producer platform.create config)) _ k2 in
      let (database, h4, k4) = >>=-eq-ok (or_error _ (platform.connect cli.database_url)) _ k3 in
      let (u, h5, k5) = >>=-eq-ok (or_error _ (platform.initialize database)) _ k4 in
      let (addr, h6, k6) = >>=-eq-ok (ok_or (platform.parse_addr cli.address) _) _ k5 in
      let (listener, h7, k7) = >>=-eq-ok (or_error _ (platform.bind addr)) _ k6 in
      let (auth, h8, k8) = >>=-eq-ok (kafka_auth cli) _ h2 in
      let same : made cli config metrics producer database listener ≡ g = ok_same _ g k7 in
      rw (sym same) (
        rw (sym (configured cli auth config k8)) (kafka_auth-Authenticates cli auth h8),
        or_error_ok _ _ producer h3,
        or_error_ok _ _ database h4,
        or_error_ok _ _ tt h5,
        refl,
        (metrics_addr, ok_or_ok _ _ metrics_addr h1, or_error_ok _ _ tt m3),
        (addr, ok_or_ok _ _ addr h6, or_error_ok _ _ listener h7),
      )
