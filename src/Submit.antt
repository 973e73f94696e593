-- ===== src/Submit.antt =====
-- src/lib.rs, `submit_probes`: the handler that turns a request into tracking rows and Kafka
-- messages. The database is an interface, which memory and Postgres fill; the producer's
-- answers are a parameter. Other requests may run between the awaits, so each look at the agent
-- store takes the store of its own time: `checked i` when the address of the i-th agent is checked,
-- `assigned i` when the agent is assigned.
pub mod Request
pub mod Checks
pub mod Messages
pub mod Steps
pub mod Publishing
pub mod Effects
pub mod Charging
pub mod Stored
pub mod Refusals
use saimiris_gateway.Prelude.{
  ℕ, zero, suc, ◌+◌, ◌-◌, ◌*◌, ◌%◌, ◌^◌, String, Bool, true, false, not, ◌||◌, Option, none, some,
  List, [], ◌∷◌, ◌++◌, map, ◌==◌, if◌then◌else◌, length, is_empty, any, Result, ok, err,
}
use saimiris_gateway.Prelude.Int.{ℤ, as_i32}
use saimiris_gateway.Json.{Value}
use saimiris_gateway.Net.{IpAddr, v4, v6}
use saimiris_gateway.Http.{
  Failure, responds, panics, Handler, pure, respond, ◌>>=◌, continue, bad_request, forbidden,
  too_many_requests, internal_server_error,
}
use saimiris_gateway.Agent.{Agent, AgentConfig, HealthStatus, AgentStore, get}
use saimiris_gateway.Prefix.Ipnet.{Ipnet}
use saimiris_gateway.Prefix.{validate_user_ipv6}
use saimiris_gateway.Probe.Wire.{Message}
use saimiris_gateway.Probe.{ProbeError}
use saimiris_gateway.Probe.Validation.{ValidationError, validate_probes}
use saimiris_gateway.Probe.Batch.{Outcome, returned, panicked, deserialize_probes_batch}
use saimiris_gateway.UserId.{UserIdError}
pub use Request.*

-- The first agent without an address ends the request.
unfoldable pub check_addresses : List AgentMetadata → Option (ℕ × Reason)
check_addresses [] = none
check_addresses (agent_meta ∷ metadata) = elim agent_meta.ip_address [
  | none ↦ some (bad_request, ip_required agent_meta.id)
  | some _ ↦ check_addresses metadata
]

abbrev pub is_healthy : Agent → Bool
is_healthy agent = elim agent.health [ some h ↦ h.healthy | none ↦ false ]

-- The agents of the metadata that are registered and healthy, looked up from the i-th on.
unfoldable pub assign_agents : (ℕ → AgentStore) → ℕ → List AgentMetadata → List AgentMetadata
assign_agents assigned i [] = []
assign_agents assigned i (agent_meta ∷ metadata) =
    let rest = assign_agents assigned (i + 1) metadata in
    elim (get (assigned i) agent_meta.id) [
      | none ↦ rest
      | some agent ↦ if is_healthy agent then agent_meta ∷ rest else rest
    ]

module _ (ipnet : Ipnet) where
  abbrev pub allows : ℕ → ℕ → AgentConfig → Bool
  allows ipv6_addr user_id agent_config = elim agent_config.src_ipv6_prefix [
    | some prefix ↦ validate_user_ipv6 ipnet ipv6_addr prefix user_id
    | none ↦ false
  ]

  -- An IPv6 address is checked against the configured prefixes of a known agent. Why the handler
  -- ends here, if it does: a missing address is unwrapped, which panics.
  unfoldable pub check_prefix : AgentStore → ℕ → AgentMetadata → Option (Failure Reason)
  check_prefix store user_id agent_meta = elim agent_meta.ip_address [
    | some (v6 ipv6_addr) ↦ elim (get store agent_meta.id) [
      | none ↦ none
      | some agent ↦ elim agent.config [
        | none ↦ none
        | some config ↦
            if any (allows ipv6_addr user_id) config
            then none
            else some (responds forbidden (not_in_prefix (v6 ipv6_addr)))
      ]
    ]
    | some (v4 _) ↦ none
    | none ↦ some panics
  ]

  unfoldable pub check_prefixes :
      (ℕ → AgentStore) → ℕ → ℕ → List AgentMetadata → Option (Failure Reason)
  check_prefixes checked i user_id [] = none
  check_prefixes checked i user_id (agent_meta ∷ metadata) =
      elim (check_prefix (checked i) user_id agent_meta) [
        | some e ↦ some e
        | none ↦ check_prefixes checked (i + 1) user_id metadata
      ]

abbrev pub header : ℕ → Bool → AgentMetadata → Header
header measurement_id is_last_batch agent_meta = record {
  key = agent_meta.id;
  src_ip = agent_meta.ip_address;
  measurement_id = measurement_id;
  end_of_measurement = is_last_batch;
}

abbrev pub message : ℕ → List AgentMetadata → Bool → List ℕ → KafkaMessage
message measurement_id metadata is_last_batch batch = record {
  key = measurement_id;
  payload = batch;
  headers = map (header measurement_id is_last_batch) metadata;
}

abbrev pub H : Type 0 → Type 0 → Type 0
H S A = Handler (World S) Reason A

module _ {S : Type 0} where
  -- An early return, if there is a reason for one.
  abbrev pub unless : Option (ℕ × Reason) → H S (Unit {0})
  unless none w = (ok tt, w)
  unless (some (status, reason)) w = (err (responds status reason), w)

  abbrev pub end_with : Option (Failure Reason) → H S (Unit {0})
  end_with none w = (ok tt, w)
  end_with (some x) w = (err x, w)

  abbrev pub settle :
      (E A : Type 0) → (E → Reason) → World S → Result E A × S → Result (Failure Reason) A × World S
  settle E A reason w (ok a, s) = (ok a, record w { database = s })
  settle E A reason w (err e, s) =
      (err (responds internal_server_error (reason e)), record w { database = s })

  -- A call of the database; an error ends the handler with a 500.
  abbrev pub or_500 : (E A : Type 0) → (S → Result E A × S) → (E → Reason) → H S A
  or_500 E A call reason w = settle E A reason w (call w.database)

  -- A call of the database whose error is only logged.
  abbrev pub or_log : (S → Result String (Unit {0}) × S) → H S (Unit {0})
  or_log call w = (ok tt, record w { database = (call w.database).1 })

  -- A row for each assigned agent; a failure is logged, and the others follow.
  unfoldable pub track : Database S → String → ℕ → ℤ → List AgentMetadata → H S (Unit {0})
  track db user_hash measurement_id expected [] = pure tt
  track db user_hash measurement_id expected (agent_meta ∷ agents) =
      or_log (λ s. db.create_measurement_tracking s user_hash measurement_id agent_meta.id expected)
      >>= λ _. track db user_hash measurement_id expected agents

  -- The batches from the index on: each is sent with a header for every agent of the request, and
  -- the first that the producer refuses ends the handler.
  unfoldable pub send_batches :
      (ℕ → Option String) → ℕ → List AgentMetadata → ℕ → ℕ → List (List ℕ) → H S (Unit {0})
  send_batches deliver measurement_id metadata total_batches batch_index [] w = (ok tt, w)
  send_batches deliver measurement_id metadata total_batches batch_index (batch ∷ batches) w =
      elim (deliver batch_index) [
        | none ↦
            send_batches deliver measurement_id metadata total_batches (batch_index + 1) batches
              (record w {
                sent =
                    w.sent
                    ++ message measurement_id metadata (batch_index == total_batches - 1) batch
                      ∷ [];
              })
        | some _ ↦ (err (responds internal_server_error queue_failed), w)
      ]

  abbrev pub batches_of : Outcome → H S (List (List ℕ))
  batches_of (returned (ok batches)) w = (ok batches, w)
  batches_of (returned (err e)) w = (err (responds bad_request probe_data_failed), w)
  batches_of panicked w = (err panics, w)

abbrev pub validation : Result (ℕ × ValidationError) (Unit {0}) → Option (ℕ × Reason)
validation (ok _) = none
validation (err e) = some (bad_request, validation_failed e)

abbrev pub when : Bool → ℕ → Reason → Option (ℕ × Reason)
when b status reason = if b then some (status, reason) else none

abbrev pub max_batch_bytes : ℕ
max_batch_bytes = 1_000_000

module _ (ip_from_str : String → Option IpAddr)
    (write_message : Message → Result ProbeError (List ℕ)) (ipnet : Ipnet)
    (hash_user_identifier : String → String) {S : Type 0} (db : Database S)
    (deliver : ℕ → Option String) (checked assigned : ℕ → AgentStore) (measurement_id : ℕ) where
  -- The part after the checks: the batches, the rows, the messages and the reply.
  unfoldable pub dispatch :
      String
      → SubmitProbesRequest
      → List AgentMetadata
      → Handler (World S) Reason SubmitProbesResponse
  dispatch sub request assigned_agents = do
    probe_batches ←
        batches_of
          (deserialize_probes_batch ip_from_str write_message request.probes max_batch_bytes)
    _ ←
        track db (hash_user_identifier sub) measurement_id (as_i32 (length request.probes))
          assigned_agents
    _ ← send_batches deliver measurement_id request.metadata (length probe_batches) 0 probe_batches
    _ ← or_log (λ s.
        db.record_probe_usage s sub measurement_id
          (as_i32 (length request.probes * length assigned_agents)))
    pure (record {
      id = measurement_id;
      probes = length request.probes * length assigned_agents;
      agents = assigned_agents;
    })

  unfoldable pub submit_probes :
      String → SubmitProbesRequest → Handler (World S) Reason SubmitProbesResponse
  submit_probes sub request = do
    _ ← unless (when (is_empty request.probes) bad_request probe_list_empty)
    _ ← unless (validation (validate_probes ip_from_str request.probes))
    _ ← unless (check_addresses request.metadata)
    user_id ← or_500 UserIdError ℕ (λ s. db.get_or_create_user_id s sub) user_id_failed
    _ ← end_with (check_prefixes ipnet checked 0 user_id request.metadata)
    can_submit ←
        or_500 String Bool (λ s. db.can_user_submit_probes s sub (length request.probes % 2 ^ 32))
          (λ _. limit_check_failed)
    _ ← unless (when (not can_submit) too_many_requests limit_exceeded)
    _ ←
        unless (
          when (is_empty (assign_agents assigned 0 request.metadata)) bad_request no_healthy_agents)
    dispatch sub request (assign_agents assigned 0 request.metadata)
