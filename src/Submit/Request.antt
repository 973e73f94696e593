-- ===== src/Submit/Request.antt =====
-- What `submit_probes` of src/lib.rs takes, answers, sends and calls: the request and the reply of
-- src/probe.rs, the Kafka messages, and the calls of src/database.rs as an interface.
use saimiris_gateway.Prelude.{ℕ, String, Bool, Option, List, Result}
use saimiris_gateway.Prelude.Int.{ℤ}
use saimiris_gateway.Json.{Value}
use saimiris_gateway.Net.{IpAddr}
use saimiris_gateway.Http.{}
use saimiris_gateway.Probe.Validation.{ValidationError}
use saimiris_gateway.UserId.{UserIdError}

pub record AgentMetadata : Type 0 where
  pub id : String
  pub ip_address : Option IpAddr

pub record SubmitProbesRequest : Type 0 where
  pub metadata : List AgentMetadata
  pub probes : List Value

-- `id` is the measurement id that the reply writes as text.
pub record SubmitProbesResponse : Type 0 where
  pub id : ℕ
  pub probes : ℕ
  pub agents : List AgentMetadata

-- The messages of the error replies, with what they quote.
pub data Reason : Type 0 where
  probe_list_empty : Reason
  validation_failed : ℕ × ValidationError → Reason
  ip_required : String → Reason
  user_id_failed : UserIdError → Reason
  not_in_prefix : IpAddr → Reason
  limit_check_failed : Reason
  limit_exceeded : Reason
  no_healthy_agents : Reason
  probe_data_failed : Reason
  queue_failed : Reason

-- One header of a Kafka message: the agent that it is for and what the agent is told.
pub record Header : Type 0 where
  pub key : String
  pub src_ip : Option IpAddr
  pub measurement_id : ℕ
  pub end_of_measurement : Bool

pub record KafkaMessage : Type 0 where
  pub key : ℕ
  pub payload : List ℕ
  pub headers : List Header

-- The calls of src/database.rs that the handler makes, in a database with states `S`. An error is
-- its text.
pub record Database (S : Type 0) : Type 0 where
  pub get_or_create_user_id : S → String → Result UserIdError ℕ × S
  pub can_user_submit_probes : S → String → ℕ → Result String Bool × S
  pub create_measurement_tracking : S → String → ℕ → String → ℤ → Result String (Unit {0}) × S
  pub record_probe_usage : S → String → ℕ → ℤ → Result String (Unit {0}) × S

pub record World (S : Type 0) : Type 0 where
  pub database : S
  pub sent : List KafkaMessage
