-- ===== src/Database.antt =====
-- src/database.rs: the tables as the mock storage keeps them, one list or map behind each lock. Each
-- method holds its lock from start to end, so it is one step. UUIDs are numbers, times are instants
-- counted from the earliest one that chrono knows; a method that draws a UUID or reads the clock
-- takes it as an argument. Postgres is the other implementation, which sends SQL to a server.
pub mod Usage
pub mod Mappings
pub mod Tracking
pub mod Listing
pub mod Connection
pub mod Recent
pub mod Postgres
pub mod Implementation
use saimiris_gateway.Prelude.{
  ℕ, String, Bool, true, false, not, ◌&&◌, Option, none, List, [], Result, ok,
}
use saimiris_gateway.Prelude.Int.{ℤ, pos}
use saimiris_gateway.Prelude.Map.{Map}

pub record ProbeUsageRecord : Type 0 where
  pub id : ℕ
  pub user_hash : String
  pub probe_count : ℤ
  pub timestamp : ℕ

pub record UserUsageStats : Type 0 where
  pub user_hash : String
  pub submission_count : ℕ
  pub total_probes : ℕ
  pub limit : ℕ
  pub last_submitted : Option ℕ

pub record UserLimit : Type 0 where
  pub id : ℕ
  pub user_hash : String
  pub probe_limit : ℕ
  pub created_at : ℕ
  pub updated_at : ℕ

pub record MeasurementTracking : Type 0 where
  pub id : ℕ
  pub user_hash : String
  pub measurement_id : ℕ
  pub agent_id : String
  pub expected_probes : ℤ
  pub sent_probes : ℤ
  pub is_complete : Bool
  pub cancelled : Bool
  pub created_at : ℕ
  pub updated_at : ℕ

pub record MeasurementStatus : Type 0 where
  pub measurement_id : ℕ
  pub user_hash : String
  pub total_agents : ℕ
  pub total_expected_probes : ℤ
  pub total_sent_probes : ℤ
  pub completed_agents : ℕ
  pub measurement_complete : Bool
  pub measurement_cancelled : Bool
  pub started_at : ℕ
  pub last_updated : ℕ

pub data MeasurementState : Type 0 where
  complete in_progress cancelled : MeasurementState

pub data MeasurementSort : Type 0 where
  started updated : MeasurementSort

pub record MeasurementListFilter : Type 0 where
  pub status : List MeasurementState
  pub since : Option ℕ
  pub until : Option ℕ
  pub agent : Option String
  pub sort : MeasurementSort
  pub reverse : Bool
  pub limit : ℤ

unfoldable pub with_limit : ℤ → MeasurementListFilter
with_limit limit = record {
  status = [];
  since = none;
  until = none;
  agent = none;
  sort = updated;
  reverse = false;
  limit = limit;
}

unfoldable pub measurement_in_state : MeasurementStatus → MeasurementState → Bool
measurement_in_state m complete = m.measurement_complete && not m.measurement_cancelled
measurement_in_state m in_progress = not m.measurement_complete
measurement_in_state m cancelled = m.measurement_cancelled

pub record MockStorage : Type 0 where
  pub records : List ProbeUsageRecord
  pub user_limits : List UserLimit
  pub user_id_mappings : Map ℕ
  pub measurement_tracking : List MeasurementTracking

abbrev pub new_storage : MockStorage
new_storage = record {
  records = [];
  user_limits = [];
  user_id_mappings = [];
  measurement_tracking = [];
}
