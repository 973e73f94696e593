-- ===== src/Handlers/Measurements.antt =====
-- src/lib.rs: the handlers over the tracking rows of a measurement. The database is an interface;
-- `mock` is the one of src/database.rs in memory, whose calls do not fail and run at a given time.
-- The parser of UUIDs is a parameter. Errors are answered with a status code and a message.
pub mod Outcomes
pub mod Served
use saimiris_gateway.Prelude.{
  ℕ, zero, suc, String, Bool, true, false, Option, none, some, List, [], map, if◌then◌else◌, Result,
  ok, err,
}
use saimiris_gateway.Prelude.Int.{ℤ}
use saimiris_gateway.Http.{
  Failure, responds, Handler, bad_request, not_found, internal_server_error,
}
use saimiris_gateway.Database.{MeasurementTracking, MeasurementStatus, MockStorage}
use saimiris_gateway.Database.Tracking.{
  SqlError, row_not_found, get_measurement_status, get_measurement_tracking,
  get_measurement_tracking_by_agent, update_measurement_probe_count, cancel_measurement,
}

pub record Measurements (S : Type 0) : Type 0 where
  pub get_status : S → ℕ → String → Result String (Option MeasurementStatus)
  pub get_tracking : S → ℕ → String → Result String (List MeasurementTracking)
  pub get_tracking_by_agent : S → ℕ → String → Result String (Option MeasurementTracking)
  pub update_probe_count :
      S → ℕ → String → String → ℤ → Bool → Result String MeasurementTracking × S
  pub cancel : S → ℕ → String → Result String ℕ × S

abbrev pub sql_result : Result SqlError MeasurementTracking → Result String MeasurementTracking
sql_result (ok r) = ok r
sql_result (err row_not_found) =
    err "no rows returned by a query that expected to return at least one row"

abbrev pub mock : ℕ → Measurements MockStorage
mock now = record {
  get_status = λ s m u. ok (get_measurement_status s m u);
  get_tracking = λ s m u. ok (get_measurement_tracking s m u);
  get_tracking_by_agent = λ s m a. ok (get_measurement_tracking_by_agent s m a);
  update_probe_count = λ s m u a sent complete. (
    sql_result (update_measurement_probe_count s m u a sent complete now).0,
    (update_measurement_probe_count s m u a sent complete now).1,
  );
  cancel = λ s m u. (ok (cancel_measurement s m u now).0, (cancel_measurement s m u now).1);
}

pub record AgentDetail : Type 0 where
  pub agent_id : String
  pub expected_probes : ℤ
  pub sent_probes : ℤ
  pub is_complete : Bool
  pub cancelled : Bool
  pub updated_at : ℕ

abbrev pub agent_detail : MeasurementTracking → AgentDetail
agent_detail t = record {
  agent_id = t.agent_id;
  expected_probes = t.expected_probes;
  sent_probes = t.sent_probes;
  is_complete = t.is_complete;
  cancelled = t.cancelled;
  updated_at = t.updated_at;
}

-- The reply copies all of the status but the user's hash.
pub record StatusReply : Type 0 where
  pub status : MeasurementStatus
  pub agents : List AgentDetail

pub record CancelReply : Type 0 where
  pub measurement_id : ℕ
  pub cancelled : Bool
  pub measurement_cancelled : Option Bool
  pub agents_cancelled : ℕ
  pub message : String

pub record UpdateMeasurementStatusRequest : Type 0 where
  pub sent_probes : ℤ
  pub is_complete : Bool

pub record UpdateReply : Type 0 where
  pub measurement_id : String
  pub agent_id : String
  pub sent_probes : ℤ
  pub is_complete : Bool
  pub updated_at : ℕ

abbrev pub or_empty : Result String (List MeasurementTracking) → List MeasurementTracking
or_empty (ok tracking) = tracking
or_empty (err _) = []

abbrev pub already_terminal : ℕ → MeasurementStatus → CancelReply
already_terminal measurement_id status = record {
  measurement_id = measurement_id;
  cancelled = false;
  measurement_cancelled = some status.measurement_cancelled;
  agents_cancelled = 0;
  message =
      if status.measurement_cancelled
      then "Measurement already cancelled"
      else "Measurement already complete; nothing to cancel";
}

-- The reply to a cancellation that changed so many rows.
abbrev pub cancel_reply : ℕ → ℕ → CancelReply
cancel_reply measurement_id zero = record {
  measurement_id = measurement_id;
  cancelled = false;
  measurement_cancelled = none;
  agents_cancelled = 0;
  message = "Measurement already terminal; nothing to cancel";
}
cancel_reply measurement_id (suc n) = record {
  measurement_id = measurement_id;
  cancelled = true;
  measurement_cancelled = some true;
  agents_cancelled = suc n;
  message = "Measurement cancelled";
}

module _ {S : Type 0} (db : Measurements S) (parse_str : String → Option ℕ)
    (hash_user_identifier : String → String) (others : S → S) where
  unfoldable pub get_measurement_status_handler : String → String → Handler S String StatusReply
  get_measurement_status_handler sub measurement_id s = elim (parse_str measurement_id) [
    | none ↦ (err (responds bad_request "Invalid measurement ID format"), s)
    | some uuid ↦ elim (db.get_status s uuid (hash_user_identifier sub)) [
      | err _ ↦ (err (responds internal_server_error "Failed to retrieve measurement status"), s)
      | ok none ↦ (err (responds not_found "Measurement not found"), s)
      | ok (some status) ↦ (
        ok (record {
          status = status;
          agents =
              map agent_detail
                (or_empty (db.get_tracking (others s) uuid (hash_user_identifier sub)));
        }),
        others s,
      )
    ]
  ]

  unfoldable pub cancel_measurement_handler : String → String → Handler S String CancelReply
  cancel_measurement_handler sub measurement_id s = elim (parse_str measurement_id) [
    | none ↦ (err (responds bad_request "Invalid measurement ID format"), s)
    | some uuid ↦ elim (db.get_status s uuid (hash_user_identifier sub)) [
      | err _ ↦ (err (responds internal_server_error "Failed to cancel measurement"), s)
      | ok none ↦ (err (responds not_found "Measurement not found"), s)
      | ok (some status) ↦
          if status.measurement_complete
          then (ok (already_terminal uuid status), s)
          else let (result, s') = db.cancel (others s) uuid (hash_user_identifier sub) in
            elim result [
              | ok agents_cancelled ↦ (ok (cancel_reply uuid agents_cancelled), s')
              | err _ ↦ (err (responds internal_server_error "Failed to cancel measurement"), s')
            ]
    ]
  ]

  unfoldable pub update_measurement_status :
      String → String → UpdateMeasurementStatusRequest → Handler S String UpdateReply
  update_measurement_status agent_id measurement_id request s = elim (parse_str measurement_id) [
    | none ↦ (err (responds bad_request "Invalid measurement ID format"), s)
    | some uuid ↦ elim (db.get_tracking_by_agent s uuid agent_id) [
      | err _ ↦ (err (responds internal_server_error "Failed to retrieve measurement tracking"), s)
      | ok none ↦
          (err (responds not_found "Measurement tracking entry not found for this agent"), s)
      | ok (some tracking_entry) ↦
          let (result, s') =
            db.update_probe_count (others s) uuid tracking_entry.user_hash agent_id
              request.sent_probes request.is_complete in
          elim result [
            | ok updated_tracking ↦ (
              ok (record {
                measurement_id = measurement_id;
                agent_id = agent_id;
                sent_probes = updated_tracking.sent_probes;
                is_complete = updated_tracking.is_complete;
                updated_at = updated_tracking.updated_at;
              }),
              s',
            )
            | err _ ↦
                (err (responds internal_server_error "Failed to update measurement status"), s')
          ]
    ]
  ]
