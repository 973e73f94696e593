-- ===== src/Examples/Rows.antt =====
-- Tracking rows, limits and the handlers over them at concrete inputs.
use saimiris_gateway.Prelude.{
  ℕ, ◌+◌, ◌≤◌, String, true, not, Option, none, some, ◌≡◌, refl, ◌↔◌, arith, str_eq, if◌then◌else◌,
  filter, ok, err,
}
use saimiris_gateway.Prelude.Int.{pos}
use saimiris_gateway.Handlers.Query.{TimeParsers, ListMeasurementsQuery}
use saimiris_gateway.Handlers.Query.Listed.{IsAnswered, list_measurements_handler-IsListed}
use saimiris_gateway.Http.{responds, not_found}
use saimiris_gateway.Database.{MeasurementTracking, MeasurementStatus, MockStorage}
use saimiris_gateway.Database.Usage.{get_user_limit, limit_of, can_user_submit_probes}
use saimiris_gateway.Database.Usage.Quota.{owed, used, can_user_submit_probes_iff}
use saimiris_gateway.Database.Tracking.{
  of_user, report, get_measurement_status, get_measurement_tracking_by_agent,
}
use saimiris_gateway.Database.Tracking.Terminal.{Reflects, get_measurement_status-Reflects}
use saimiris_gateway.Handlers.Measurements.{
  mock, CancelReply, cancel_measurement_handler, UpdateMeasurementStatusRequest, UpdateReply,
  update_measurement_status,
}
use saimiris_gateway.Handlers.Measurements.Outcomes.{
  cancel_measurement_handler-IsComplete, update_measurement_status-recorded,
}
use saimiris_gateway.Database.{MeasurementListFilter, with_limit}
use saimiris_gateway.Examples.Parameters.{storage}

can_user_submit_probes_iff_example :
    (can_user_submit_probes storage "user" 5 none 0 30 ≡ true)
    ↔ (used storage "user" 0 30 + 5 ≤ limit_of (get_user_limit storage "user"))
unfolding owed
can_user_submit_probes_iff_example = can_user_submit_probes_iff storage "user" 5 0 30 (omega arith)

get_measurement_status-Reflects_example :
    Reflects
      (filter (of_user 7 "user") storage.measurement_tracking)
      (get_measurement_status storage 7 "user")
get_measurement_status-Reflects_example = get_measurement_status-Reflects storage 7 "user"

-- The one measurement id that parses.
abbrev parse_str : String → Option ℕ
parse_str s = if str_eq s "7" then some 7 else none

abbrev itself : String → String
itself s = s

cancel_measurement_handler-IsComplete_example :
    (get_measurement_status storage 7 "user" ≡ none
      → cancel_measurement_handler (mock 25) parse_str itself (λ t. t) "user" "7" storage
        ≡ (err (responds not_found "Measurement not found"), storage))
    × ((st : MeasurementStatus)
        → get_measurement_status storage 7 "user" ≡ some st
        → (reply : CancelReply) × (s' : MockStorage) × (st' : MeasurementStatus)
          × (cancel_measurement_handler (mock 25) parse_str itself (λ t. t) "user" "7" storage
              ≡ (ok reply, s'))
          × (get_measurement_status s' 7 "user" ≡ some st')
          × (st'.measurement_complete ≡ true)
          × (reply.cancelled ≡ not st.measurement_complete))
cancel_measurement_handler-IsComplete_example =
    cancel_measurement_handler-IsComplete parse_str itself 25 "user" "7" 7 storage refl

abbrev request : UpdateMeasurementStatusRequest
request = record { sent_probes = pos 3; is_complete = true }

update_measurement_status-recorded_example :
    (get_measurement_tracking_by_agent storage 7 "beta" ≡ none
      → update_measurement_status (mock 25) parse_str itself (λ t. t) "beta" "7" request storage
        ≡ (err (responds not_found "Measurement tracking entry not found for this agent"), storage))
    × ((t : MeasurementTracking)
        → get_measurement_tracking_by_agent storage 7 "beta" ≡ some t
        → (reply : UpdateReply) × (s' : MockStorage) × (update_measurement_status
              (mock 25)
              parse_str
              itself
              (λ t. t)
              "beta"
              "7"
              request
              storage
            ≡ (ok reply, s'))
          × (reply.sent_probes ≡ pos 3)
          × (reply.is_complete ≡ true)
          × (get_measurement_tracking_by_agent s' 7 "beta" ≡ some (report (pos 3) true 25 t)))
update_measurement_status-recorded_example =
    update_measurement_status-recorded parse_str itself 25 "beta" "7" 7 request storage refl

abbrev asked : MeasurementListFilter
asked = record (with_limit (pos 10)) { agent = some "beta"; since = some 5 }

abbrev times : TimeParsers
times = record {
  from_rfc3339 = λ s. none;
  from_date_time = λ s. none;
  from_date = λ s. if str_eq s "1970-01-01" then some 0 else none;
}

abbrev params : ListMeasurementsQuery
params = record {
  limit = some "500";
  status = some "in-progress, complete";
  since = some "1970-01-01";
  until = none;
  agent = some "beta";
  sort = some "started";
  reverse = some "1";
}

list_measurements_handler-IsListed_example :
    IsAnswered times itself (λ gs. gs) (λ P gs. (λ h. h, λ h. h)) "user" params storage
list_measurements_handler-IsListed_example =
    list_measurements_handler-IsListed times itself (λ gs. gs) (λ P gs. (λ h. h, λ h. h)) "user"
      params storage
