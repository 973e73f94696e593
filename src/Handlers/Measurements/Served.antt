-- ===== src/Handlers/Measurements/Served.antt =====
-- The handlers over the tracking rows, on Postgres and on the database in memory.
pub mod Calls
use saimiris_gateway.Prelude.{
  ℕ, String, Option, List, ok, ◌≡◌, refl, ap, ◌∙◌, Bool-cases, Option-cases, inl, inr,
}
use saimiris_gateway.Database.{MeasurementTracking, MockStorage, ProbeUsageRecord}
use saimiris_gateway.Database.Tracking.{
  cancel_measurement, get_measurement_tracking_by_agent, get_measurement_status,
}
use saimiris_gateway.Database.Postgres.{timestamptz, Tables, SqlxError}
use saimiris_gateway.Database.Postgres.Rows.{update_cancelled}
use saimiris_gateway.Database.Postgres.Statuses.Arrangement.{Arranged}
use saimiris_gateway.Database.Postgres.Keys.{Keyed, cancel_rows-update_where}
use saimiris_gateway.Database.Postgres.Refinement.{storage_of}
use saimiris_gateway.Handlers.Measurements.{
  mock, UpdateMeasurementStatusRequest, cancel_measurement_handler, update_measurement_status,
}
use saimiris_gateway.Handlers.Measurements.Served.Calls.{
  postgres, OneRow, as_storage, conclude, conclude-as_storage, by_agent_lem, update_lem, status_lem,
}

module _ (scan : List MeasurementTracking → List MeasurementTracking)
    (scans : (rs : List MeasurementTracking) → Arranged rs (scan rs)) (text : SqlxError → String)
    (no_rows : text SqlxError.row_not_found
      ≡ "no rows returned by a query that expected to return at least one row")
    (now : ℕ) (records : List ProbeUsageRecord) where
  module _ (parse_str : String → Option ℕ) (hash_user_identifier : String → String)
      (others : Tables → Tables) (followed : MockStorage → MockStorage)
      (follows : (t : Tables)
        → followed (storage_of records t) ≡ storage_of records (others t)) where
    -- On Postgres with each statement answered, and in memory with the time of the call in whole
    -- microseconds: a request to cancel a measurement is answered alike, and leaves tables that stand for the storage that it leaves in memory, while
    -- the other requests in between do so too.
    pub cancel_measurement_handler-as_storage :
        (sub measurement_id : String) (t : Tables)
        → cancel_measurement_handler
            (mock (timestamptz now))
            parse_str
            hash_user_identifier
            followed
            sub
            measurement_id
            (storage_of records t)
          ≡ as_storage records (
              cancel_measurement_handler
                (postgres scan text now)
                parse_str
                hash_user_identifier
                others
                sub
                measurement_id
                t)
    unfolding cancel_measurement_handler update_cancelled cancel_measurement
    cancel_measurement_handler-as_storage sub measurement_id t =
        elim (Option-cases (parse_str measurement_id)) [
          | inl no_id ↦ rw (no_id, cancel_measurement_handler) refl
          | inr (m, id) ↦
              let u = hash_user_identifier sub in
              rw (id, cancel_measurement_handler)
                (elim (Option-cases (get_measurement_status (storage_of records t) m u)) [
                  | inl missing ↦
                      rw
                        (
                          status_lem scan scans text no_rows now records t m u ∙ ap ok missing,
                          missing,
                        )
                        refl
                  | inr (st, found) ↦
                      rw (status_lem scan scans text no_rows now records t m u ∙ ap ok found, found)
                        (elim (Bool-cases st.measurement_complete) [
                          | inl done ↦ rw done refl
                          | inr running ↦ rw (running, follows t, cancel_rows-update_where) refl
                        ])
                ])
        ]

    -- On Postgres with each statement answered, and in memory with the time of the call in whole
    -- microseconds: a report of an agent with at most one row of each measurement is answered alike, and leaves tables that stand for the storage that it
    -- leaves in memory, while the other requests in between do so too and leave the table keyed.
    pub update_measurement_status-as_storage :
        (agent_id measurement_id : String) (request : UpdateMeasurementStatusRequest) (t : Tables)
        → OneRow agent_id t
        → Keyed (others t).measurement_tracking
        → update_measurement_status
            (mock (timestamptz now))
            parse_str
            hash_user_identifier
            followed
            agent_id
            measurement_id
            request
            (storage_of records t)
          ≡ as_storage records (
              update_measurement_status
                (postgres scan text now)
                parse_str
                hash_user_identifier
                others
                agent_id
                measurement_id
                request
                t)
    unfolding update_measurement_status
    update_measurement_status-as_storage agent_id measurement_id request t one keyed =
        elim (Option-cases (parse_str measurement_id)) [
          | inl no_id ↦ rw (no_id, update_measurement_status) refl
          | inr (m, id) ↦
              rw (id, update_measurement_status)
                (elim (Option-cases
                  (get_measurement_tracking_by_agent (storage_of records t) m agent_id)) [
                    | inl missing ↦
                        rw
                          (
                            by_agent_lem scan scans text no_rows now records t m agent_id one
                                ∙ ap ok missing,
                            missing,
                          )
                          refl
                    | inr (r, found) ↦
                        rw
                          (
                            by_agent_lem scan scans text no_rows now records t m agent_id one
                                ∙ ap ok found,
                            found,
                          )
                          (ap
                              (λ (s : MockStorage). conclude agent_id measurement_id (
                                (mock (timestamptz now)).update_probe_count s m r.user_hash agent_id
                                  request.sent_probes request.is_complete))
                              (follows t)
                            ∙ ap (conclude agent_id measurement_id) (
                                update_lem scan scans text no_rows now records (others t) m
                                  r.user_hash agent_id request.sent_probes request.is_complete
                                  keyed)
                            ∙ conclude-as_storage records agent_id measurement_id _ _)
                  ])
        ]
