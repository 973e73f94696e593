-- ===== src/Handlers/Measurements/Served/Calls.antt =====
-- The calls of the handlers of src/lib.rs over the tracking rows: on Postgres they answer as in memory.
use saimiris_gateway.Prelude.{
  ℕ, ◌≤◌, String, Bool, ◌&&◌, ◌==◌, List, [], ◌∷◌, filter, find, length, str_eq, Result, ok, err,
  ◌≡◌, refl, ap, ◌∙◌, arith,
}
use saimiris_gateway.Prelude.Int.{ℤ}
use saimiris_gateway.Http.{Failure, responds, internal_server_error}
use saimiris_gateway.Database.{MeasurementTracking, MockStorage, ProbeUsageRecord}
use saimiris_gateway.Database.Tracking.{
  report, update_measurement_probe_count, get_measurement_tracking_by_agent,
}
use saimiris_gateway.Database.Postgres.{timestamptz, Tables, SqlxError, answered}
use saimiris_gateway.Database.Postgres.Rows.{
  first_row, update_tracking_row, update_cancelled, select_tracking_rows, select_tracking_by_agent,
}
use saimiris_gateway.Database.Postgres.Statuses.{select_measurement_status}
use saimiris_gateway.Database.Postgres.Statuses.Single.{select-get_measurement_status}
use saimiris_gateway.Database.Postgres.Statuses.Arrangement.{Arranged, nil, cons, swap, trans}
use saimiris_gateway.Database.Postgres.Keys.{Keyed, update_first-update_where}
use saimiris_gateway.Database.Postgres.Refinement.{storage_of}
use saimiris_gateway.UserId.Stored.{told_by}
use saimiris_gateway.Handlers.Measurements.{Measurements, mock, UpdateReply}

-- The calls of the handlers on Postgres, with each statement answered.
module _ (scan : List MeasurementTracking → List MeasurementTracking) (text : SqlxError → String)
    (now : ℕ) where
  abbrev pub postgres : Measurements Tables
  postgres = record {
    get_status = λ t m u. told_by text (select_measurement_status answered t m u);
    get_tracking = λ t m u. told_by text (select_tracking_rows scan answered t m u);
    get_tracking_by_agent = λ t m a. told_by text (select_tracking_by_agent scan answered t m a);
    update_probe_count = λ t m u a sent done. (
      told_by text (update_tracking_row answered t m u a sent done now).0,
      (update_tracking_row answered t m u a sent done now).1,
    );
    cancel = λ t m u. (
      told_by text (update_cancelled answered t m u now).0,
      (update_cancelled answered t m u now).1,
    );
  }

-- The agent has at most one row of each measurement, whoever's it is: ids of measurements are random.
abbrev pub OneRow : String → Tables → Type 0
OneRow a t =
    (m : ℕ)
    → length (filter (λ r. r.measurement_id == m && str_eq r.agent_id a) t.measurement_tracking) ≤ 1

length-Arranged : {A : Type 0} {xs ys : List A} → Arranged xs ys → length xs ≡ length ys
length-Arranged nil = refl
length-Arranged (cons h) = omega (arith, length-Arranged h)
length-Arranged swap = refl
length-Arranged (trans h k) = length-Arranged h ∙ length-Arranged k

-- A list of one element has one order.
first_row-Arranged :
    {A : Type 0} {xs ys : List A} → Arranged xs ys → length xs ≤ 1 → first_row ys ≡ first_row xs
first_row-Arranged nil h = refl
first_row-Arranged (cons k) h = refl
first_row-Arranged swap h = absurd (omega arith)
first_row-Arranged (trans k l) h =
    first_row-Arranged l (omega (arith, length-Arranged k)) ∙ first_row-Arranged k h

first_row-filter :
    (p : MeasurementTracking → Bool) (rs : List MeasurementTracking)
    → first_row (filter p rs) ≡ find p rs
first_row-filter p [] = refl
first_row-filter p (r ∷ rs) = ground (arith, first_row-filter p rs)

-- What a handler answers and leaves on the tables, as of the storage in memory.
abbrev pub as_storage :
    {A : Type 0}
    → List ProbeUsageRecord
    → Result (Failure String) A × Tables
    → Result (Failure String) A × MockStorage
as_storage records (r, t) = (r, storage_of records t)

-- What the handler of a report makes of the answer of the database.
abbrev pub conclude :
    {S : Type 0}
    → String
    → String
    → Result String MeasurementTracking × S
    → Result (Failure String) UpdateReply × S
conclude agent_id measurement_id p = elim p.0 [
  | ok updated_tracking ↦ (
    ok (record {
      measurement_id = measurement_id;
      agent_id = agent_id;
      sent_probes = updated_tracking.sent_probes;
      is_complete = updated_tracking.is_complete;
      updated_at = updated_tracking.updated_at;
    }),
    p.1,
  )
  | err _ ↦ (err (responds internal_server_error "Failed to update measurement status"), p.1)
]

pub conclude-as_storage :
    (records : List ProbeUsageRecord) (agent_id measurement_id : String)
    (r : Result String MeasurementTracking) (t : Tables)
    → conclude agent_id measurement_id (r, storage_of records t)
      ≡ as_storage records (conclude agent_id measurement_id (r, t))
conclude-as_storage records agent_id measurement_id (ok r) t = refl
conclude-as_storage records agent_id measurement_id (err e) t = refl

module _ (scan : List MeasurementTracking → List MeasurementTracking)
    (scans : (rs : List MeasurementTracking) → Arranged rs (scan rs)) (text : SqlxError → String)
    (no_rows : text SqlxError.row_not_found
      ≡ "no rows returned by a query that expected to return at least one row")
    (now : ℕ) (records : List ProbeUsageRecord) where
  pub by_agent_lem :
      (t : Tables) (m : ℕ) (a : String)
      → OneRow a t
      → (postgres scan text now).get_tracking_by_agent t m a
        ≡ ok (get_measurement_tracking_by_agent (storage_of records t) m a)
  unfolding select_tracking_by_agent get_measurement_tracking_by_agent
  by_agent_lem t m a one =
      ap ok (first_row-Arranged (scans _) (one m) ∙ first_row-filter _ t.measurement_tracking)

  pub update_lem :
      (t : Tables) (m : ℕ) (u a : String) (sent : ℤ) (done : Bool)
      → Keyed t.measurement_tracking
      → (mock (timestamptz now)).update_probe_count (storage_of records t) m u a sent done ≡ (
        ((postgres scan text now).update_probe_count t m u a sent done).0,
        storage_of records ((postgres scan text now).update_probe_count t m u a sent done).1,
      )
  unfolding update_tracking_row update_measurement_probe_count
  update_lem t m u a sent done keyed = ground (
    arith,
    no_rows,
    update_first-update_where m u a (report sent done (timestamptz now)) t.measurement_tracking
        keyed,
  )

  pub status_lem :
      (t : Tables) (m : ℕ) (u : String)
      → (postgres scan text now).get_status t m u
        ≡ (mock (timestamptz now)).get_status (storage_of records t) m u
  status_lem t m u = ap (told_by text) (select-get_measurement_status records t m u)
