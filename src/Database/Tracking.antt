-- ===== src/Database/Tracking.antt =====
-- The tracking rows of a measurement in src/database.rs, one for each agent.
pub mod Cancellation
pub mod Terminal
use saimiris_gateway.Prelude.{
  ℕ, suc, ◌+◌, String, Bool, true, false, not, ◌&&◌, ◌||◌, Option, none, some, List, [], ◌∷◌, ◌++◌,
  map, str_eq, leb, ◌==◌, min, max, if◌then◌else◌, length, filter, find, any, is_empty, Result, ok,
  err,
}
use saimiris_gateway.Prelude.Int.{ℤ, pos, sum_ℤ}
use saimiris_gateway.Database.{MeasurementTracking, MeasurementStatus, MockStorage}

unfoldable pub create_measurement_tracking :
    MockStorage → String → ℕ → String → ℤ → ℕ → ℕ → MeasurementTracking × MockStorage
create_measurement_tracking s user_hash measurement_id agent_id expected_probes new_id now =
    let r : MeasurementTracking = record {
      id = new_id;
      user_hash = user_hash;
      measurement_id = measurement_id;
      agent_id = agent_id;
      expected_probes = expected_probes;
      sent_probes = pos 0;
      is_complete = false;
      cancelled = false;
      created_at = now;
      updated_at = now;
    } in
    (r, record s { measurement_tracking = s.measurement_tracking ++ r ∷ [] })

abbrev pub of_agent : ℕ → String → String → MeasurementTracking → Bool
of_agent measurement_id user_hash agent_id t =
    t.measurement_id == measurement_id && str_eq t.user_hash user_hash && str_eq t.agent_id agent_id

abbrev pub of_user : ℕ → String → MeasurementTracking → Bool
of_user measurement_id user_hash t =
    t.measurement_id == measurement_id && str_eq t.user_hash user_hash

-- `iter_mut().find(p)`, and the row changed in place.
unfoldable pub update_first :
    (MeasurementTracking → Bool)
    → (MeasurementTracking → MeasurementTracking)
    → List MeasurementTracking
    → Option (MeasurementTracking × List MeasurementTracking)
update_first p f [] = none
update_first p f (t ∷ ts) =
    let rest = update_first p f ts in
    if p t
    then some (f t, f t ∷ ts)
    else elim rest [ none ↦ none | some (r, ts') ↦ some (r, t ∷ ts') ]

pub data SqlError : Type 0 where
  row_not_found : SqlError

abbrev pub report : ℤ → Bool → ℕ → MeasurementTracking → MeasurementTracking
report sent_probes is_complete now t = record t {
  sent_probes = sent_probes;
  is_complete = is_complete;
  updated_at = now;
}

unfoldable pub update_measurement_probe_count :
    MockStorage
    → ℕ
    → String
    → String
    → ℤ
    → Bool
    → ℕ
    → Result SqlError MeasurementTracking × MockStorage
unfolding update_first
update_measurement_probe_count s measurement_id user_hash agent_id sent_probes is_complete now =
    elim (update_first (of_agent measurement_id user_hash agent_id)
      (report sent_probes is_complete now) s.measurement_tracking) [
        | none ↦ (err row_not_found, s)
        | some (r, ts) ↦ (ok r, record s { measurement_tracking = ts })
      ]

unfoldable pub earliest : ℕ → List MeasurementTracking → ℕ
earliest t [] = t
earliest t (r ∷ rs) = earliest (min t r.created_at) rs

unfoldable pub latest : ℕ → List MeasurementTracking → ℕ
latest t [] = t
latest t (r ∷ rs) = latest (max t r.updated_at) rs

abbrev pub is_terminal : MeasurementTracking → Bool
is_terminal r = r.is_complete || r.cancelled

-- The aggregate over the rows of a measurement; there is at least one.
unfoldable pub aggregate :
    ℕ → String → MeasurementTracking → List MeasurementTracking → MeasurementStatus
aggregate measurement_id user_hash first others =
    let records = first ∷ others in
    record {
      measurement_id = measurement_id;
      user_hash = user_hash;
      total_agents = length records;
      total_expected_probes = sum_ℤ (map (λ r. r.expected_probes) records);
      total_sent_probes = sum_ℤ (map (λ r. r.sent_probes) records);
      completed_agents = length (filter (λ r. r.is_complete) records);
      measurement_complete = length (filter is_terminal records) == length records;
      measurement_cancelled = any (λ r. r.cancelled) records;
      started_at = earliest first.created_at others;
      last_updated = latest first.updated_at others;
    }

unfoldable pub status_of : ℕ → String → List MeasurementTracking → Option MeasurementStatus
status_of measurement_id user_hash [] = none
status_of measurement_id user_hash (first ∷ others) =
    some (aggregate measurement_id user_hash first others)

unfoldable pub get_measurement_status : MockStorage → ℕ → String → Option MeasurementStatus
get_measurement_status s measurement_id user_hash =
    status_of measurement_id user_hash
      (filter (of_user measurement_id user_hash) s.measurement_tracking)

-- The rows that a cancellation changes.
abbrev pub is_open : ℕ → String → MeasurementTracking → Bool
is_open measurement_id user_hash t =
    of_user measurement_id user_hash t && not t.is_complete && not t.cancelled

unfoldable pub cancel_rows :
    ℕ → String → ℕ → List MeasurementTracking → ℕ × List MeasurementTracking
cancel_rows measurement_id user_hash now [] = (0, [])
cancel_rows measurement_id user_hash now (t ∷ ts) =
    let (affected, rest) = cancel_rows measurement_id user_hash now ts in
    if is_open measurement_id user_hash t
    then (affected + 1, record t { cancelled = true; updated_at = now } ∷ rest)
    else (affected, t ∷ rest)

unfoldable pub cancel_measurement : MockStorage → ℕ → String → ℕ → ℕ × MockStorage
cancel_measurement s measurement_id user_hash now =
    let (affected, ts) = cancel_rows measurement_id user_hash now s.measurement_tracking in
    (affected, record s { measurement_tracking = ts })

-- A stable sort by the time of creation.
unfoldable pub insert_by_creation :
    MeasurementTracking → List MeasurementTracking → List MeasurementTracking
insert_by_creation t [] = t ∷ []
insert_by_creation t (r ∷ rs) =
    if leb t.created_at r.created_at then t ∷ r ∷ rs else r ∷ insert_by_creation t rs

unfoldable pub sort_by_creation : List MeasurementTracking → List MeasurementTracking
unfolding insert_by_creation
sort_by_creation [] = []
sort_by_creation (t ∷ ts) = insert_by_creation t (sort_by_creation ts)

unfoldable pub get_measurement_tracking : MockStorage → ℕ → String → List MeasurementTracking
unfolding sort_by_creation
get_measurement_tracking s measurement_id user_hash =
    sort_by_creation (filter (of_user measurement_id user_hash) s.measurement_tracking)

unfoldable pub get_measurement_tracking_by_agent :
    MockStorage → ℕ → String → Option MeasurementTracking
get_measurement_tracking_by_agent s measurement_id agent_id =
    find (λ t. t.measurement_id == measurement_id && str_eq t.agent_id agent_id)
      s.measurement_tracking
