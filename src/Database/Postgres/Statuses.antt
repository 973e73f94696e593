-- ===== src/Database/Postgres/Statuses.antt =====
-- The view `measurement_status` of migrations/20260619000001_add_measurement_cancellation.sql, and
-- `get_measurement_status` and `list_user_measurements` of src/database.rs with `DatabaseImpl::Real`.
pub mod Single
pub mod Groups
pub mod Arrangement
pub mod Listed
use saimiris_gateway.Prelude.{
  ℕ, String, Bool, true, false, not, ◌&&◌, ◌||◌, Option, none, some, List, [], ◌∷◌, ◌++◌, ◌==◌, map,
  filter, any, take, is_empty, leb, length, if◌then◌else◌, str_eq, Result, ok, err,
}
use saimiris_gateway.Prelude.Int.{ℤ, pos, negsuc, sum_ℤ}
use saimiris_gateway.Database.{
  MeasurementTracking, MeasurementStatus, MeasurementState, complete, in_progress, cancelled,
  MeasurementListFilter,
}
use saimiris_gateway.Database.Tracking.{earliest, latest}
use saimiris_gateway.Database.Recent.{Key, same_key, key_of}
use saimiris_gateway.Database.Listing.{sort_measurements}
use saimiris_gateway.Database.Postgres.{Tables, SqlxError, database, Reply, timestamptz, fetch}
use saimiris_gateway.Database.Postgres.Rows.{first_row}

-- A group has at least one row.
abbrev pub KeyGroup : Type 0
KeyGroup = Key × (MeasurementTracking × List MeasurementTracking)

-- `GROUP BY measurement_id, user_hash`
unfoldable pub group_row : MeasurementTracking → List KeyGroup → List KeyGroup
group_row t [] = (key_of t, (t, [])) ∷ []
group_row t ((k, (r, rs)) ∷ groups) =
    let rest = group_row t groups in
    if same_key k (key_of t) then (k, (r, rs ++ t ∷ [])) ∷ groups else (k, (r, rs)) ∷ rest

unfoldable pub group_by_key : List KeyGroup → List MeasurementTracking → List KeyGroup
group_by_key groups [] = groups
group_by_key groups (t ∷ ts) = group_by_key (group_row t groups) ts

-- `COUNT(*) FILTER (WHERE condition)`
abbrev pub count_where : (MeasurementTracking → Bool) → List MeasurementTracking → ℕ
count_where condition rows = length (filter condition rows)

-- The columns of the view.
abbrev pub status_row : KeyGroup → MeasurementStatus
status_row (k, (first, others)) =
    let rows = first ∷ others in
    record {
      measurement_id = k.0;
      user_hash = k.1;
      total_agents = length rows;
      total_expected_probes = sum_ℤ (map (λ r. r.expected_probes) rows);
      total_sent_probes = sum_ℤ (map (λ r. r.sent_probes) rows);
      completed_agents = count_where (λ r. r.is_complete) rows;
      measurement_complete =
          if count_where (λ r. r.is_complete || r.cancelled) rows == length rows
          then true
          else false;
      measurement_cancelled = any (λ r. r.cancelled) rows;
      started_at = earliest first.created_at others;
      last_updated = latest first.updated_at others;
    }

unfoldable pub measurement_status_view : Tables → List MeasurementStatus
unfolding group_by_key
measurement_status_view t = map status_row (group_by_key [] t.measurement_tracking)

-- The view has one row for each measurement and user.
unfoldable pub select_measurement_status :
    Reply → Tables → ℕ → String → Result SqlxError (Option MeasurementStatus)
select_measurement_status reply t measurement_id user_hash = fetch reply (
    ok (
      first_row (
        filter (λ m. m.measurement_id == measurement_id && str_eq m.user_hash user_hash)
          (measurement_status_view t))))

-- The condition for a state; those of a filter are joined by OR.
abbrev pub state_condition : MeasurementState → MeasurementStatus → Bool
state_condition complete m = m.measurement_complete && not m.measurement_cancelled
state_condition in_progress m = not m.measurement_complete
state_condition cancelled m = m.measurement_cancelled

abbrev pub any_state : List MeasurementState → MeasurementStatus → Bool
any_state [] m = false
any_state (state ∷ states) m = state_condition state m || any_state states m

-- The conditions that are joined by AND: one that the filter does not ask for is left out.
abbrev pub when_asked : {A : Type 0} → Option A → (A → Bool) → Bool
when_asked none condition = true
when_asked (some a) condition = condition a

unfoldable pub conditions : Tables → String → MeasurementListFilter → MeasurementStatus → Bool
conditions t user_hash f m =
    (is_empty f.status || any_state f.status m)
    && when_asked f.since (λ since. leb (timestamptz since) m.started_at)
    && when_asked f.until (λ until. leb m.started_at (timestamptz until))
    && when_asked f.agent (λ agent.
      any
        (λ r.
          r.measurement_id == m.measurement_id
          && str_eq r.user_hash user_hash
          && str_eq r.agent_id agent)
        t.measurement_tracking)

abbrev pub where_listed : Tables → String → MeasurementListFilter → MeasurementStatus → Bool
where_listed t user_hash f m = str_eq m.user_hash user_hash && conditions t user_hash f m

-- `LIMIT $n`: a negative number is an error of the server, with its text.
abbrev pub limit_rows : {A : Type 0} → String → ℤ → List A → Result SqlxError (List A)
limit_rows negative_limit (pos n) rows = ok (take n rows)
limit_rows negative_limit (negsuc n) rows = err (database negative_limit)

-- Rows that the ORDER BY does not tell apart stand as the server comes by them.
unfoldable pub select_user_measurements :
    (List MeasurementStatus → List MeasurementStatus)
    → String
    → Reply
    → Tables
    → String
    → MeasurementListFilter
    → Result SqlxError (List MeasurementStatus)
select_user_measurements scan negative_limit reply t user_hash f = fetch reply (
    limit_rows negative_limit f.limit (
      sort_measurements f (scan (filter (where_listed t user_hash f) (measurement_status_view t)))))
