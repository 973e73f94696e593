-- ===== src/Database/Postgres/Totals.antt =====
-- `get_user_usage_stats`, `can_user_submit_probes` and `get_recent_usage` of src/database.rs with
-- `DatabaseImpl::Real`.
pub mod Stats
pub mod Recent
use saimiris_gateway.Prelude.{
  ℕ, ◌+◌, ◌%◌, ◌^◌, String, Bool, ◌&&◌, Option, none, some, List, [], ◌∷◌, map, filter, leb, length,
  if◌then◌else◌, str_eq, Result, ok, err,
}
use saimiris_gateway.Prelude.Int.{ℤ, pos, sum_ℤ, as_u32, as_i32}
use saimiris_gateway.Database.{MeasurementTracking, UserUsageStats, ProbeUsageRecord}
use saimiris_gateway.Database.Tracking.{latest}
use saimiris_gateway.Database.Usage.{u32_mod, default_probe_limit, distinct_measurements}
use saimiris_gateway.Database.Recent.{sort_records}
use saimiris_gateway.Database.Postgres.{LimitRow, Tables, SqlxError, Reply, timestamptz, fetch}
use saimiris_gateway.Database.Postgres.Limits.{find_limit}
use saimiris_gateway.Database.Postgres.Statuses.{KeyGroup, group_by_key, limit_rows}

-- `WHERE user_hash = $1 AND created_at >= $2 AND created_at <= $3`
abbrev pub where_window : String → ℕ → ℕ → MeasurementTracking → Bool
where_window user_hash start_time end_time r =
    str_eq r.user_hash user_hash
    && leb (timestamptz start_time) r.created_at
    && leb r.created_at (timestamptz end_time)

-- `MAX(updated_at)`, which is NULL where there are no rows.
unfoldable pub max_updated : List MeasurementTracking → Option ℕ
max_updated [] = none
max_updated (r ∷ rs) = some (latest r.updated_at rs)

-- `limit_row.map(..).unwrap_or(DEFAULT_PROBE_LIMIT)`
abbrev pub limit_or_default : Option LimitRow → ℕ
limit_or_default (some r) = as_u32 r.probe_limit
limit_or_default none = default_probe_limit

-- The answer, of the row of the limit and of the tables at the second statement.
abbrev pub usage_stats : Option LimitRow → Tables → String → ℕ → ℕ → UserUsageStats
usage_stats limit t user_hash start_time end_time =
    let rows = filter (where_window user_hash start_time end_time) t.measurement_tracking in
    record {
      user_hash = user_hash;
      submission_count = distinct_measurements rows % u32_mod;
      total_probes = as_u32 (sum_ℤ (map (λ r. r.expected_probes) rows));
      limit = limit_or_default limit;
      last_submitted = max_updated rows;
    }

-- Two statements: the limit, then the rows. `others` is what other requests do in between.
unfoldable pub select_usage_stats :
    (Tables → Tables) → Reply → Reply → Tables → String → ℕ → ℕ → Result SqlxError UserUsageStats
unfolding max_updated
select_usage_stats others limit_reply rows_reply t user_hash start_time end_time =
    elim (fetch limit_reply (ok (find_limit t user_hash))) [
      | ok limit ↦
          fetch rows_reply (ok (usage_stats limit (others t) user_hash start_time end_time))
      | err e ↦ err e
    ]

-- The columns of a row of the recent usage; SUM(sent_probes) is read as i64 and cast to i32.
abbrev pub recent_row : KeyGroup → ProbeUsageRecord
recent_row (k, (first, others)) = record {
  id = k.0;
  user_hash = k.1;
  probe_count = as_i32 (as_u32 (sum_ℤ (map (λ r. r.sent_probes) (first ∷ others))));
  timestamp = latest first.updated_at others;
}

unfoldable pub select_recent_usage :
    (List ProbeUsageRecord → List ProbeUsageRecord)
    → String
    → Reply
    → Tables
    → Option ℤ
    → Result SqlxError (List ProbeUsageRecord)
unfolding group_by_key
select_recent_usage scan negative_limit reply t limit = fetch reply (
    limit_rows negative_limit (elim limit [ some n ↦ n | none ↦ pos 100 ])
      (sort_records (scan (map recent_row (group_by_key [] t.measurement_tracking)))))

-- `can_user_submit_probes`: the sum is of 32 bits.
unfoldable pub allows_probes :
    (Tables → Tables) → Reply → Reply → Tables → String → ℕ → ℕ → ℕ → Result SqlxError Bool
unfolding select_usage_stats
allows_probes others limit_reply rows_reply t user_hash additional start_time now =
    elim (select_usage_stats others limit_reply rows_reply t user_hash start_time now) [
      | ok stats ↦ ok (leb ((stats.total_probes + additional) % u32_mod) stats.limit)
      | err e ↦ err e
    ]
