-- ===== src/Database/Postgres/Totals/Stats.antt =====
-- A user's usage, from the tables and in memory.
use saimiris_gateway.Prelude.{
  ℕ, ◌+◌, ◌%◌, String, none, some, List, [], ◌∷◌, map, filter, find, max, str_eq, ok, ◌≡◌, refl,
  ◌∙◌, arith,
}
use saimiris_gateway.Prelude.Int.{ℤ, pos, negsuc, ◌+ℤ◌, sum_ℤ, as_u32}
use saimiris_gateway.Database.{MeasurementTracking, ProbeUsageRecord}
use saimiris_gateway.Database.Tracking.{latest}
use saimiris_gateway.Database.Usage.{
  u32_mod, in_window, total_loop, last_loop, limit_of, get_user_limit, get_user_stats,
}
use saimiris_gateway.Database.Usage.Quota.{owed, total_loop-owed}
use saimiris_gateway.Database.Postgres.{LimitRow, Tables, timestamptz, answered}
use saimiris_gateway.Database.Postgres.Limits.{limit_row}
use saimiris_gateway.Database.Postgres.Refinement.{storage_of}
use saimiris_gateway.Database.Postgres.Totals.{limit_or_default, max_updated, select_usage_stats}

pub as_u32_add : (a b : ℤ) → as_u32 (a +ℤ b) ≡ (as_u32 a + as_u32 b) % u32_mod
unfolding ◌+ℤ◌
as_u32_add (pos a) (pos b) = ground arith
as_u32_add (pos a) (negsuc b) = ground arith
as_u32_add (negsuc a) (pos b) = ground arith
as_u32_add (negsuc a) (negsuc b) = ground arith

pub sum-owed :
    (rows : List MeasurementTracking)
    → as_u32 (sum_ℤ (map (λ r. r.expected_probes) rows)) ≡ owed rows % u32_mod
unfolding sum_ℤ owed
sum-owed [] = omega arith
sum-owed (r ∷ rs) =
    as_u32_add r.expected_probes (sum_ℤ (map (λ r. r.expected_probes) rs))
    ∙ omega (arith, sum-owed rs)

-- The sum of 64 bits, cast, is the sum that wraps at 32 bits in each step.
sum-total_loop :
    (rows : List MeasurementTracking)
    → as_u32 (sum_ℤ (map (λ r. r.expected_probes) rows)) ≡ total_loop 0 rows
sum-total_loop rows = omega (arith, sum-owed rows, total_loop-owed 0 rows (omega arith))

last_loop-latest :
    (n : ℕ) (rows : List MeasurementTracking) → last_loop (some n) rows ≡ some (latest n rows)
unfolding last_loop latest
last_loop-latest n [] = refl
last_loop-latest n (r ∷ rs) = last_loop-latest (max n r.updated_at) rs

last_loop-max_updated : (rows : List MeasurementTracking) → last_loop none rows ≡ max_updated rows
unfolding last_loop max_updated
last_loop-max_updated [] = refl
last_loop-max_updated (r ∷ rs) = last_loop-latest r.updated_at rs

limit-limit_or_default :
    (u : String) (rows : List LimitRow)
    → limit_of (find (λ ul. str_eq ul.user_hash u) (map limit_row rows))
      ≡ limit_or_default (find (λ r. str_eq r.user_hash u) rows)
limit-limit_or_default u [] = refl
limit-limit_or_default u (r ∷ rs) = ground (arith, limit-limit_or_default u rs)

-- The two statements give the usage that the storage in memory computes for the window with its bounds
-- in whole microseconds, of the limits at the first and of the rows at the second.
pub select_usage_stats-get_user_stats :
    (records : List ProbeUsageRecord) (others : Tables → Tables) (t : Tables) (u : String)
    (start_time end_time : ℕ)
    → select_usage_stats others answered answered t u start_time end_time
      ≡ ok (
          get_user_stats
            (record (storage_of records (others t)) { user_limits = map limit_row t.user_limits })
            u
            (timestamptz start_time)
            (timestamptz end_time))
unfolding select_usage_stats get_user_stats get_user_limit
select_usage_stats-get_user_stats records others t u start_time end_time =
    let rows =
      filter (in_window u (timestamptz start_time) (timestamptz end_time))
        (others t).measurement_tracking in
    rw (sum-total_loop rows, last_loop-max_updated rows, limit-limit_or_default u t.user_limits)
      refl
