-- ===== src/Examples/Postgres.antt =====
-- The tables of Postgres at concrete inputs.
use saimiris_gateway.Prelude.{
  String, true, false, none, List, [], ◌∷◌, ◌≡◌, refl, arith, str_eq, map, if◌then◌else◌, ok,
}
use saimiris_gateway.Prelude.Int.{pos, negsuc, sum_ℤ, ◌+ℤ◌}
use saimiris_gateway.Database.{MeasurementTracking, with_limit}
use saimiris_gateway.Database.Listing.{list_user_measurements}
use saimiris_gateway.Database.Tracking.{earliest, latest}
use saimiris_gateway.Database.Usage.{get_user_stats}
use saimiris_gateway.Database.Recent.{get_recent_usage}
use saimiris_gateway.Database.Postgres.{
  Tables, SqlxError, Reply, timestamptz, answered, refused, lost, new_tables,
}
use saimiris_gateway.Database.Postgres.Ids.{insert_user_id_mapping}
use saimiris_gateway.Database.Postgres.Limits.{limit_row, upsert_user_limit}
use saimiris_gateway.Database.Postgres.Rows.{
  insert_measurement_tracking, update_tracking_row, update_cancelled,
}
use saimiris_gateway.Database.Postgres.Statuses.{
  select_user_measurements, measurement_status_view, group_row, group_by_key, conditions,
}
use saimiris_gateway.Database.Postgres.Statuses.Arrangement.{Arranged-refl}
use saimiris_gateway.Database.Postgres.Statuses.Groups.{rounded_filter}
use saimiris_gateway.Database.Postgres.Statuses.Listed.{select-list_user_measurements}
use saimiris_gateway.Database.Postgres.Totals.{select_usage_stats, select_recent_usage}
use saimiris_gateway.Database.Postgres.Totals.Recent.{select_recent_usage-get_recent_usage}
use saimiris_gateway.Database.Postgres.Totals.Stats.{select_usage_stats-get_user_stats}
use saimiris_gateway.Database.Postgres.Refinement.{
  rounded, Call, set_limit_to, create_id, track_row, report_row, cancel, storage_of, IsSound,
  NamesConstraint, perform_postgres,
}
use saimiris_gateway.Database.Postgres.Refinement.Runs.{
  run_promised, run_postgres, run_postgres-run_promised,
}
use saimiris_gateway.Examples.Parameters.{row, storage}

abbrev pub duplicate_key : String → String
duplicate_key constraint =
    if str_eq constraint "user_id_mappings_pkey"
    then "duplicate key value violates unique constraint \"user_id_mappings_pkey\""
    else if str_eq constraint "user_id_mappings_user_id_key"
    then "duplicate key value violates unique constraint \"user_id_mappings_user_id_key\""
    else "duplicate key value violates unique constraint"

names : NamesConstraint duplicate_key
names = record { names_pkey = refl; names_id = refl; no_pkey = refl; no_hash = refl }

abbrev pub tables : Tables
tables = record {
  user_limits =
      record { id = 1; user_hash = "user"; probe_limit = pos 50; created_at = 3; updated_at = 3 }
      ∷ [];
  user_id_mappings = [];
  measurement_tracking = storage.measurement_tracking;
}

-- Tables that writes fill, one of them with its answer lost and one refused.
abbrev calls : List (Reply × Call)
calls =
    (answered, set_limit_to "user" 50 1 3500)
    ∷ (lost (SqlxError.other "closed"), create_id "user" 2000000 4500)
    ∷ (answered, create_id "user" 3000000 5500)
    ∷ (answered, track_row "user" 7 "beta" (pos 10) 2 6500)
    ∷ (refused (SqlxError.other "closed"), report_row 7 "user" "beta" (pos 4) false 7500)
    ∷ (answered, report_row 7 "user" "beta" (pos 4) false 8500)
    ∷ (answered, cancel 7 "user" 9500)
    ∷ []

run_postgres-run_promised_example :
    (run_promised (map (λ e. (e.0, rounded e.1)) calls) (storage_of [] new_tables) ≡ (
      (run_postgres duplicate_key calls new_tables).0,
      storage_of [] (run_postgres duplicate_key calls new_tables).1,
    ))
    × IsSound (run_postgres duplicate_key calls new_tables).1
unfolding perform_postgres upsert_user_limit insert_user_id_mapping insert_measurement_tracking
    update_tracking_row update_cancelled
run_postgres-run_promised_example =
    run_postgres-run_promised duplicate_key names [] calls new_tables
      (record { columns = tt; keyed = tt })
      (omega arith, (omega arith, (omega arith, ((refl, omega arith), (tt, (tt, (tt, tt)))))))

select-list_user_measurements_example :
    select_user_measurements
      (λ ms. ms)
      "LIMIT must not be negative"
      answered
      tables
      "user"
      (with_limit (pos 5))
    ≡ ok (
        list_user_measurements
          (λ gs. gs)
          (storage_of [] tables)
          "user"
          (rounded_filter (with_limit (pos 5))))
unfolding with_limit measurement_status_view group_by_key group_row conditions earliest latest sum_ℤ
    ◌+ℤ◌
select-list_user_measurements_example =
    select-list_user_measurements (λ ms. ms) Arranged-refl (λ gs. gs) Arranged-refl
      "LIMIT must not be negative" [] tables "user" (with_limit (pos 5)) 5 refl (tt, tt)

select_usage_stats-get_user_stats_example :
    select_usage_stats (λ t. t) answered answered tables "user" 0 3000
    ≡ ok (
        get_user_stats
          (record (storage_of [] tables) { user_limits = map limit_row tables.user_limits })
          "user"
          (timestamptz 0)
          (timestamptz 3000))
select_usage_stats-get_user_stats_example =
    select_usage_stats-get_user_stats [] (λ t. t) tables "user" 0 3000

-- Two rows of one measurement and one of another, whose number of probes sent is negative.
abbrev sent_rows : List MeasurementTracking
sent_rows =
    record (row "alpha" true) { updated_at = 4; sent_probes = pos 2147483647 }
    ∷ record (row "alpha" true) { measurement_id = 8; updated_at = 5; sent_probes = negsuc 2 }
    ∷ record (row "beta" false) { updated_at = 6; sent_probes = pos 9 }
    ∷ []

select_recent_usage-get_recent_usage_example :
    select_recent_usage
      (λ rs. rs)
      "LIMIT must not be negative"
      answered
      (record tables { measurement_tracking = sent_rows })
      none
    ≡ ok (
        get_recent_usage
          (λ es. es)
          (storage_of [] (record tables { measurement_tracking = sent_rows }))
          none)
unfolding group_by_key group_row latest sum_ℤ ◌+ℤ◌
select_recent_usage-get_recent_usage_example =
    select_recent_usage-get_recent_usage (λ rs. rs) Arranged-refl (λ es. es) Arranged-refl
      "LIMIT must not be negative" [] (record tables { measurement_tracking = sent_rows }) none
      (omega arith, (omega arith, (omega arith, tt))) (((λ e. omega arith), tt), (tt, tt))
