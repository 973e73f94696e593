-- ===== src/Database/Usage.antt =====
-- Usage records, per-user limits and the daily quota of src/database.rs.
pub mod Quota
use saimiris_gateway.Prelude.{
  ℕ, ◌+◌, ◌-◌, ◌*◌, ◌/◌, ◌%◌, ◌^◌, String, Bool, true, false, ◌&&◌, Option, none, some, List, [],
  ◌∷◌, ◌++◌, str_eq, leb, ◌==◌, max, if◌then◌else◌, length, filter, find, any,
}
use saimiris_gateway.Prelude.Int.{ℤ, pos_part, neg_part, as_u32}
use saimiris_gateway.Database.{
  ProbeUsageRecord, UserUsageStats, UserLimit, MeasurementTracking, MockStorage,
}

abbrev pub u32_mod : ℕ
u32_mod = 2 ^ 32

abbrev pub default_probe_limit : ℕ
default_probe_limit = 10000

-- The rows of a user that were created in the window, its two ends included.
abbrev pub in_window : String → ℕ → ℕ → MeasurementTracking → Bool
in_window user_hash start_time end_time t =
    str_eq t.user_hash user_hash && leb start_time t.created_at && leb t.created_at end_time

-- `total_probes += expected_probes as u32`, which wraps at 32 bits in a release build.
unfoldable pub total_loop : ℕ → List MeasurementTracking → ℕ
total_loop total_probes [] = total_probes
total_loop total_probes (t ∷ ts) =
    total_loop ((total_probes + as_u32 t.expected_probes) % u32_mod) ts

-- The size of the hash set of measurement ids.
unfoldable pub distinct_measurements : List MeasurementTracking → ℕ
distinct_measurements [] = 0
distinct_measurements (t ∷ ts) =
    let rest = distinct_measurements ts in
    if any (λ r. r.measurement_id == t.measurement_id) ts then rest else rest + 1

unfoldable pub last_loop : Option ℕ → List MeasurementTracking → Option ℕ
last_loop last_submitted [] = last_submitted
last_loop last_submitted (t ∷ ts) =
    last_loop
      (some
        (elim last_submitted [ some existing ↦ max existing t.updated_at | none ↦ t.updated_at ]))
      ts

unfoldable pub get_user_limit : MockStorage → String → Option UserLimit
get_user_limit s user_hash = find (λ ul. str_eq ul.user_hash user_hash) s.user_limits

abbrev pub limit_of : Option UserLimit → ℕ
limit_of (some ul) = ul.probe_limit
limit_of none = default_probe_limit

unfoldable pub get_user_stats : MockStorage → String → ℕ → ℕ → UserUsageStats
get_user_stats s user_hash start_time end_time =
    let filtered = filter (in_window user_hash start_time end_time) s.measurement_tracking in
    record {
      user_hash = user_hash;
      submission_count = distinct_measurements filtered % u32_mod;
      total_probes = total_loop 0 filtered;
      limit = limit_of (get_user_limit s user_hash);
      last_submitted = last_loop none filtered;
    }

-- The first entry of the user is changed in place, a missing one pushed.
unfoldable pub set_limit : String → ℕ → ℕ → ℕ → List UserLimit → UserLimit × List UserLimit
set_limit user_hash probe_limit new_id now [] =
    let new_limit : UserLimit = record {
      id = new_id;
      user_hash = user_hash;
      probe_limit = probe_limit;
      created_at = now;
      updated_at = now;
    } in
    (new_limit, new_limit ∷ [])
set_limit user_hash probe_limit new_id now (ul ∷ uls) =
    let changed = record ul { probe_limit = probe_limit; updated_at = now } in
    let (l, rest) = set_limit user_hash probe_limit new_id now uls in
    if str_eq ul.user_hash user_hash then (changed, changed ∷ uls) else (l, ul ∷ rest)

unfoldable pub set_user_limit : MockStorage → String → ℕ → ℕ → ℕ → UserLimit × MockStorage
unfolding set_limit
set_user_limit s user_hash probe_limit new_id now =
    let (l, uls) = set_limit user_hash probe_limit new_id now s.user_limits in
    (l, record s { user_limits = uls })

-- `record_probe_usage`: the record is synthetic, and only the mock keeps it.
unfoldable pub record_probe_usage :
    MockStorage → String → ℕ → ℤ → ℕ → ProbeUsageRecord × MockStorage
record_probe_usage s user_hash measurement_id probe_count now =
    let r : ProbeUsageRecord = record {
      id = measurement_id;
      user_hash = user_hash;
      probe_count = probe_count;
      timestamp = now;
    } in
    (r, record s { records = s.records ++ r ∷ [] })

-- `get_user_usage_stats`: by default today's usage, from the start of the day until now.
unfoldable pub get_user_usage_stats :
    MockStorage → String → Option ℕ → Option ℕ → ℕ → ℕ → UserUsageStats
get_user_usage_stats s user_hash start_time end_time today_start now =
    get_user_stats s user_hash (elim start_time [ some t ↦ t | none ↦ today_start ])
      (elim end_time [ some t ↦ t | none ↦ now ])

-- `chrono::Duration::days(days)` in the unit of the clock: nanoseconds.
abbrev pub day : ℕ
day = 86400 * 1000000000

-- The sum is of 32 bits.
unfoldable pub can_user_submit_probes : MockStorage → String → ℕ → Option ℤ → ℕ → ℕ → Bool
can_user_submit_probes s user_hash additional_probes days_back today_start now =
    let start_time : ℕ = elim days_back [
      | some days ↦ now + neg_part days * day - pos_part days * day
      | none ↦ today_start
    ] in
    let stats = get_user_usage_stats s user_hash (some start_time) (some now) today_start now in
    leb ((stats.total_probes + additional_probes) % u32_mod) stats.limit
