-- ===== src/Database/Recent.antt =====
-- src/database.rs: `get_recent` and `get_recent_usage`. As in the list of a user's measurements, the
-- order in which the hash map gives its entries is a parameter.
pub mod Totals
use saimiris_gateway.Prelude.{
  ℕ, String, Bool, ◌&&◌, Option, none, some, List, [], ◌∷◌, map, take, max, str_eq, leb, ◌==◌,
  if◌then◌else◌,
}
use saimiris_gateway.Prelude.Int.{ℤ, pos, ◌+ℤ◌, as_u32, as_i32}
use saimiris_gateway.Database.{ProbeUsageRecord, MeasurementTracking, MockStorage}
use saimiris_gateway.Database.Listing.{as_usize}

-- `+=` on an `i32`, which wraps in a release build.
abbrev pub wrapping_add : ℤ → ℤ → ℤ
wrapping_add a b = as_i32 (as_u32 (a +ℤ b))

abbrev pub Key : Type 0
Key = ℕ × String

abbrev pub same_key : Key → Key → Bool
same_key a b = a.0 == b.0 && str_eq a.1 b.1

abbrev pub key_of : MeasurementTracking → Key
key_of t = (t.measurement_id, t.user_hash)

-- The probes sent and the last update.
abbrev pub Entry : Type 0
Entry = Key × (ℤ × ℕ)

abbrev pub add_row : ℤ × ℕ → MeasurementTracking → ℤ × ℕ
add_row e t = (wrapping_add e.0 t.sent_probes, max e.1 t.updated_at)

-- `entry(key).and_modify(..).or_insert(..)`
unfoldable pub count_row : MeasurementTracking → List Entry → List Entry
count_row t [] = (key_of t, (t.sent_probes, t.updated_at)) ∷ []
count_row t ((k, e) ∷ entries) =
    let rest = count_row t entries in
    if same_key k (key_of t) then (k, add_row e t) ∷ entries else (k, e) ∷ rest

unfoldable pub count_rows : List Entry → List MeasurementTracking → List Entry
count_rows entries [] = entries
count_rows entries (t ∷ ts) = count_rows (count_row t entries) ts

abbrev pub usage_record : Entry → ProbeUsageRecord
usage_record e = record { id = e.0.0; user_hash = e.0.1; probe_count = e.1.0; timestamp = e.1.1 }

unfoldable pub insert_record : ProbeUsageRecord → List ProbeUsageRecord → List ProbeUsageRecord
insert_record r [] = r ∷ []
insert_record r (q ∷ qs) =
    let rest = insert_record r qs in if leb q.timestamp r.timestamp then r ∷ q ∷ qs else q ∷ rest

-- A stable sort, the newest first.
unfoldable pub sort_records : List ProbeUsageRecord → List ProbeUsageRecord
sort_records [] = []
sort_records (r ∷ rs) = insert_record r (sort_records rs)

module _ (iterate : List Entry → List Entry) where
  unfoldable pub get_recent : MockStorage → ℤ → List ProbeUsageRecord
  get_recent s limit =
      take (as_usize limit)
        (sort_records (map usage_record (iterate (count_rows [] s.measurement_tracking))))

  unfoldable pub get_recent_usage : MockStorage → Option ℤ → List ProbeUsageRecord
  get_recent_usage s (some limit) = get_recent s limit
  get_recent_usage s none = get_recent s (pos 100)
