-- ===== src/Database/Postgres/Totals/Recent.antt =====
-- `get_recent_usage` of src/database.rs, from the tables and in memory.
use mathlib.Core.Option
use saimiris_gateway.Prelude.{
  ℕ, ◌+◌, ◌%◌, ◌<◌, ◌^◌, String, Option, none, some, List, [], ◌∷◌, ◌++◌, map, max, take, All, ok,
  ◌≡◌, refl, sym, ap, ◌∙◌, subst, arith, Bool-cases, inl, inr,
}
use saimiris_gateway.Prelude.Int.{ℤ, pos, negsuc, ◌+ℤ◌, sum_ℤ, as_u32, as_i32, as_u32-as_i32}
use saimiris_gateway.Database.{MeasurementTracking, ProbeUsageRecord}
use saimiris_gateway.Database.Tracking.{latest}
use saimiris_gateway.Database.Usage.{u32_mod}
use saimiris_gateway.Database.Recent.{
  Entry, same_key, key_of, wrapping_add, count_row, count_rows, usage_record, sort_records,
  get_recent, get_recent_usage,
}
use saimiris_gateway.Database.Postgres.{Tables, answered}
use saimiris_gateway.Database.Postgres.Agreement.{IsI32}
use saimiris_gateway.Database.Postgres.Refinement.{storage_of}
use saimiris_gateway.Database.Postgres.Statuses.{KeyGroup, group_row, group_by_key}
use saimiris_gateway.Database.Postgres.Statuses.Arrangement.{
  Arranged, map-Arranged, KeysApart, sort_records-Arranged,
}
use saimiris_gateway.Database.Postgres.Totals.{recent_row, select_recent_usage}
use saimiris_gateway.Database.Postgres.Totals.Stats.{as_u32_add}

-- The number of probes sent fits its column, an INTEGER.
abbrev pub HasI32Sent : MeasurementTracking → Type 0
HasI32Sent r = IsI32 r.sent_probes

abbrev sent_sum : List MeasurementTracking → ℤ
sent_sum rows = sum_ℤ (map (λ r. r.sent_probes) rows)

as_i32-as_u32 : (z : ℤ) → IsI32 z → as_i32 (as_u32 z) ≡ z
as_i32-as_u32 (pos n) h = ground arith
as_i32-as_u32 (negsuc n) h = ground arith

as_u32_below : (z : ℤ) → as_u32 z < 2 ^ 32
as_u32_below (pos n) = omega arith
as_u32_below (negsuc n) = omega arith

add_zero : (z : ℤ) → z +ℤ pos 0 ≡ z
unfolding ◌+ℤ◌
add_zero (pos n) = ground arith
add_zero (negsuc n) = ground arith

as_u32-sent_sum :
    (rows : List MeasurementTracking) (t : MeasurementTracking)
    → as_u32 (sent_sum (rows ++ t ∷ [])) ≡ (as_u32 (sent_sum rows) + as_u32 t.sent_probes) % u32_mod
unfolding sum_ℤ
as_u32-sent_sum [] t = rw (add_zero t.sent_probes) (omega (arith, as_u32_below t.sent_probes))
as_u32-sent_sum (r ∷ rs) t =
    as_u32_add r.sent_probes (sent_sum (rs ++ t ∷ []))
    ∙ omega (arith, as_u32-sent_sum rs t, as_u32_add r.sent_probes (sent_sum rs))

-- Casting the sum at the end gives what casting it at each row does.
sent_sum_append :
    (rows : List MeasurementTracking) (t : MeasurementTracking)
    → as_i32 (as_u32 (sent_sum (rows ++ t ∷ [])))
      ≡ wrapping_add (as_i32 (as_u32 (sent_sum rows))) t.sent_probes
sent_sum_append rows t =
    let so_far = as_u32 (sent_sum rows) in
    ap as_i32 (
      as_u32-sent_sum rows t
      ∙ omega (
        arith,
        as_u32_add (as_i32 so_far) t.sent_probes,
        as_u32-as_i32 so_far (as_u32_below (sent_sum rows)),
      ))

latest_append :
    (n : ℕ) (rows : List MeasurementTracking) (t : MeasurementTracking)
    → latest n (rows ++ t ∷ []) ≡ max (latest n rows) t.updated_at
unfolding latest
latest_append n [] t = refl
latest_append n (r ∷ rs) t = latest_append (max n r.updated_at) rs t

-- A group as an entry of the storage in memory.
abbrev entry_of : KeyGroup → Entry
entry_of (k, (first, others)) =
    (k, (as_i32 (as_u32 (sent_sum (first ∷ others))), latest first.updated_at others))

usage_record-entry_of :
    (gs : List KeyGroup) → map usage_record (map entry_of gs) ≡ map recent_row gs
usage_record-entry_of [] = refl
usage_record-entry_of (g ∷ gs) = ap (◌∷◌ (recent_row g)) (usage_record-entry_of gs)

entry_of-group_row :
    (t : MeasurementTracking) (gs : List KeyGroup)
    → HasI32Sent t
    → map entry_of (group_row t gs) ≡ count_row t (map entry_of gs)
unfolding group_row count_row latest sum_ℤ
entry_of-group_row t [] h = rw (add_zero t.sent_probes, as_i32-as_u32 t.sent_probes h) refl
entry_of-group_row t ((k, (r, rs)) ∷ gs) h = elim (Bool-cases (same_key k (key_of t))) [
  | inl hit ↦ rw hit (λ i.
      (k, (sent_sum_append (r ∷ rs) t i, latest_append r.updated_at rs t i)) ∷ map entry_of gs)
  | inr miss ↦ rw miss (ap (◌∷◌ (entry_of (k, (r, rs)))) (entry_of-group_row t gs h))
]

entry_of-group_by_key :
    (gs : List KeyGroup) (ts : List MeasurementTracking)
    → All HasI32Sent ts
    → map entry_of (group_by_key gs ts) ≡ count_rows (map entry_of gs) ts
unfolding group_by_key count_rows
entry_of-group_by_key gs [] h = refl
entry_of-group_by_key gs (t ∷ ts) (h, hs) =
    entry_of-group_by_key (group_row t gs) ts hs
    ∙ ap (λ es. count_rows es ts) (entry_of-group_row t gs h)

entries_lem :
    (t : Tables)
    → All HasI32Sent t.measurement_tracking
    → map usage_record (count_rows [] t.measurement_tracking)
      ≡ map recent_row (group_by_key [] t.measurement_tracking)
entries_lem t h =
    ap (map usage_record) (sym (entry_of-group_by_key [] t.measurement_tracking h))
    ∙ usage_record-entry_of (group_by_key [] t.measurement_tracking)

module _ (scan : List ProbeUsageRecord → List ProbeUsageRecord)
    (scans : (rs : List ProbeUsageRecord) → Arranged rs (scan rs))
    (iterate : List Entry → List Entry)
    (iterates : (es : List Entry) → Arranged es (iterate es)) where
  sorted_lem :
      (t : Tables)
      → All HasI32Sent t.measurement_tracking
      → KeysApart (λ r. r.timestamp) (map recent_row (group_by_key [] t.measurement_tracking))
      → sort_records (scan (map recent_row (group_by_key [] t.measurement_tracking)))
        ≡ sort_records (map usage_record (iterate (count_rows [] t.measurement_tracking)))
  sorted_lem t columns apart =
      let rows = map recent_row (group_by_key [] t.measurement_tracking) in
      let entries = count_rows [] t.measurement_tracking in
      let same : rows ≡ map usage_record entries = sym (entries_lem t columns) in
      sym (sort_records-Arranged (scans rows) apart)
      ∙ ap sort_records same
      ∙ sort_records-Arranged (map-Arranged usage_record (iterates entries))
          (subst (KeysApart (λ r. r.timestamp)) same apart)

  -- For a limit that is absent or not negative, where each number of probes sent fits its column and
  -- no two measurements were last updated at the same time: the server, in whatever order it comes by
  -- the groups, and the storage in memory, in whatever order its hash map gives the entries, give the
  -- same recent usage.
  pub select_recent_usage-get_recent_usage :
      (negative_limit : String) (records : List ProbeUsageRecord) (t : Tables) (limit : Option ℕ)
      → All HasI32Sent t.measurement_tracking
      → KeysApart (λ r. r.timestamp) (map recent_row (group_by_key [] t.measurement_tracking))
      → select_recent_usage scan negative_limit answered t (Option.map pos limit)
        ≡ ok (get_recent_usage iterate (storage_of records t) (Option.map pos limit))
  unfolding select_recent_usage get_recent_usage get_recent
  select_recent_usage-get_recent_usage negative_limit records t (some n) columns apart =
      ap (λ rs. ok (take n rs)) (sorted_lem t columns apart)
  select_recent_usage-get_recent_usage negative_limit records t none columns apart =
      ap (λ rs. ok (take 100 rs)) (sorted_lem t columns apart)
