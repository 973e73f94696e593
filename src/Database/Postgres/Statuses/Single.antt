-- ===== src/Database/Postgres/Statuses/Single.antt =====
-- The status of one measurement, from the view and in memory.
use saimiris_gateway.Prelude.{
  ℕ, String, some, List, [], ◌∷◌, ◌++◌, map, filter, if◌then◌else◌, ◌&&◌, str_eq, eq_iff, ◌==◌, ok,
  ◌≡◌, refl, sym, ap, ◌∙◌, arith, Bool-cases, inl, inr, append-nil, append_assoc,
}
use saimiris_gateway.Database.{MeasurementTracking, ProbeUsageRecord}
use saimiris_gateway.Database.Tracking.{aggregate, status_of, get_measurement_status}
use saimiris_gateway.Database.Recent.{Key, same_key, key_of}
use saimiris_gateway.Database.Postgres.{Tables, answered}
use saimiris_gateway.Database.Postgres.Rows.{first_row}
use saimiris_gateway.Database.Postgres.Refinement.{storage_of}
use saimiris_gateway.Database.Postgres.Statuses.{
  KeyGroup, group_row, group_by_key, status_row, measurement_status_view, select_measurement_status,
}

abbrev rows_of : Key → List KeyGroup → List MeasurementTracking
rows_of k [] = []
rows_of k ((j, (r, rs)) ∷ gs) = if same_key j k then r ∷ rs else rows_of k gs

rows_of-group_row :
    (k : Key) (t : MeasurementTracking) (gs : List KeyGroup)
    → rows_of k (group_row t gs)
      ≡ (if same_key (key_of t) k then rows_of k gs ++ t ∷ [] else rows_of k gs)
unfolding group_row
rows_of-group_row k t [] = ground arith
rows_of-group_row k t ((j, (r, rs)) ∷ gs) = ground (
  arith,
  rows_of-group_row k t gs,
  eq_iff j.1 t.user_hash,
  eq_iff j.1 k.1,
  eq_iff t.user_hash k.1,
)

rows_of-group_by_key :
    (k : Key) (gs : List KeyGroup) (ts : List MeasurementTracking)
    → rows_of k (group_by_key gs ts) ≡ rows_of k gs ++ filter (λ t. same_key (key_of t) k) ts
unfolding group_by_key
rows_of-group_by_key k gs [] = sym (append-nil _)
rows_of-group_by_key k gs (t ∷ ts) =
    rows_of-group_by_key k (group_row t gs) ts
    ∙ rw (rows_of-group_row k t gs) (
        ground
          (arith, append_assoc (rows_of k gs) (t ∷ []) (filter (λ x. same_key (key_of x) k) ts)))

-- The columns of the view are the fields that the storage in memory computes.
pub status_row-aggregate :
    (m : ℕ) (u : String) (r : MeasurementTracking) (rs : List MeasurementTracking)
    → status_row ((m, u), (r, rs)) ≡ aggregate m u r rs
unfolding aggregate
status_row-aggregate m u r rs = ground arith

first_status :
    (m : ℕ) (u : String) (gs : List KeyGroup)
    → first_row (filter (λ s. s.measurement_id == m && str_eq s.user_hash u) (map status_row gs))
      ≡ status_of m u (rows_of (m, u) gs)
unfolding status_of
first_status m u [] = refl
first_status m u (((id, v), (r, rs)) ∷ gs) = elim (Bool-cases (same_key (id, v) (m, u))) [
  | inl e ↦
      let ids : id ≡ m = ground arith in
      let hashes : v ≡ u = (eq_iff v u).0 (ground arith) in
      rw e (rw (ids, hashes) (ap some (status_row-aggregate m u r rs)))
  | inr e ↦ rw e (first_status m u gs)
]

-- The view gives for a measurement and a user what the storage in memory computes from their rows.
pub select-get_measurement_status :
    (records : List ProbeUsageRecord) (t : Tables) (m : ℕ) (u : String)
    → select_measurement_status answered t m u
      ≡ ok (get_measurement_status (storage_of records t) m u)
unfolding select_measurement_status measurement_status_view get_measurement_status
select-get_measurement_status records t m u = ap ok (
    first_status m u (group_by_key [] t.measurement_tracking)
    ∙ ap (status_of m u) (rows_of-group_by_key (m, u) [] t.measurement_tracking))
