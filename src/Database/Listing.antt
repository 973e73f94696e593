-- ===== src/Database/Listing.antt =====
-- The list of a user's measurements in src/database.rs: `list_user_measurements`. A hash map gives
-- its entries in an order that Rust leaves open; the order is a parameter, `iterate`.
pub mod Statuses
pub mod Order
pub mod Complete
use saimiris_gateway.Prelude.{
  ℕ, ◌-◌, ◌^◌, String, Bool, true, ◌||◌, Option, none, some, List, [], ◌∷◌, ◌++◌, map, filter, any,
  take, is_empty, str_eq, leb, ◌==◌, if◌then◌else◌,
}
use saimiris_gateway.Prelude.Int.{ℤ, pos, negsuc}
use saimiris_gateway.Database.{
  MeasurementTracking, MeasurementStatus, MeasurementState, MeasurementSort, started, updated,
  MeasurementListFilter, measurement_in_state, MockStorage,
}
use saimiris_gateway.Database.Tracking.{aggregate}

-- An entry of `by_measurement`: a measurement and its rows, of which there is at least one.
abbrev pub Group : Type 0
Group = ℕ × (MeasurementTracking × List MeasurementTracking)

-- `by_measurement.entry(t.measurement_id).or_default().push(t)`
unfoldable pub push_row : MeasurementTracking → List Group → List Group
push_row t [] = (t.measurement_id, (t, [])) ∷ []
push_row t ((id, (r, rs)) ∷ groups) =
    let rest = push_row t groups in
    if id == t.measurement_id then (id, (r, rs ++ t ∷ [])) ∷ groups else (id, (r, rs)) ∷ rest

unfoldable pub group_rows : List Group → List MeasurementTracking → List Group
group_rows groups [] = groups
group_rows groups (t ∷ ts) = group_rows (push_row t groups) ts

abbrev pub involves : Option String → Group → Bool
involves none g = true
involves (some a) g = any (λ r. str_eq r.agent_id a) (g.1.0 ∷ g.1.1)

abbrev pub in_states : List MeasurementState → MeasurementStatus → Bool
in_states states m = is_empty states || any (measurement_in_state m) states

abbrev pub is_since : Option ℕ → MeasurementStatus → Bool
is_since none m = true
is_since (some t) m = leb t m.started_at

abbrev pub is_until : Option ℕ → MeasurementStatus → Bool
is_until none m = true
is_until (some t) m = leb m.started_at t

abbrev pub sort_key : MeasurementSort → MeasurementStatus → ℕ
sort_key started m = m.started_at
sort_key updated m = m.last_updated

-- `a` stands before `b`, or their keys are equal.
abbrev pub goes_before : MeasurementListFilter → MeasurementStatus → MeasurementStatus → Bool
goes_before f a b =
    if f.reverse
    then leb (sort_key f.sort a) (sort_key f.sort b)
    else leb (sort_key f.sort b) (sort_key f.sort a)

unfoldable pub insert_measurement :
    MeasurementListFilter → MeasurementStatus → List MeasurementStatus → List MeasurementStatus
insert_measurement f m [] = m ∷ []
insert_measurement f m (n ∷ ms) =
    let rest = insert_measurement f m ms in if goes_before f m n then m ∷ n ∷ ms else n ∷ rest

-- A stable sort.
unfoldable pub sort_measurements :
    MeasurementListFilter → List MeasurementStatus → List MeasurementStatus
sort_measurements f [] = []
sort_measurements f (m ∷ ms) = insert_measurement f m (sort_measurements f ms)

-- `limit as usize`
abbrev pub as_usize : ℤ → ℕ
as_usize (pos n) = n
as_usize (negsuc n) = 2 ^ 64 - 1 - n

unfoldable pub list_user_measurements :
    (List Group → List Group)
    → MockStorage
    → String
    → MeasurementListFilter
    → List MeasurementStatus
list_user_measurements iterate s user_hash f =
    let groups =
      iterate (group_rows [] (filter (λ t. str_eq t.user_hash user_hash) s.measurement_tracking)) in
    let measurements =
      map (λ g. aggregate g.0 user_hash g.1.0 g.1.1) (filter (involves f.agent) groups) in
    take (as_usize f.limit) (
      sort_measurements f (
        filter (is_until f.until)
          (filter (is_since f.since) (filter (in_states f.status) measurements))))
