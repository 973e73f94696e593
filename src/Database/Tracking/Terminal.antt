-- ===== src/Database/Tracking/Terminal.antt =====
-- What a measurement's status says of its rows.
use saimiris_gateway.Prelude.{
  ℕ, ◌≤◌, String, true, false, Option, none, some, List, [], ◌∷◌, ◌≡◌, refl, ◌↔◌, ◌≢◌, arith,
  ==_iff, length, filter, any, All, length-filter-le,
}
use saimiris_gateway.Database.{MeasurementTracking, MeasurementStatus, MockStorage}
use saimiris_gateway.Database.Tracking.{
  is_terminal, aggregate, status_of, get_measurement_status, of_user,
}

-- Every row is complete or cancelled.
abbrev pub AllTerminal : List MeasurementTracking → Type 0
AllTerminal = All (λ r. is_terminal r ≡ true)

AllTerminal-of_count :
    (rs : List MeasurementTracking) → length (filter is_terminal rs) ≡ length rs → AllTerminal rs
AllTerminal-of_count [] h = tt
AllTerminal-of_count (r ∷ rs) h =
    ground (arith, AllTerminal-of_count rs, length-filter-le is_terminal rs)

count_of_AllTerminal :
    (rs : List MeasurementTracking) → AllTerminal rs → length (filter is_terminal rs) ≡ length rs
count_of_AllTerminal [] h = refl
count_of_AllTerminal (r ∷ rs) h = ground (arith, count_of_AllTerminal rs)

none_cancelled :
    (rs : List MeasurementTracking)
    → (any (λ r. r.cancelled) rs ≡ false) ↔ All (λ r. r.cancelled ≡ false) rs
none_cancelled [] = (λ _. tt, λ _. refl)
none_cancelled (r ∷ rs) =
    (λ h. ground (arith, (none_cancelled rs).0), λ h. ground (arith, (none_cancelled rs).1))

-- A status says of the rows that it is made from: how many they are, whether all are complete or
-- cancelled, and whether none is cancelled. Without rows there is no status.
abbrev pub Reflects : List MeasurementTracking → Option MeasurementStatus → Type 0
Reflects rs none = rs ≡ []
Reflects rs (some st) =
    (rs ≢ [])
    × (st.total_agents ≡ length rs)
    × ((st.measurement_complete ≡ true) ↔ AllTerminal rs)
    × ((st.measurement_cancelled ≡ false) ↔ All (λ r. r.cancelled ≡ false) rs)
    × (st.completed_agents ≤ st.total_agents)

pub status_of-Reflects :
    (m : ℕ) (u : String) (rs : List MeasurementTracking) → Reflects rs (status_of m u rs)
unfolding status_of aggregate
status_of-Reflects m u [] = refl
status_of-Reflects m u (r ∷ rs) = (
  λ e. cc,
  refl,
  (
    λ h. AllTerminal-of_count (r ∷ rs) ((==_iff _ _).0 h),
    λ h. (==_iff _ _).1 (count_of_AllTerminal (r ∷ rs) h),
  ),
  none_cancelled (r ∷ rs),
  length-filter-le (λ x. x.is_complete) (r ∷ rs),
)

-- The status of a user's measurement exists exactly if the user has rows of it; it is complete
-- exactly if each of them is complete or cancelled, and cancelled exactly if one of them is.
pub get_measurement_status-Reflects :
    (s : MockStorage) (m : ℕ) (u : String)
    → Reflects (filter (of_user m u) s.measurement_tracking) (get_measurement_status s m u)
unfolding get_measurement_status
get_measurement_status-Reflects s m u = status_of-Reflects m u _
