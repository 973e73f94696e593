-- ===== src/Handlers/Query/Words.antt =====
-- The words of a status filter.
use saimiris_gateway.Prelude.{
  ℕ, String, List, [], ◌∷◌, ◌++◌, map, filter, not, is_empty, ◌≡◌, refl, ap, ◌∙◌, codes, ok, some,
}
use saimiris_gateway.Database.{MeasurementState, complete, in_progress, cancelled}
use saimiris_gateway.Prelude.Scan.{trim}
use saimiris_gateway.Prelude.Scan.{split_commas}
use saimiris_gateway.Handlers.Query.{parse_status, parse_state, parse_states}

abbrev pub name : MeasurementState → List ℕ
name complete = codes "complete"
name in_progress = codes "in-progress"
name cancelled = codes "cancelled"

-- The names of the states with commas between them.
abbrev pub join_commas : List MeasurementState → List ℕ
join_commas [] = []
join_commas (state ∷ []) = name state
join_commas (state ∷ next ∷ states) = name state ++ (b',' ∷ join_commas (next ∷ states))

abbrev pub status_parts : List ℕ → List (List ℕ)
status_parts raw = filter (λ s. not (is_empty s)) (map trim (split_commas raw))

status_parts-append :
    (state : MeasurementState) (rest : List ℕ)
    → status_parts (name state ++ (b',' ∷ rest)) ≡ name state ∷ status_parts rest
status_parts-append complete rest = refl
status_parts-append in_progress rest = refl
status_parts-append cancelled rest = refl

status_parts-join_commas :
    (states : List MeasurementState) → status_parts (join_commas states) ≡ map name states
status_parts-join_commas [] = refl
status_parts-join_commas (complete ∷ []) = refl
status_parts-join_commas (in_progress ∷ []) = refl
status_parts-join_commas (cancelled ∷ []) = refl
status_parts-join_commas (state ∷ next ∷ states) =
    status_parts-append state (join_commas (next ∷ states))
    ∙ ap (λ parts. name state ∷ parts) (status_parts-join_commas (next ∷ states))

parse_state-name : (state : MeasurementState) → parse_state (name state) ≡ ok state
unfolding parse_state
parse_state-name complete = refl
parse_state-name in_progress = refl
parse_state-name cancelled = refl

parse_states-name : (states : List MeasurementState) → parse_states (map name states) ≡ ok states
unfolding parse_states
parse_states-name [] = refl
parse_states-name (state ∷ states) = rw (parse_state-name state, parse_states-name states) refl

-- The names of any states, in any order and number, with commas between them, are read back as these
-- states in this order.
pub parse_status-join_commas :
    (raw : String) (states : List MeasurementState)
    → codes raw ≡ join_commas states
    → parse_status (some raw) ≡ ok states
unfolding parse_status
parse_status-join_commas raw states h =
    rw (h, status_parts-join_commas states) (parse_states-name states)
