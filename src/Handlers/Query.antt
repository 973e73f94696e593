-- ===== src/Handlers/Query.antt =====
-- src/lib.rs: `list_measurements_handler` and the query it reads. The parsers of chrono are
-- parameters; numbers and words are read as Rust's standard library reads them.
pub mod Listed
pub mod Words
use saimiris_gateway.Prelude.{
  ℕ, zero, suc, ◌+◌, ◌-◌, ◌*◌, ◌^◌, String, Bool, true, false, not, ◌&&◌, ◌||◌, Option, none, some,
  List, [], ◌∷◌, ◌++◌, map, filter, is_empty, any, ltb, leb, ◌==◌, str_eq, codes, codes_eq,
  trim_matches, if◌then◌else◌, Result, ok, err, ◌>>=◌,
}
use saimiris_gateway.Prelude.Scan.{parse_i64, trim, split_commas}
use saimiris_gateway.Prelude.Int.{ℤ, pos, negsuc, ltb_ℤ}
use saimiris_gateway.Http.{Failure, responds, Handler, bad_request, internal_server_error}
use saimiris_gateway.Database.{
  MeasurementStatus, MeasurementState, complete, in_progress, cancelled, MeasurementSort, started,
  updated, MeasurementListFilter,
}

pub record ListMeasurementsQuery : Type 0 where
  pub limit : Option String
  pub status : Option String
  pub since : Option String
  pub until : Option String
  pub agent : Option String
  pub sort : Option String
  pub reverse : Option String

-- The messages; a part of a text is given by its characters.
pub data QueryError : Type 0 where
  invalid_limit list_failed : QueryError
  invalid_status : List ℕ → QueryError
  invalid_time : String → String → QueryError
  invalid_sort invalid_reverse : String → QueryError

-- What `parse_from_rfc3339` and the two uses of `parse_from_str` accept, as instants; a date is its
-- midnight.
pub record TimeParsers : Type 0 where
  pub from_rfc3339 : String → Option ℕ
  pub from_date_time : String → Option ℕ
  pub from_date : String → Option ℕ

abbrev pub or_else : {A : Type 0} → Option A → Option A → Option A
or_else (some a) b = some a
or_else none b = b

unfoldable pub parse_time : TimeParsers → String → Option ℕ
parse_time t s = or_else (t.from_rfc3339 s) (or_else (t.from_date_time s) (t.from_date s))

abbrev pub clamp : ℤ → ℤ → ℤ → ℤ
clamp low high n = if ltb_ℤ n low then low else if ltb_ℤ high n then high else n

-- `as_deref()`, with an empty text as none.
abbrev pub non_empty : Option String → Option String
non_empty none = none
non_empty (some s) = if str_eq s "" then none else some s

abbrev pub limit_of : Option ℤ → Result QueryError ℤ
limit_of (some n) = ok (clamp (pos 1) (pos 100) n)
limit_of none = err invalid_limit

-- The value lies in 1..100, so `as i32` keeps it.
unfoldable pub parse_limit : Option String → Result QueryError ℤ
parse_limit limit = elim (non_empty limit) [
  | none ↦ ok (pos 20)
  | some raw ↦ limit_of (parse_i64 (codes raw))
]

unfoldable pub parse_state : List ℕ → Result QueryError MeasurementState
parse_state part =
    if codes_eq part (codes "complete")
    then ok complete
    else if codes_eq part (codes "in-progress")
    then ok in_progress
    else if codes_eq part (codes "cancelled")
    then ok cancelled
    else err (invalid_status part)

unfoldable pub parse_states : List (List ℕ) → Result QueryError (List MeasurementState)
parse_states [] = ok []
parse_states (part ∷ parts) = do
  state ← parse_state part
  states ← parse_states parts
  ok (state ∷ states)

unfoldable pub parse_status : Option String → Result QueryError (List MeasurementState)
parse_status none = ok []
parse_status (some raw) =
    parse_states (filter (λ s. not (is_empty s)) (map trim (split_commas (codes raw))))

abbrev pub window_of : String → String → Option ℕ → Result QueryError (Option ℕ)
window_of label s (some t) = ok (some t)
window_of label s none = err (invalid_time label s)

unfoldable pub parse_window : TimeParsers → String → Option String → Result QueryError (Option ℕ)
parse_window times label v = elim (non_empty v) [
  | some s ↦ window_of label s (parse_time times s)
  | none ↦ ok none
]

unfoldable pub parse_sort : Option String → Result QueryError MeasurementSort
parse_sort sort = elim (non_empty sort) [
  | none ↦ ok updated
  | some s ↦
      if str_eq s "updated"
      then ok updated
      else if str_eq s "started"
      then ok started
      else err (invalid_sort s)
]

unfoldable pub parse_reverse : Option String → Result QueryError Bool
parse_reverse reverse = elim (non_empty reverse) [
  | none ↦ ok false
  | some s ↦
      if str_eq s "false" || str_eq s "0"
      then ok false
      else if str_eq s "true" || str_eq s "1"
      then ok true
      else err (invalid_reverse s)
]

unfoldable pub parse_query :
    TimeParsers → ListMeasurementsQuery → Result QueryError MeasurementListFilter
parse_query times params = do
  limit ← parse_limit params.limit
  status ← parse_status params.status
  since ← parse_window times "since" params.since
  until ← parse_window times "until" params.until
  sort ← parse_sort params.sort
  reverse ← parse_reverse params.reverse
  ok (record {
    status = status;
    since = since;
    until = until;
    agent = non_empty params.agent;
    sort = sort;
    reverse = reverse;
    limit = limit;
  })

-- An item of the reply has all of the status but the user's hash.
pub record MeasurementItem : Type 0 where
  pub measurement_id : ℕ
  pub total_agents : ℕ
  pub completed_agents : ℕ
  pub total_expected_probes : ℤ
  pub total_sent_probes : ℤ
  pub measurement_complete : Bool
  pub measurement_cancelled : Bool
  pub started_at : ℕ
  pub last_updated : ℕ

abbrev pub item : MeasurementStatus → MeasurementItem
item m = record {
  measurement_id = m.measurement_id;
  total_agents = m.total_agents;
  completed_agents = m.completed_agents;
  total_expected_probes = m.total_expected_probes;
  total_sent_probes = m.total_sent_probes;
  measurement_complete = m.measurement_complete;
  measurement_cancelled = m.measurement_cancelled;
  started_at = m.started_at;
  last_updated = m.last_updated;
}

module _ {S : Type 0} (times : TimeParsers) (hash_user_identifier : String → String)
    (list_user_measurements : S
      → String
      → MeasurementListFilter
      → Result String (List MeasurementStatus)) where
  abbrev pub list_reply :
      Result String (List MeasurementStatus) → Result (Failure QueryError) (List MeasurementItem)
  list_reply (ok measurements) = ok (map item measurements)
  list_reply (err _) = err (responds internal_server_error list_failed)

  abbrev pub list_with :
      String
      → Result QueryError MeasurementListFilter
      → S
      → Result (Failure QueryError) (List MeasurementItem)
  list_with sub (err e) s = err (responds bad_request e)
  list_with sub (ok f) s = list_reply (list_user_measurements s (hash_user_identifier sub) f)

  unfoldable pub list_measurements_handler :
      String → ListMeasurementsQuery → Handler S QueryError (List MeasurementItem)
  list_measurements_handler sub params s = (list_with sub (parse_query times params) s, s)
