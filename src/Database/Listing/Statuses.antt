-- ===== src/Database/Listing/Statuses.antt =====
-- What the list shows of a user's measurements.
use saimiris_gateway.Prelude.{
  ℕ, ◌≤◌, String, Bool, true, false, Option, none, some, any, ◌↔◌, List, [], ◌∷◌, ◌++◌, map, filter,
  length, All-take, All-implies, length-take, str_eq, ◌==◌, if◌then◌else◌, ◌≡◌, refl, sym, ap, ◌∙◌,
  arith, All, append-nil, append_assoc, Bool-cases, inl, inr,
}
use saimiris_gateway.Database.{
  MeasurementTracking, MeasurementStatus, MeasurementListFilter, MockStorage,
}
use saimiris_gateway.Database.Tracking.{aggregate, status_of, of_user, get_measurement_status}
use saimiris_gateway.Database.Listing.{
  Group, push_row, group_rows, involves, in_states, is_since, is_until, insert_measurement,
  sort_measurements, as_usize, list_user_measurements,
}

abbrev pub rows_of : ℕ → List Group → List MeasurementTracking
rows_of id [] = []
rows_of id ((k, (r, rs)) ∷ gs) = if k == id then r ∷ rs else rows_of id gs

abbrev Apart : List Group → Type 0
Apart [] = Unit
Apart ((k, _) ∷ gs) = All (λ (g : Group). (k == g.0) ≡ false) gs × Apart gs

rows_of-push_row :
    (id : ℕ) (t : MeasurementTracking) (gs : List Group)
    → rows_of id (push_row t gs)
      ≡ (if t.measurement_id == id then rows_of id gs ++ t ∷ [] else rows_of id gs)
unfolding push_row
rows_of-push_row id t [] = ground arith
rows_of-push_row id t ((k, (r, rs)) ∷ gs) = ground (arith, rows_of-push_row id t gs)

pub rows_of-group_rows :
    (id : ℕ) (gs : List Group) (ts : List MeasurementTracking)
    → rows_of id (group_rows gs ts) ≡ rows_of id gs ++ filter (λ t. t.measurement_id == id) ts
unfolding group_rows
rows_of-group_rows id gs [] = sym (append-nil _)
rows_of-group_rows id gs (t ∷ ts) =
    rows_of-group_rows id (push_row t gs) ts
    ∙ rw rows_of-push_row (
        ground
          (arith, append_assoc (rows_of id gs) (t ∷ []) (filter (λ x. x.measurement_id == id) ts)))

apart_from :
    (j : ℕ) (t : MeasurementTracking) (gs : List Group)
    → (j == t.measurement_id) ≡ false
    → All (λ (g : Group). (j == g.0) ≡ false) gs
    → All (λ (g : Group). (j == g.0) ≡ false) (push_row t gs)
unfolding push_row
apart_from j t [] h a = (h, tt)
apart_from j t ((k, (r, rs)) ∷ gs) h a = ground (arith, apart_from j t gs)

push_row-Apart : (t : MeasurementTracking) (gs : List Group) → Apart gs → Apart (push_row t gs)
unfolding push_row
push_row-Apart t [] h = (tt, tt)
push_row-Apart t ((k, (r, rs)) ∷ gs) h = ground (arith, push_row-Apart t gs, apart_from k t gs)

group_rows-Apart :
    (gs : List Group) (ts : List MeasurementTracking) → Apart gs → Apart (group_rows gs ts)
unfolding group_rows
group_rows-Apart gs [] h = h
group_rows-Apart gs (t ∷ ts) h = group_rows-Apart (push_row t gs) ts (push_row-Apart t gs h)

rows_of_kept :
    (k : ℕ) (row : MeasurementTracking × List MeasurementTracking) (gs hs : List Group)
    → All (λ (g : Group). (k == g.0) ≡ false) hs
    → All (λ g. rows_of g.0 gs ≡ g.1.0 ∷ g.1.1) hs
    → All (λ g. rows_of g.0 ((k, row) ∷ gs) ≡ g.1.0 ∷ g.1.1) hs
rows_of_kept k row gs [] a h = tt
rows_of_kept k row gs (g ∷ hs) (a, as_) (h, hs_) = (rw a h, rows_of_kept k row gs hs as_ hs_)

entries_lem : (gs : List Group) → Apart gs → All (λ g. rows_of g.0 gs ≡ g.1.0 ∷ g.1.1) gs
entries_lem [] h = tt
entries_lem ((k, (r, rs)) ∷ gs) (a, apart) =
    (ground arith, rows_of_kept k (r, rs) gs gs a (entries_lem gs apart))

pub filter_twice :
    (id : ℕ) (u : String) (ts : List MeasurementTracking)
    → filter (λ t. t.measurement_id == id) (filter (λ t. str_eq t.user_hash u) ts)
      ≡ filter (of_user id u) ts
filter_twice id u [] = refl
filter_twice id u (t ∷ ts) = ground (arith, filter_twice id u ts)

All-map :
    {A B : Type 0} (P : B → Type 0) (f : A → B) (xs : List A)
    → All (λ x. P (f x)) xs
    → All P (map f xs)
All-map P f [] h = tt
All-map P f (x ∷ xs) (h, hs) = (h, All-map P f xs hs)

All-filter_and :
    {A : Type 0} (P : A → Type 0) (p : A → Bool) (xs : List A)
    → All P xs
    → All (λ x. P x × (p x ≡ true)) (filter p xs)
All-filter_and P p [] h = tt
All-filter_and P p (x ∷ xs) (h, hs) = elim (Bool-cases (p x)) [
  | inl e ↦ rw e ((h, e), All-filter_and P p xs hs)
  | inr e ↦ rw e (All-filter_and P p xs hs)
]

All-insert :
    (P : MeasurementStatus → Type 0) (f : MeasurementListFilter) (m : MeasurementStatus)
    (ms : List MeasurementStatus)
    → P m
    → All P ms
    → All P (insert_measurement f m ms)
unfolding insert_measurement
All-insert P f m [] h hs = (h, tt)
All-insert P f m (n ∷ ms) h (k, ks) = ground (arith, All-insert P f m ms h ks)

All-sort :
    (P : MeasurementStatus → Type 0) (f : MeasurementListFilter) (ms : List MeasurementStatus)
    → All P ms
    → All P (sort_measurements f ms)
unfolding sort_measurements
All-sort P f [] h = tt
All-sort P f (m ∷ ms) (h, hs) = All-insert P f m (sort_measurements f ms) h (All-sort P f ms hs)

-- The rows are those that a filter for an agent asks for.
abbrev pub has_agent : Option String → List MeasurementTracking → Bool
has_agent none rows = true
has_agent (some a) rows = any (λ r. str_eq r.agent_id a) rows

-- What a measurement in the list is: the status of the user's measurement, which has a row of the
-- agent that the filter asks for, and is in a state and a window of time that it asks for.
abbrev pub IsListed : MockStorage → String → MeasurementListFilter → MeasurementStatus → Type 0
IsListed s u f m =
    (get_measurement_status s m.measurement_id u ≡ some m)
    × (has_agent f.agent (filter (of_user m.measurement_id u) s.measurement_tracking) ≡ true)
    × (in_states f.status m ≡ true)
    × (is_since f.since m ≡ true)
    × (is_until f.until m ≡ true)

-- The rows of a group are those of its measurement and the user.
pub groups_hold :
    (u : String) (rows : List MeasurementTracking)
    → All
        (λ (g : Group). g.1.0 ∷ g.1.1 ≡ filter (of_user g.0 u) rows)
        (group_rows [] (filter (λ t. str_eq t.user_hash u) rows))
groups_hold u rows =
    let own = filter (λ t. str_eq t.user_hash u) rows in
    All-implies _ _ (group_rows [] own)
      (λ g e. sym e ∙ rows_of-group_rows g.0 [] own ∙ filter_twice g.0 u rows)
      (entries_lem (group_rows [] own) (group_rows-Apart [] own tt))

pub involves-has_agent :
    (agent : Option String) (g : Group) → involves agent g ≡ has_agent agent (g.1.0 ∷ g.1.1)
involves-has_agent none g = refl
involves-has_agent (some a) g = refl

group_status :
    (s : MockStorage) (u : String) (f : MeasurementListFilter) (g : Group)
    → g.1.0 ∷ g.1.1 ≡ filter (of_user g.0 u) s.measurement_tracking
    → involves f.agent g ≡ true
    → (get_measurement_status s g.0 u ≡ some (aggregate g.0 u g.1.0 g.1.1))
      × (has_agent f.agent (filter (of_user g.0 u) s.measurement_tracking) ≡ true)
unfolding get_measurement_status status_of
group_status s u f g e h = (
  ap (status_of g.0 u) (sym e),
  ap (has_agent f.agent) (sym e) ∙ sym (involves-has_agent f.agent g) ∙ h,
)

-- In whatever order the hash map gives its entries: each measurement that the list shows is one of
-- the user's, with the status that the look-up of this measurement alone gives, and it passes the
-- filter; and the list is no longer than the limit.
pub list_user_measurements-IsListed :
    (iterate : List Group → List Group)
    (iterates : (P : Group → Type 0) (gs : List Group) → All P gs ↔ All P (iterate gs))
    (s : MockStorage) (u : String) (f : MeasurementListFilter)
    → All (IsListed s u f) (list_user_measurements iterate s u f)
      × (length (list_user_measurements iterate s u f) ≤ as_usize f.limit)
unfolding list_user_measurements aggregate
list_user_measurements-IsListed iterate iterates s u f =
    let groups = group_rows [] (filter (λ t. str_eq t.user_hash u) s.measurement_tracking) in
    let held = (iterates _ groups).0 (groups_hold u s.measurement_tracking) in
    let statuses =
      All-map
        (λ m.
          (get_measurement_status s m.measurement_id u ≡ some m)
          × (has_agent f.agent (filter (of_user m.measurement_id u) s.measurement_tracking) ≡ true))
        (λ (g : Group). aggregate g.0 u g.1.0 g.1.1) (filter (involves f.agent) (iterate groups))
        (All-implies _ _ _ (λ g h. group_status s u f g h.0 h.1)
          (All-filter_and _ (involves f.agent) (iterate groups) held)) in
    let kept =
      All-filter_and _ (is_until f.until) _ (
        All-filter_and _ (is_since f.since) _ (All-filter_and _ (in_states f.status) _ statuses)) in
    (
      All-take (IsListed s u f) (as_usize f.limit) _ (
          All-sort (IsListed s u f) f _ (
            All-implies _ (IsListed s u f) _ (λ m h. (h.0.0.0.0, h.0.0.0.1, h.0.0.1, h.0.1, h.1))
              kept)),
      length-take (as_usize f.limit) _,
    )
