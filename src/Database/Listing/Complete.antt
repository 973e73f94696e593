-- ===== src/Database/Listing/Complete.antt =====
-- src/database.rs, `list_user_measurements`: the measurements that the list does not leave out.
use saimiris_gateway.Prelude.{
  ℕ, zero, suc, String, Bool, true, false, not, ◌&&◌, ◌||◌, Option, none, some, List, [], ◌∷◌, map,
  filter, any, take, length, str_eq, ◌==◌, ◌≡◌, refl, ap, subst, ◌∙◌, ◌⊎◌, ◌↔◌, arith, All,
  All-implies, Bool-cases, inl, inr,
}
use saimiris_gateway.Database.{
  MeasurementTracking, MeasurementStatus, MeasurementListFilter, MockStorage,
}
use saimiris_gateway.Database.Tracking.{aggregate, status_of, of_user, get_measurement_status}
use saimiris_gateway.Database.Listing.{
  Group, group_rows, involves, in_states, is_since, is_until, insert_measurement, sort_measurements,
  as_usize, list_user_measurements,
}
use saimiris_gateway.Database.Listing.Statuses.{
  rows_of, rows_of-group_rows, filter_twice, has_agent, involves-has_agent,
}

-- A measurement of the user that the filter asks for, by its id.
abbrev pub meets : MockStorage → String → MeasurementListFilter → ℕ → Bool
meets s u f id = elim (get_measurement_status s id u) [
  | none ↦ false
  | some m ↦
      has_agent f.agent (filter (of_user id u) s.measurement_tracking)
      && in_states f.status m
      && is_since f.since m
      && is_until f.until m
]

abbrev pub shows : ℕ → List MeasurementStatus → Bool
shows id ms = any (λ m. m.measurement_id == id) ms

All-unfilter :
    {A : Type 0} (P : A → Type 0) (p : A → Bool) (xs : List A)
    → All P (filter p xs)
    → All (λ x. p x ≡ true → P x) xs
All-unfilter P p [] h = tt
All-unfilter P p (x ∷ xs) h = elim (Bool-cases (p x)) [
  | inl e ↦ let (k, ks) = rw e at h in ((λ _. k), All-unfilter P p xs ks)
  | inr e ↦ let ks = rw e at h in ((λ e'. absurd cc), All-unfilter P p xs ks)
]

All-unmap :
    {A B : Type 0} (P : B → Type 0) (f : A → B) (xs : List A)
    → All P (map f xs)
    → All (λ x. P (f x)) xs
All-unmap P f [] h = tt
All-unmap P f (x ∷ xs) (h, hs) = (h, All-unmap P f xs hs)

module _ (P : MeasurementStatus → Type 0) (f : MeasurementListFilter) where
  All-uninsert :
      (m : MeasurementStatus) (ms : List MeasurementStatus)
      → All P (insert_measurement f m ms)
      → P m × All P ms
  unfolding insert_measurement
  All-uninsert m [] h = h
  All-uninsert m (n ∷ ms) h = ground (arith, All-uninsert m ms)

  All-unsort : (ms : List MeasurementStatus) → All P (sort_measurements f ms) → All P ms
  unfolding sort_measurements
  All-unsort [] h = tt
  All-unsort (m ∷ ms) h =
      let (k, ks) = All-uninsert m (sort_measurements f ms) h in (k, All-unsort ms ks)

-- The list is cut, or whole.
take_cases : {A : Type 0} (n : ℕ) (xs : List A) → (length (take n xs) ≡ n) ⊎ (take n xs ≡ xs)
take_cases zero xs = inl refl
take_cases (suc n) [] = inr refl
take_cases (suc n) (x ∷ xs) = elim (take_cases n xs) [
  | inl e ↦ inl (ap suc e)
  | inr e ↦ inr (ap (◌∷◌ x) e)
]

shows_self : (ms : List MeasurementStatus) → All (λ m. shows m.measurement_id ms ≡ true) ms
shows_self [] = tt
shows_self (m ∷ ms) = (
  ground arith,
  All-implies _ _ ms (λ n (h : shows n.measurement_id ms ≡ true). ground (arith, h))
      (shows_self ms),
)

rows_of-All :
    (P : Group → Type 0) (id : ℕ) (gs : List Group) (r : MeasurementTracking)
    (rs : List MeasurementTracking)
    → rows_of id gs ≡ r ∷ rs
    → All P gs
    → P (id, (r, rs))
rows_of-All P id [] r rs e h = absurd cc
rows_of-All P id ((k, (q, qs)) ∷ gs) r rs e (h, hs) = elim (Bool-cases (k == id)) [
  | inl same ↦
      let ids : k ≡ id = ground arith in
      let rows : q ∷ qs ≡ r ∷ rs = ground arith in
      let first : q ≡ r = cc in
      let others : qs ≡ rs = cc in subst P (λ i. (ids i, (first i, others i))) h
  | inr other ↦ rows_of-All P id gs r rs (ground arith) hs
]

all_or_not :
    (a b c d shown : Bool)
    → (a ≡ true → b ≡ true → c ≡ true → d ≡ true → shown ≡ true)
    → (not (a && b && c && d) || shown) ≡ true
all_or_not false b c d shown h = refl
all_or_not true false c d shown h = refl
all_or_not true true false d shown h = refl
all_or_not true true true false shown h = refl
all_or_not true true true true shown h = h refl refl refl refl

module _ (iterate : List Group → List Group)
    (iterates : (P : Group → Type 0) (gs : List Group) → All P gs ↔ All P (iterate gs))
    (s : MockStorage) (u : String) (f : MeasurementListFilter) where
  abbrev groups : List Group
  groups = group_rows [] (filter (λ t. str_eq t.user_hash u) s.measurement_tracking)

  abbrev status_of_group : Group → MeasurementStatus
  status_of_group g = aggregate g.0 u g.1.0 g.1.1

  abbrev kept : List MeasurementStatus
  kept = filter (is_until f.until) (
      filter (is_since f.since) (
        filter (in_states f.status)
          (map status_of_group (filter (involves f.agent) (iterate groups)))))

  -- A group that passes the filter is shown.
  abbrev IsShown : List MeasurementStatus → Group → Type 0
  IsShown ms g =
      involves f.agent g ≡ true
      → in_states f.status (status_of_group g) ≡ true
      → is_since f.since (status_of_group g) ≡ true
      → is_until f.until (status_of_group g) ≡ true
      → shows (status_of_group g).measurement_id ms ≡ true

  groups-IsShown :
      (ms : List MeasurementStatus) → ms ≡ sort_measurements f kept → All (IsShown ms) groups
  groups-IsShown ms whole =
      let Q : MeasurementStatus → Type 0 = λ m. shows m.measurement_id ms ≡ true in
      let sorted = subst (All Q) whole (shows_self ms) in
      (iterates (IsShown ms) groups).1 (
        All-unfilter _ (involves f.agent) (iterate groups) (
          All-unmap _ status_of_group _ (
            All-unfilter _ (in_states f.status) _ (
              All-unfilter _ (is_since f.since) _
                (All-unfilter Q (is_until f.until) _ (All-unsort Q f kept sorted))))))

  abbrev asked_of : ℕ → List MeasurementTracking → Option MeasurementStatus → Bool
  asked_of id rows none = false
  asked_of id rows (some m) =
      has_agent f.agent rows && in_states f.status m && is_since f.since m && is_until f.until m

  meets-asked_of :
      (id : ℕ) (rows : List MeasurementTracking)
      → filter (of_user id u) s.measurement_tracking ≡ rows
      → meets s u f id ≡ asked_of id rows (status_of id u rows)
  unfolding get_measurement_status
  meets-asked_of id rows own = ap (λ l. asked_of id l (status_of id u l)) own

  of_id :
      (id : ℕ) (ms : List MeasurementStatus) (rows : List MeasurementTracking)
      → filter (of_user id u) s.measurement_tracking ≡ rows
      → rows_of id groups ≡ rows
      → All (IsShown ms) groups
      → (not (meets s u f id) || shows id ms) ≡ true
  unfolding get_measurement_status status_of aggregate
  of_id id ms [] own e h = ap (λ b. not b || shows id ms) (meets-asked_of id [] own)
  of_id id ms (r ∷ rs) own e h =
      let shown = rows_of-All (IsShown ms) id groups r rs e h in
      ap (λ b. not b || shows id ms) (meets-asked_of id (r ∷ rs) own)
      ∙ all_or_not _ _ _ _ (shows id ms) (λ a. shown (involves-has_agent f.agent (id, (r, rs)) ∙ a))

  -- The list is as long as the limit, or shows each of the user's measurements that the filter asks
  -- for.
  pub list_user_measurements-shows :
      (length (list_user_measurements iterate s u f) ≡ as_usize f.limit)
      ⊎ ((id : ℕ)
          → (not (meets s u f id) || shows id (list_user_measurements iterate s u f)) ≡ true)
  unfolding list_user_measurements
  list_user_measurements-shows = elim (take_cases (as_usize f.limit) (sort_measurements f kept)) [
    | inl cut ↦ inl cut
    | inr whole ↦ inr (λ id.
        of_id id _ _ refl
          (rows_of-group_rows id [] (filter (λ t. str_eq t.user_hash u) s.measurement_tracking)
            ∙ filter_twice id u s.measurement_tracking)
          (groups-IsShown _ whole))
  ]
