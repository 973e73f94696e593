-- ===== src/Database/Postgres/Keys.antt =====
-- No two tracking rows have the same measurement, user and agent.
use saimiris_gateway.Prelude.{
  ℕ, String, Bool, true, false, ◌||◌, none, some, List, [], ◌∷◌, ◌++◌, map, filter, any, length,
  eq_iff, ◌≡◌, refl, ◌∙◌, arith, Bool-cases, inl, inr,
}
use saimiris_gateway.Database.{MeasurementTracking}
use saimiris_gateway.Database.Tracking.{update_first, cancel_rows, is_open}
use saimiris_gateway.Database.Postgres.Rows.{where_key, first_row, update_where}

abbrev pub same_row : MeasurementTracking → MeasurementTracking → Bool
same_row q r = where_key q.measurement_id q.user_hash q.agent_id r

abbrev pub Keyed : List MeasurementTracking → Type 0
Keyed [] = Unit
Keyed (r ∷ rs) = (any (same_row r) rs ≡ false) × Keyed rs

any-append :
    {A : Type 0} (p : A → Bool) (xs : List A) (x : A) → any p (xs ++ x ∷ []) ≡ any p xs || p x
any-append p [] x = ground arith
any-append p (y ∷ ys) x = ground (arith, any-append p ys x)

same_row_sym : (q r : MeasurementTracking) → same_row q r ≡ same_row r q
same_row_sym q r = ground (
  arith,
  eq_iff q.user_hash r.user_hash,
  eq_iff r.user_hash q.user_hash,
  eq_iff q.agent_id r.agent_id,
  eq_iff r.agent_id q.agent_id,
)

pub Keyed-append :
    (r : MeasurementTracking) (rs : List MeasurementTracking)
    → any (same_row r) rs ≡ false
    → Keyed rs
    → Keyed (rs ++ r ∷ [])
Keyed-append r [] h k = (refl, tt)
Keyed-append r (q ∷ qs) h (k, ks) = (
  rw (any-append (same_row q) qs r) (ground (arith, same_row_sym q r)),
  Keyed-append r qs (ground arith) ks,
)

-- A change that keeps the key of a row.
abbrev pub KeepsKey : (MeasurementTracking → MeasurementTracking) → Type 0
KeepsKey f =
    (r : MeasurementTracking)
    → ((f r).measurement_id ≡ r.measurement_id)
      × ((f r).user_hash ≡ r.user_hash)
      × ((f r).agent_id ≡ r.agent_id)

module _ (condition : MeasurementTracking → Bool)
    (change : MeasurementTracking → MeasurementTracking) (keeps : KeepsKey change) where
  any-update_where :
      (m : ℕ) (u a : String) (rs : List MeasurementTracking)
      → any (where_key m u a) (update_where condition change rs) ≡ any (where_key m u a) rs
  unfolding update_where
  any-update_where m u a [] = refl
  any-update_where m u a (r ∷ rs) = elim (Bool-cases (condition r)) [
    | inl e ↦
        rw (e, (keeps r).0, (keeps r).1, (keeps r).2) (ground (arith, any-update_where m u a rs))
    | inr e ↦ rw e (ground (arith, any-update_where m u a rs))
  ]

  same_row_kept :
      (r : MeasurementTracking) (rs : List MeasurementTracking)
      → any (same_row (change r)) rs ≡ any (same_row r) rs
  same_row_kept r rs = λ i. any (where_key ((keeps r).0 i) ((keeps r).1 i) ((keeps r).2 i)) rs

  kept :
      (r : MeasurementTracking) (rs : List MeasurementTracking)
      → any (same_row r) rs ≡ false
      → any (same_row r) (update_where condition change rs) ≡ false
  kept r rs h = any-update_where r.measurement_id r.user_hash r.agent_id rs ∙ h

  pub Keyed-update_where :
      (rs : List MeasurementTracking) → Keyed rs → Keyed (update_where condition change rs)
  unfolding update_where
  Keyed-update_where [] h = tt
  Keyed-update_where (r ∷ rs) (h, hs) = elim (Bool-cases (condition r)) [
    | inl e ↦ rw e (same_row_kept r _ ∙ kept r rs h, Keyed-update_where rs hs)
    | inr e ↦ rw e (kept r rs h, Keyed-update_where rs hs)
  ]

update_where_none :
    (condition : MeasurementTracking → Bool) (change : MeasurementTracking → MeasurementTracking)
    (rs : List MeasurementTracking)
    → any condition rs ≡ false
    → update_where condition change rs ≡ rs
unfolding update_where
update_where_none condition change [] h = refl
update_where_none condition change (r ∷ rs) h =
    ground (arith, update_where_none condition change rs)

any-same_row :
    (m : ℕ) (u a : String) (r : MeasurementTracking) (rs : List MeasurementTracking)
    → where_key m u a r ≡ true
    → any (where_key m u a) rs ≡ any (same_row r) rs
any-same_row m u a r [] h = refl
any-same_row m u a r (q ∷ qs) h =
    ground (arith, any-same_row m u a r qs h, eq_iff r.user_hash u, eq_iff r.agent_id a)

-- Where the rows are keyed, the UPDATE of all rows with a key and the change of the first are one.
pub update_first-update_where :
    (m : ℕ) (u a : String) (change : MeasurementTracking → MeasurementTracking)
    (rs : List MeasurementTracking)
    → Keyed rs
    → update_first (where_key m u a) change rs
      ≡ elim (first_row (map change (filter (where_key m u a) rs))) [
        | some r ↦ some (r, update_where (where_key m u a) change rs)
        | none ↦ none
      ]
unfolding update_first update_where
update_first-update_where m u a change [] h = refl
update_first-update_where m u a change (r ∷ rs) (h, hs) = elim (Bool-cases (where_key m u a r)) [
  | inl e ↦
      let others : update_where (where_key m u a) change rs ≡ rs =
        update_where_none (where_key m u a) change rs (any-same_row m u a r rs e ∙ h) in
      ground (arith, others)
  | inr e ↦ rw e (ground (arith, update_first-update_where m u a change rs hs))
]

pub cancel_rows-update_where :
    (m : ℕ) (u : String) (now : ℕ) (rs : List MeasurementTracking)
    → cancel_rows m u now rs ≡ (
      length (filter (is_open m u) rs),
      update_where (is_open m u) (λ r. record r { cancelled = true; updated_at = now }) rs,
    )
unfolding cancel_rows update_where
cancel_rows-update_where m u now [] = refl
cancel_rows-update_where m u now (r ∷ rs) = ground (arith, cancel_rows-update_where m u now rs)
