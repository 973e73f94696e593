-- ===== src/Database/Postgres/Statuses/Arrangement.antt =====
-- A list in another order, and the sorts of the measurements and of the records of src/database.rs:
-- where no two elements have the same key, the order before the sort does not matter.
use saimiris_gateway.Prelude.{
  ℕ, Bool, List, [], ◌∷◌, map, filter, All, ◌≡◌, ◌≢◌, refl, sym, ap, ◌∙◌, arith, Bool-cases, inl,
  inr,
}
use saimiris_gateway.Database.{MeasurementStatus, MeasurementListFilter, ProbeUsageRecord}
use saimiris_gateway.Database.Recent.{insert_record, sort_records}
use saimiris_gateway.Database.Listing.{sort_key, insert_measurement, sort_measurements}

-- The same elements, in any order.
pub data Arranged {A : Type 0} : List A → List A → Type 0 where
  nil : Arranged [] []
  cons : {x : A} {xs ys : List A} → Arranged xs ys → Arranged (x ∷ xs) (x ∷ ys)
  swap : {x y : A} {xs : List A} → Arranged (x ∷ y ∷ xs) (y ∷ x ∷ xs)
  trans : {xs ys zs : List A} → Arranged xs ys → Arranged ys zs → Arranged xs zs

pub Arranged-refl : {A : Type 0} (xs : List A) → Arranged xs xs
Arranged-refl [] = nil
Arranged-refl (x ∷ xs) = cons (Arranged-refl xs)

pub map-Arranged :
    {A B : Type 0} (f : A → B) {xs ys : List A} → Arranged xs ys → Arranged (map f xs) (map f ys)
map-Arranged f nil = nil
map-Arranged f (cons h) = cons (map-Arranged f h)
map-Arranged f swap = swap
map-Arranged f (trans h k) = trans (map-Arranged f h) (map-Arranged f k)

pub filter-Arranged :
    {A : Type 0} (p : A → Bool) {xs ys : List A}
    → Arranged xs ys
    → Arranged (filter p xs) (filter p ys)
filter-Arranged p nil = nil
filter-Arranged p (cons {x} h) = elim (Bool-cases (p x)) [
  | inl e ↦ rw e (cons (filter-Arranged p h))
  | inr e ↦ rw e (filter-Arranged p h)
]
filter-Arranged p (swap {x} {y} {xs}) = elim (Bool-cases (p x)) [
  | inl e ↦ elim (Bool-cases (p y)) [
    | inl e' ↦ rw (e, e') swap
    | inr e' ↦ rw (e, e') (Arranged-refl _)
  ]
  | inr e ↦ elim (Bool-cases (p y)) [
    | inl e' ↦ rw (e, e') (Arranged-refl _)
    | inr e' ↦ rw (e, e') (Arranged-refl _)
  ]
]
filter-Arranged p (trans h k) = trans (filter-Arranged p h) (filter-Arranged p k)

All-Arranged : {A : Type 0} (P : A → Type 0) {xs ys : List A} → Arranged xs ys → All P xs → All P ys
All-Arranged P nil h = tt
All-Arranged P (cons k) (h, hs) = (h, All-Arranged P k hs)
All-Arranged P swap (h, (h', hs)) = (h', (h, hs))
All-Arranged P (trans k l) h = All-Arranged P l (All-Arranged P k h)

module _ {A : Type 0} (key : A → ℕ) where
  -- No two elements have the same key.
  abbrev pub KeysApart : List A → Type 0
  KeysApart [] = Unit
  KeysApart (x ∷ xs) = All (λ y. key x ≢ key y) xs × KeysApart xs

  KeysApart-Arranged : {xs ys : List A} → Arranged xs ys → KeysApart xs → KeysApart ys
  KeysApart-Arranged nil h = tt
  KeysApart-Arranged (cons {x} k) (h, hs) =
      (All-Arranged (λ y. key x ≢ key y) k h, KeysApart-Arranged k hs)
  KeysApart-Arranged swap h = ((λ e. h.0.0 (sym e), h.1.0), (h.0.1, h.1.1))
  KeysApart-Arranged (trans k l) h = KeysApart-Arranged l (KeysApart-Arranged k h)

  -- A sort by insertion, where the order of two insertions matters for equal keys only.
  module _ (insert : A → List A → List A) (sort : List A → List A)
      (sort_cons : (x : A) (xs : List A) → sort (x ∷ xs) ≡ insert x (sort xs))
      (insert_swap : (x y : A) (xs : List A)
        → key x ≢ key y
        → insert x (insert y xs) ≡ insert y (insert x xs)) where
    -- The sort of the same elements in another order.
    pub sort-Arranged : {xs ys : List A} → Arranged xs ys → KeysApart xs → sort xs ≡ sort ys
    sort-Arranged nil h = refl
    sort-Arranged (cons {x} {xs} {ys} k) h =
        sort_cons x xs ∙ ap (insert x) (sort-Arranged k h.1) ∙ sym (sort_cons x ys)
    sort-Arranged (swap {x} {y} {xs}) h =
        rw (sort_cons x (y ∷ xs), sort_cons y xs, sort_cons y (x ∷ xs), sort_cons x xs)
          (insert_swap x y (sort xs) h.0.0)
    sort-Arranged (trans k l) h = sort-Arranged k h ∙ sort-Arranged l (KeysApart-Arranged k h)

insert_measurement_swap :
    (f : MeasurementListFilter) (m n : MeasurementStatus) (ms : List MeasurementStatus)
    → sort_key f.sort m ≢ sort_key f.sort n
    → insert_measurement f m (insert_measurement f n ms)
      ≡ insert_measurement f n (insert_measurement f m ms)
unfolding insert_measurement
insert_measurement_swap f m n [] apart = ground arith
insert_measurement_swap f m n (l ∷ ms) apart =
    ground (arith, insert_measurement_swap f m n ms apart)

pub sort_measurements-Arranged :
    (f : MeasurementListFilter) {ms ns : List MeasurementStatus}
    → Arranged ms ns
    → KeysApart (sort_key f.sort) ms
    → sort_measurements f ms ≡ sort_measurements f ns
unfolding sort_measurements
sort_measurements-Arranged f =
    sort-Arranged (sort_key f.sort) (insert_measurement f) (sort_measurements f) (λ m ms. refl)
      (insert_measurement_swap f)

insert_record_swap :
    (q r : ProbeUsageRecord) (rs : List ProbeUsageRecord)
    → q.timestamp ≢ r.timestamp
    → insert_record q (insert_record r rs) ≡ insert_record r (insert_record q rs)
unfolding insert_record
insert_record_swap q r [] apart = ground arith
insert_record_swap q r (l ∷ rs) apart = ground (arith, insert_record_swap q r rs apart)

pub sort_records-Arranged :
    {qs rs : List ProbeUsageRecord}
    → Arranged qs rs
    → KeysApart (λ r. r.timestamp) qs
    → sort_records qs ≡ sort_records rs
unfolding sort_records
sort_records-Arranged =
    sort-Arranged (λ r. r.timestamp) insert_record sort_records (λ r rs. refl) insert_record_swap
