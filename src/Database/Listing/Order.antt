-- ===== src/Database/Listing/Order.antt =====
-- The order of the list of a user's measurements.
use saimiris_gateway.Prelude.{
  ℕ, zero, suc, String, true, false, List, [], ◌∷◌, take, ◌≡◌, arith, Bool-cases, inl, inr,
}
use saimiris_gateway.Database.{MeasurementStatus, MeasurementListFilter, MockStorage}
use saimiris_gateway.Database.Listing.{
  Group, goes_before, insert_measurement, sort_measurements, list_user_measurements,
}

abbrev HeadAfter : MeasurementListFilter → MeasurementStatus → List MeasurementStatus → Type 0
HeadAfter f m [] = Unit
HeadAfter f m (n ∷ ms) = goes_before f m n ≡ true

-- Each entry goes before the one after it.
abbrev pub Ordered : MeasurementListFilter → List MeasurementStatus → Type 0
Ordered f [] = Unit
Ordered f (m ∷ ms) = HeadAfter f m ms × Ordered f ms

goes_before_total :
    (f : MeasurementListFilter) (m n : MeasurementStatus)
    → goes_before f m n ≡ false
    → goes_before f n m ≡ true
goes_before_total f m n h = ground arith

insert-HeadAfter :
    (f : MeasurementListFilter) (m n : MeasurementStatus) (ms : List MeasurementStatus)
    → goes_before f n m ≡ true
    → HeadAfter f n ms
    → HeadAfter f n (insert_measurement f m ms)
unfolding insert_measurement
insert-HeadAfter f m n [] h k = h
insert-HeadAfter f m n (o ∷ ms) h k = elim (Bool-cases (goes_before f m o)) [
  | inl e ↦ rw e h
  | inr e ↦ rw e k
]

insert-Ordered :
    (f : MeasurementListFilter) (m : MeasurementStatus) (ms : List MeasurementStatus)
    → Ordered f ms
    → Ordered f (insert_measurement f m ms)
unfolding insert_measurement
insert-Ordered f m [] h = (tt, tt)
insert-Ordered f m (n ∷ ms) (h, hs) = elim (Bool-cases (goes_before f m n)) [
  | inl e ↦ rw e (e, (h, hs))
  | inr e ↦ rw e (insert-HeadAfter f m n ms (goes_before_total f m n e) h, insert-Ordered f m ms hs)
]

sort-Ordered :
    (f : MeasurementListFilter) (ms : List MeasurementStatus) → Ordered f (sort_measurements f ms)
unfolding sort_measurements
sort-Ordered f [] = tt
sort-Ordered f (m ∷ ms) = insert-Ordered f m (sort_measurements f ms) (sort-Ordered f ms)

take-HeadAfter :
    (f : MeasurementListFilter) (m : MeasurementStatus) (n : ℕ) (ms : List MeasurementStatus)
    → HeadAfter f m ms
    → HeadAfter f m (take n ms)
take-HeadAfter f m zero ms h = tt
take-HeadAfter f m (suc n) [] h = tt
take-HeadAfter f m (suc n) (k ∷ ms) h = h

take-Ordered :
    (f : MeasurementListFilter) (n : ℕ) (ms : List MeasurementStatus)
    → Ordered f ms
    → Ordered f (take n ms)
take-Ordered f zero ms h = tt
take-Ordered f (suc n) [] h = tt
take-Ordered f (suc n) (m ∷ ms) (h, hs) = (take-HeadAfter f m n ms h, take-Ordered f n ms hs)

-- The list is in the order that the filter asks for: by the start or the last update, the newest
-- first, or the oldest first in reverse; in whatever order the hash map gives its entries.
pub list_user_measurements-Ordered :
    (iterate : List Group → List Group) (s : MockStorage) (user_hash : String)
    (f : MeasurementListFilter)
    → Ordered f (list_user_measurements iterate s user_hash f)
unfolding list_user_measurements
list_user_measurements-Ordered iterate s user_hash f = take-Ordered f _ _ (sort-Ordered f _)
