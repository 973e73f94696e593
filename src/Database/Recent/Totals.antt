-- ===== src/Database/Recent/Totals.antt =====
-- What the recent usage shows.
use saimiris_gateway.Prelude.{
  ℕ, ◌≤◌, true, false, Option, none, some, List, [], ◌∷◌, map, filter, length, eq_iff, eq_refl,
  if◌then◌else◌, ◌≡◌, refl, sym, ◌∙◌, subst, All-take, All-implies, length-take, arith, All,
  Bool-cases, inl, inr,
}
use saimiris_gateway.Prelude.Int.{ℤ}
use saimiris_gateway.Database.{ProbeUsageRecord, MeasurementTracking, MockStorage}
use saimiris_gateway.Database.Listing.{as_usize}
use saimiris_gateway.Database.Recent.{
  Key, same_key, key_of, Entry, add_row, count_row, count_rows, usage_record, insert_record,
  sort_records, get_recent,
}

-- The running total of the rows.
abbrev pub tally : Option (ℤ × ℕ) → List MeasurementTracking → Option (ℤ × ℕ)
tally o [] = o
tally (some e) (t ∷ ts) = tally (some (add_row e t)) ts
tally none (t ∷ ts) = tally (some (t.sent_probes, t.updated_at)) ts

abbrev of_key : Key → List Entry → Option (ℤ × ℕ)
of_key k [] = none
of_key k ((j, e) ∷ es) = if same_key j k then some e else of_key k es

same_key→eq : (j k : Key) → same_key j k ≡ true → j ≡ k
same_key→eq (a, u) (b, v) h =
    let ids : a ≡ b = ground arith in let hashes : u ≡ v = (eq_iff u v).0 (ground arith) in cc

same_key_refl : (k : Key) → same_key k k ≡ true
same_key_refl (a, u) = ground (arith, eq_refl u)

differ : (l : Key) → same_key l l ≡ false → ⊥
differ l h = let same = same_key_refl l in cc

same_key_apart : (j k l : Key) → same_key j l ≡ false → same_key j k ≡ true → same_key l k ≡ false
same_key_apart j k l h e = elim (Bool-cases (same_key l k)) [
  | inr no_match ↦ no_match
  | inl e' ↦
      let same : j ≡ l = same_key→eq j k e ∙ sym (same_key→eq l k e') in
      absurd (differ l (subst (λ i. same_key i l ≡ false) same h))
]

of_key-count_row :
    (k : Key) (t : MeasurementTracking) (es : List Entry)
    → of_key k (count_row t es)
      ≡ (if same_key (key_of t) k then tally (of_key k es) (t ∷ []) else of_key k es)
unfolding count_row
of_key-count_row k t [] = refl
of_key-count_row k t ((j, e) ∷ es) = elim (Bool-cases (same_key j (key_of t))) [
  | inl same ↦ rw same (elim (Bool-cases (same_key (key_of t) k)) [
    | inl hit ↦
        let there : same_key j k ≡ true =
          subst (λ i. same_key i k ≡ true) (sym (same_key→eq j (key_of t) same)) hit in
        rw (there, hit) refl
    | inr miss ↦
        let there : same_key j k ≡ false =
          subst (λ i. same_key i k ≡ false) (sym (same_key→eq j (key_of t) same)) miss in
        rw (there, miss) refl
  ])
  | inr other ↦ rw other (elim (Bool-cases (same_key j k)) [
    | inl hit ↦ rw (hit, same_key_apart j k (key_of t) other hit) refl
    | inr miss ↦ rw miss (of_key-count_row k t es)
  ])
]

tally_step :
    (o : Option (ℤ × ℕ)) (t : MeasurementTracking) (ts : List MeasurementTracking)
    → tally (tally o (t ∷ [])) ts ≡ tally o (t ∷ ts)
tally_step none t ts = refl
tally_step (some e) t ts = refl

of_key-count_rows :
    (k : Key) (es : List Entry) (ts : List MeasurementTracking)
    → of_key k (count_rows es ts) ≡ tally (of_key k es) (filter (λ t. same_key (key_of t) k) ts)
unfolding count_rows
of_key-count_rows k es [] = refl
of_key-count_rows k es (t ∷ ts) =
    of_key-count_rows k (count_row t es) ts
    ∙ rw (of_key-count_row k t es) (elim (Bool-cases (same_key (key_of t) k)) [
      | inl hit ↦ rw hit (tally_step (of_key k es) t (filter (λ r. same_key (key_of r) k) ts))
      | inr miss ↦ rw miss refl
    ])

abbrev Apart : List Entry → Type 0
Apart [] = Unit
Apart ((k, _) ∷ es) = All (λ (e : Entry). same_key k e.0 ≡ false) es × Apart es

apart_from :
    (j : Key) (t : MeasurementTracking) (es : List Entry)
    → same_key j (key_of t) ≡ false
    → All (λ (e : Entry). same_key j e.0 ≡ false) es
    → All (λ (e : Entry). same_key j e.0 ≡ false) (count_row t es)
unfolding count_row
apart_from j t [] h a = (h, tt)
apart_from j t ((k, e) ∷ es) h (a, as_) = elim (Bool-cases (same_key k (key_of t))) [
  | inl same ↦ rw same (a, as_)
  | inr other ↦ rw other (a, apart_from j t es h as_)
]

count_row-Apart : (t : MeasurementTracking) (es : List Entry) → Apart es → Apart (count_row t es)
unfolding count_row
count_row-Apart t [] h = (tt, tt)
count_row-Apart t ((k, e) ∷ es) (h, hs) = elim (Bool-cases (same_key k (key_of t))) [
  | inl same ↦ rw same (h, hs)
  | inr other ↦ rw other (apart_from k t es other h, count_row-Apart t es hs)
]

count_rows-Apart :
    (es : List Entry) (ts : List MeasurementTracking) → Apart es → Apart (count_rows es ts)
unfolding count_rows
count_rows-Apart es [] h = h
count_rows-Apart es (t ∷ ts) h = count_rows-Apart (count_row t es) ts (count_row-Apart t es h)

of_key_kept :
    (k : Key) (e : ℤ × ℕ) (es fs : List Entry)
    → All (λ (f : Entry). same_key k f.0 ≡ false) fs
    → All (λ f. of_key f.0 es ≡ some f.1) fs
    → All (λ f. of_key f.0 ((k, e) ∷ es) ≡ some f.1) fs
of_key_kept k e es [] a h = tt
of_key_kept k e es (f ∷ fs) (a, as_) (h, hs) = (rw a h, of_key_kept k e es fs as_ hs)

entries_lem : (es : List Entry) → Apart es → All (λ e. of_key e.0 es ≡ some e.1) es
entries_lem [] h = tt
entries_lem ((k, e) ∷ es) (h, apart) =
    (rw (same_key_refl k) refl, of_key_kept k e es es h (entries_lem es apart))

-- The record has the total of all rows of its measurement and user.
abbrev pub IsTotal : MockStorage → ProbeUsageRecord → Type 0
IsTotal s r =
    tally none (filter (λ t. same_key (key_of t) (r.id, r.user_hash)) s.measurement_tracking)
    ≡ some (r.probe_count, r.timestamp)

entry-IsTotal :
    (s : MockStorage) → All (λ e. IsTotal s (usage_record e)) (count_rows [] s.measurement_tracking)
entry-IsTotal s =
    let rows = s.measurement_tracking in
    All-implies _ _ (count_rows [] rows)
      (λ (e : Entry) (h : of_key e.0 (count_rows [] rows) ≡ some e.1).
        sym (of_key-count_rows e.0 [] rows) ∙ h)
      (entries_lem (count_rows [] rows) (count_rows-Apart [] rows tt))

All-map :
    {A B : Type 0} (P : B → Type 0) (f : A → B) (xs : List A)
    → All (λ x. P (f x)) xs
    → All P (map f xs)
All-map P f [] h = tt
All-map P f (x ∷ xs) (h, hs) = (h, All-map P f xs hs)

insert-All :
    (P : ProbeUsageRecord → Type 0) (r : ProbeUsageRecord) (rs : List ProbeUsageRecord)
    → P r
    → All P rs
    → All P (insert_record r rs)
unfolding insert_record
insert-All P r [] h hs = (h, tt)
insert-All P r (q ∷ qs) h (k, ks) = ground (arith, insert-All P r qs h ks)

sort-All :
    (P : ProbeUsageRecord → Type 0) (rs : List ProbeUsageRecord)
    → All P rs
    → All P (sort_records rs)
unfolding sort_records
sort-All P [] h = tt
sort-All P (r ∷ rs) (h, hs) = insert-All P r (sort_records rs) h (sort-All P rs hs)

-- In whatever order the hash map gives its entries: a record of the recent usage has, for its
-- measurement and its user, the probes sent by all agents, added in 32 bits, and the time of the last
-- update; and there are no more records than asked for.
pub get_recent-IsTotal :
    (iterate : List Entry → List Entry)
    (iterates : (P : Entry → Type 0) (es : List Entry) → All P es → All P (iterate es))
    (s : MockStorage) (limit : ℤ)
    → All (IsTotal s) (get_recent iterate s limit)
      × (length (get_recent iterate s limit) ≤ as_usize limit)
unfolding get_recent
get_recent-IsTotal iterate iterates s limit = (
  All-take (IsTotal s) (as_usize limit) _ (
      sort-All (IsTotal s) _ (
        All-map (IsTotal s) usage_record _ (
          iterates (λ e. IsTotal s (usage_record e)) (count_rows [] s.measurement_tracking)
            (entry-IsTotal s)))),
  length-take (as_usize limit) _,
)
