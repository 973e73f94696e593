-- ===== src/Handlers/Query/Listed.antt =====
-- What a client that lists measurements is shown.
use saimiris_gateway.Prelude.{
  ℕ, true, not, ◌||◌, ◌↔◌, ◌≤◌, String, Option, none, some, List, map, length, ◌≡◌, refl, sym, ◌∙◌,
  ◌⊎◌, inl, inr, arith, All, Result, ok, err, >>=-eq-ok, Result-cases, Option-cases, codes,
}
use saimiris_gateway.Prelude.Int.{ℤ, pos, negsuc}
use saimiris_gateway.Http.{Handler, responds, bad_request}
use saimiris_gateway.Database.{MockStorage, MeasurementStatus, MeasurementListFilter}
use saimiris_gateway.Database.Listing.{Group, as_usize, list_user_measurements}
use saimiris_gateway.Database.Listing.Statuses.{IsListed, list_user_measurements-IsListed}
use saimiris_gateway.Database.Listing.Complete.{meets, shows, list_user_measurements-shows}
use saimiris_gateway.Database.Listing.Order.{Ordered, list_user_measurements-Ordered}
use saimiris_gateway.Prelude.Scan.{parse_i64}
use saimiris_gateway.Handlers.Query.{
  TimeParsers, ListMeasurementsQuery, MeasurementItem, QueryError, item, clamp, limit_of, non_empty,
  parse_limit, parse_query, list_measurements_handler, parse_status, parse_window, parse_sort,
  parse_reverse,
}

-- Between one and a hundred.
abbrev IsPage : ℤ → Type 0
IsPage n = (1 ≤ as_usize n) × (as_usize n ≤ 100)

clamp-IsPage : (n : ℤ) → IsPage (clamp (pos 1) (pos 100) n)
clamp-IsPage (pos n) = ground arith
clamp-IsPage (negsuc n) = ground arith

limit_of-IsPage : (o : Option ℤ) (n : ℤ) → limit_of o ≡ ok n → IsPage n
limit_of-IsPage (some m) n h =
    let same : clamp (pos 1) (pos 100) m ≡ n = cc in rw (sym same) (clamp-IsPage m)
limit_of-IsPage none n h = absurd cc

twenty : (n : ℤ) → ◌≡◌ {A = Result QueryError ℤ} (ok (pos 20)) (ok n) → IsPage n
twenty n h = let same : pos 20 ≡ n = cc in rw (sym same) (ground arith)

parse_limit-IsPage : (limit : Option String) (n : ℤ) → parse_limit limit ≡ ok n → IsPage n
unfolding parse_limit
parse_limit-IsPage limit n h = elim (Option-cases (non_empty limit)) [
  | inl e ↦
      let same : parse_limit limit ≡ ok (pos 20) = rw (e, parse_limit) refl in
      twenty n (sym same ∙ h)
  | inr (raw, e) ↦
      let same : parse_limit limit ≡ limit_of (parse_i64 (codes raw)) = rw (e, parse_limit) refl in
      limit_of-IsPage (parse_i64 (codes raw)) n (sym same ∙ h)
]

pub parse_query-IsPage :
    (times : TimeParsers) (params : ListMeasurementsQuery) (f : MeasurementListFilter)
    → parse_query times params ≡ ok f
    → IsPage f.limit
unfolding parse_query
parse_query-IsPage times params f h =
    let (limit, h1, k1) = >>=-eq-ok (parse_limit params.limit) _ h in
    let (status, h2, k2) = >>=-eq-ok (parse_status params.status) _ k1 in
    let (since, h3, k3) = >>=-eq-ok (parse_window times "since" params.since) _ k2 in
    let (until, h4, k4) = >>=-eq-ok (parse_window times "until" params.until) _ k3 in
    let (sort, h5, k5) = >>=-eq-ok (parse_sort params.sort) _ k4 in
    let (reverse, h6, k6) = >>=-eq-ok (parse_reverse params.reverse) _ k5 in
    let same : limit ≡ f.limit = cc in rw (sym same) (parse_limit-IsPage params.limit limit h1)

module _ (times : TimeParsers) (hash_user_identifier : String → String)
    (iterate : List Group → List Group)
    (iterates : (P : Group → Type 0) (gs : List Group) → All P gs ↔ All P (iterate gs)) where
  abbrev pub list :
      String → ListMeasurementsQuery → Handler MockStorage QueryError (List MeasurementItem)
  list =
      list_measurements_handler times hash_user_identifier
        (λ t u f. ok (list_user_measurements iterate t u f))

  -- What a listing may answer.
  abbrev pub IsAnswered : String → ListMeasurementsQuery → MockStorage → Type 0
  IsAnswered sub params s =
      ((e : QueryError) × (parse_query times params ≡ err e)
        × (list sub params s ≡ (err (responds bad_request e), s)))
      ⊎ ((f : MeasurementListFilter) × (ms : List MeasurementStatus) × (parse_query times params
            ≡ ok f)
          × (list sub params s ≡ (ok (map item ms), s))
          × All (IsListed s (hash_user_identifier sub) f) ms
          × Ordered f ms
          × (length ms ≤ 100)
          × ((length ms ≡ as_usize f.limit)
              ⊎ ((id : ℕ) → (not (meets s (hash_user_identifier sub) f id) || shows id ms) ≡ true)))

  -- Over the database in memory, in whatever order its hash map gives the entries, a listing either
  -- refuses a query that does not parse, with 400, or shows up to a hundred measurements of the user,
  -- each with its present status and one that the filter of the query asks for by its agent, state and
  -- window of time, in the order of that filter; it shows as many as the limit of the query, or all
  -- that the filter asks for. It changes nothing.
  pub list_measurements_handler-IsListed :
      (sub : String) (params : ListMeasurementsQuery) (s : MockStorage) → IsAnswered sub params s
  unfolding list_measurements_handler
  list_measurements_handler-IsListed sub params s = elim (Result-cases (parse_query times params)) [
    | inr (e, h) ↦ inl (e, h, rw (h, list_measurements_handler) refl)
    | inl (f, h) ↦
        let u = hash_user_identifier sub in
        let (listed, short) = list_user_measurements-IsListed iterate iterates s u f in
        let (_, page) = parse_query-IsPage times params f h in
        inr (
          f,
          list_user_measurements iterate s u f,
          h,
          rw (h, list_measurements_handler) refl,
          listed,
          list_user_measurements-Ordered iterate s u f,
          omega (arith, short, page),
          list_user_measurements-shows iterate iterates s u f,
        )
  ]
