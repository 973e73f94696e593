-- ===== src/UserId/Attempts.antt =====
-- How often the search for an id asks the database to insert, over any database.
use saimiris_gateway.Prelude.{
  ℕ, zero, suc, ◌+◌, ◌≤◌, String, ◌||◌, Option, none, some, ◌≡◌, ◌≢◌, inl, inr, arith, Result, ok,
  err, Bool-cases,
}
use saimiris_gateway.UserId.{
  UserIdError, exhausted, contains, max_attempts, candidate_id, conclude, attempts,
  get_or_create_user_id,
}

err_lem : {A : Type 0} (x y : UserIdError) → ◌≡◌ {A = Result UserIdError A} (err x) (err y) → x ≡ y
err_lem x y h = cc

module _ {S : Type 0} (get : S → String → Result String (Option ℕ))
    (create : S → String → ℕ → Result String (Unit {0}) × S) (others : ℕ → S → S) (random : ℕ → ℕ)
    (user_hash : String) where
  -- The database, with a count of the insertions asked for.
  abbrev pub counted_get : S × ℕ → String → Result String (Option ℕ)
  counted_get (s, n) u = get s u

  abbrev pub counted_create : S × ℕ → String → ℕ → Result String (Unit {0}) × (S × ℕ)
  counted_create (s, n) u i = ((create s u i).0, ((create s u i).1, n + 1))

  abbrev pub counted_others : ℕ → S × ℕ → S × ℕ
  counted_others call (s, n) = (others call s, n)

  -- From a count to at most `left` more, and to just these where the attempts are exhausted.
  abbrev pub Counts : ℕ → ℕ → Result UserIdError ℕ × (S × ℕ) → Type 0
  Counts n left p = (p.1.1 ≤ n + left) × ((k : ℕ) → p.0 ≡ err (exhausted k) → p.1.1 ≡ n + left)

  abbrev Goes : ℕ → ℕ → (ℕ → S × ℕ → Result UserIdError ℕ × (S × ℕ)) → Type 0
  Goes n left again = (call : ℕ) (s : S) → Counts n left (again call (s, n))

  looked_up-Counts :
      (e : String → UserIdError) (never : (x : String) (k : ℕ) → e x ≢ exhausted k) (n left : ℕ)
      (r : Result String (Option ℕ)) (s : S) (again : Result UserIdError ℕ × (S × ℕ))
      → Counts n left again
      → Counts n left
          (elim r [ ok (some i) ↦ (ok i, (s, n)) | ok none ↦ again | err x ↦ (err (e x), (s, n)) ])
  looked_up-Counts e never n left (ok none) s again h = h
  looked_up-Counts e never n left (ok (some i)) s again h = (omega arith, λ k q. absurd cc)
  looked_up-Counts e never n left (err x) s again h =
      (omega arith, λ k q. absurd (never x k (err_lem {A = ℕ} _ _ q)))

  conclude-Counts :
      (again : ℕ → S × ℕ → Result UserIdError ℕ × (S × ℕ)) (n left call candidate : ℕ)
      (r : Result String (Unit {0})) (s : S)
      → Goes n left again
      → Counts n left (
          conclude counted_get counted_create counted_others random user_hash again call candidate
            (r, (s, n)))
  conclude-Counts again n left call candidate (ok u) s goes = (omega arith, λ k e. absurd cc)
  conclude-Counts again n left call candidate (err x) s goes =
      elim (Bool-cases (contains x "UNIQUE constraint" || contains x "duplicate")) [
        | inr k ↦ rw k (omega arith, λ k e. absurd cc)
        | inl k ↦ elim (Bool-cases (contains x "user_hash")) [
          | inl h ↦
              rw (k, h)
                (looked_up-Counts UserIdError.resolving (λ x k q. cc) n left
                  (get (others call s) user_hash) (others call s) _
                  (goes (call + 1) (others call s)))
          | inr h ↦ rw (k, h) (goes call s)
        ]
      ]

  Counts-suc :
      (n left : ℕ) (p : Result UserIdError ℕ × (S × ℕ))
      → Counts (n + 1) left p
      → Counts n (suc left) p
  Counts-suc n left (r, (s, m)) (most, all) = (omega (arith, most), λ k e. omega (arith, all k e))

  attempts-Counts :
      (left attempt n call : ℕ) (s : S)
      → Counts n left (
          attempts counted_get counted_create counted_others random user_hash left attempt call
            (s, n))
  unfolding attempts
  attempts-Counts zero attempt n call s = (omega arith, λ k e. omega arith)
  attempts-Counts (suc left) attempt n call s =
      let i = candidate_id counted_get counted_create counted_others random user_hash attempt in
      let again : ℕ → S × ℕ → Result UserIdError ℕ × (S × ℕ) =
        attempts counted_get counted_create counted_others random user_hash left (attempt + 1) in
      let p : Result String (Unit {0}) × S = create (others call s) user_hash i in
      Counts-suc n left
        (conclude counted_get counted_create counted_others random user_hash again (call + 1) i
          (p.0, (p.1, n + 1)))
        (conclude-Counts again (n + 1) left (call + 1) i p.0 p.1
          (attempts-Counts left (attempt + 1) (n + 1)))

  -- Whatever the database answers and other requests do, a search asks it to insert at most a
  -- hundred times, and ends as exhausted only after it has asked a hundred times.
  pub get_or_create_user_id-Counts :
      (s : S)
      → Counts 0 max_attempts
          (get_or_create_user_id counted_get counted_create counted_others random user_hash (s, 0))
  unfolding get_or_create_user_id
  get_or_create_user_id-Counts s =
      looked_up-Counts UserIdError.fetching (λ x k q. cc) 0 max_attempts
        (get (others 0 s) user_hash) (others 0 s) _
        (attempts-Counts max_attempts 0 0 1 (others 0 s))
