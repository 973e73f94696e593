-- ===== src/UserId/Stored.antt =====
-- The search for a user's id over the tables of Postgres.
use saimiris_gateway.Prelude.{
  ℕ, ◌<◌, ◌^◌, String, false, Option, some, List, [], ◌∷◌, ◌++◌, find, any, length, str_eq, eq_refl,
  Result, ok, err, ◌≡◌, refl, ap, arith, Bool-cases, inl, inr,
}
use saimiris_gateway.Prelude.Int.{as_i32, as_u32-as_i32}
use saimiris_gateway.Database.Postgres.{
  timestamptz, MappingRow, Tables, SqlxError, Reply, answered, refused, lost,
}
use saimiris_gateway.Database.Postgres.Ids.{eq_ℤ, select_user_id, insert_user_id_mapping}
use saimiris_gateway.UserId.{candidate_id, get_or_create_user_id}
use saimiris_gateway.UserId.Range.{generate_deterministic_user_id-IsUserId}
use saimiris_gateway.UserId.Holding.{KeepsIds, IsHeld, get_or_create_user_id-IsHeld}

-- The tables, and what becomes of the next statement.
abbrev pub Connection : Type 0
Connection = Tables × Reply

-- `e.to_string()`
abbrev pub told_by : {A : Type 0} → (SqlxError → String) → Result SqlxError A → Result String A
told_by text (ok a) = ok a
told_by text (err e) = err (text e)

-- The table has the id for the user.
abbrev pub Stores : String → Connection → ℕ → Type 0
Stores user_hash c user_id = select_user_id answered c.0 user_hash ≡ ok (some user_id)

same_ok :
    {A : Type 0} (a b : A)
    → ◌≡◌ {A = Result String A} (ok a) (ok b)
    → ◌≡◌ {A = Result SqlxError A} (ok a) (ok b)
same_ok a b e = cc

find-append :
    (u : String) (r : MappingRow) (rs : List MappingRow)
    → any (λ q. str_eq q.user_hash u) rs ≡ false
    → r.user_hash ≡ u
    → find (λ q. str_eq q.user_hash u) (rs ++ r ∷ []) ≡ some r
find-append u r [] h e = rw e (rw eq_refl refl)
find-append u r (q ∷ qs) h e = ground (arith, find-append u r qs)

module _ (text : SqlxError → String) (duplicate_key : String → String) (clock : ℕ → ℕ) where
  abbrev pub stored_get : Connection → String → Result String (Option ℕ)
  stored_get (t, reply) u = told_by text (select_user_id reply t u)

  -- `clock` is the time by the number of rows.
  abbrev pub stored_create : Connection → String → ℕ → Result String (Unit {0}) × Connection
  stored_create (t, reply) u i =
      let (r, t') =
        insert_user_id_mapping duplicate_key reply t u i (clock (length t.user_id_mappings)) in
      (told_by text r, (t', reply))

  inserted :
      (t : Tables) (reply : Reply) (u : String) (i : ℕ)
      → i < 2 ^ 32
      → (stored_create (t, reply) u i).0 ≡ ok tt
      → Stores u (stored_create (t, reply) u i).1 i
  unfolding insert_user_id_mapping select_user_id
  inserted t (refused e) u i h done = absurd cc
  inserted t (lost e) u i h done = absurd cc
  inserted t answered u i h done =
      elim (Bool-cases (any (λ r. str_eq r.user_hash u) t.user_id_mappings)) [
        | inl known ↦ absurd (ground (arith, done))
        | inr new ↦ elim (Bool-cases (any (λ r. eq_ℤ r.user_id (as_i32 i)) t.user_id_mappings)) [
          | inl used ↦ absurd (ground (arith, done))
          | inr free ↦
              let r : MappingRow = record {
                user_hash = u;
                user_id = as_i32 i;
                created_at = timestamptz (clock (length t.user_id_mappings));
              } in
              rw (new, free)
                (rw (find-append u r t.user_id_mappings new refl)
                  (ap (λ n. ok (some n)) (as_u32-as_i32 i h)))
        ]
      ]

  module _ (others : ℕ → Connection → Connection) (random : ℕ → ℕ)
      (below : (n : ℕ) → random n < 2 ^ 32) (user_hash : String) where
    stored-KeepsIds :
        KeepsIds stored_get stored_create user_hash (Stores user_hash) (λ i. i < 2 ^ 32)
    unfolding select_user_id
    stored-KeepsIds = record {
      finds = finds_lem;
      creates = λ s i fit done. inserted s.0 s.1 user_hash i fit done;
    }
      where
        finds_lem :
            (s : Connection) (i : ℕ) → stored_get s user_hash ≡ ok (some i) → Stores user_hash s i
        finds_lem (t, answered) i e = same_ok _ _ e
        finds_lem (t, refused x) i e = absurd cc
        finds_lem (t, lost x) i e = absurd cc

    candidate-lt :
        (attempt : ℕ)
        → candidate_id stored_get stored_create others random user_hash attempt < 2 ^ 32
    candidate-lt attempt =
        let range = generate_deterministic_user_id-IsUserId user_hash in
        ground (arith, below attempt)

    -- Whatever other requests do to the tables between the statements, and whether each statement is
    -- answered, refused or lost: an answer without an error is the id that the table has for the user
    -- when the call returns. The numbers drawn are of 32 bits.
    pub get_or_create_user_id-IsStored :
        (c : Connection)
        → IsHeld
            (Stores user_hash)
            (get_or_create_user_id stored_get stored_create others random user_hash c)
    get_or_create_user_id-IsStored c =
        get_or_create_user_id-IsHeld (Stores user_hash) (λ i. i < 2 ^ 32) stored_get stored_create
          others random user_hash stored-KeepsIds candidate-lt c
