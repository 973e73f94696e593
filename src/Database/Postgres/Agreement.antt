-- ===== src/Database/Postgres/Agreement.antt =====
-- How the tables `user_limits` and `user_id_mappings` stand for the lists of the storage in memory.
use saimiris_gateway.Prelude.{
  ℕ, ◌<◌, ◌^◌, String, true, false, none, some, List, [], ◌∷◌, ◌++◌, ◌==◌, map, find, any, All,
  str_eq, ◌≡◌, refl, arith,
}
use saimiris_gateway.Prelude.Int.{ℤ, pos, negsuc, as_u32, as_i32, as_u32-as_i32}
use saimiris_gateway.Prelude.Map.{lookup, insert}
use saimiris_gateway.Database.Usage.{set_limit}
use saimiris_gateway.Database.Postgres.{LimitRow, MappingRow}
use saimiris_gateway.Database.Postgres.Ids.{eq_ℤ}
use saimiris_gateway.Database.Postgres.Limits.{limit_row, upsert}

-- A value of a column INTEGER.
abbrev pub IsI32 : ℤ → Type 0
IsI32 (pos n) = n < 2 ^ 31
IsI32 (negsuc n) = n < 2 ^ 31

pub as_i32-IsI32 : (n : ℕ) → IsI32 (as_i32 n)
as_i32-IsI32 n = ground arith

-- A column and a number of the program are equal as one or as the other.
pub eq_as_i32 : (z : ℤ) (n : ℕ) → IsI32 z → n < 2 ^ 32 → eq_ℤ z (as_i32 n) ≡ (as_u32 z == n)
eq_as_i32 (pos k) n h below = ground arith
eq_as_i32 (negsuc k) n h below = ground arith

pub map-upsert :
    (u : String) (l new_id now : ℕ) (rs : List LimitRow)
    → l < 2 ^ 32
    → (limit_row (upsert u l new_id now rs).0, map limit_row (upsert u l new_id now rs).1)
      ≡ set_limit u l new_id now (map limit_row rs)
unfolding upsert set_limit
map-upsert u l new_id now [] h = ground (arith, as_u32-as_i32 l h)
map-upsert u l new_id now (r ∷ rs) h =
    ground (arith, as_u32-as_i32 l h, map-upsert u l new_id now rs h)

pub find-limit_row :
    (u : String) (rs : List LimitRow)
    → find (λ ul. str_eq ul.user_hash u) (map limit_row rs)
      ≡ elim (find (λ r. str_eq r.user_hash u) rs) [ some r ↦ some (limit_row r) | none ↦ none ]
find-limit_row u [] = refl
find-limit_row u (r ∷ rs) = ground (arith, find-limit_row u rs)

-- The entry of the map that a row stands for.
abbrev pub entry : MappingRow → String × ℕ
entry r = (r.user_hash, as_u32 r.user_id)

pub lookup-entry :
    (u : String) (rs : List MappingRow)
    → lookup u (map entry rs) ≡ elim (find (λ r. str_eq r.user_hash u) rs) [
      | some r ↦ some (as_u32 r.user_id)
      | none ↦ none
    ]
unfolding lookup
lookup-entry u [] = refl
lookup-entry u (r ∷ rs) = ground (arith, lookup-entry u rs)

pub any_hash-lookup :
    (u : String) (rs : List MappingRow)
    → any (λ r. str_eq r.user_hash u) rs
      ≡ elim (lookup u (map entry rs)) [ some _ ↦ true | none ↦ false ]
unfolding lookup
any_hash-lookup u [] = refl
any_hash-lookup u (r ∷ rs) = ground (arith, any_hash-lookup u rs)

abbrev pub HasI32 : MappingRow → Type 0
HasI32 r = IsI32 r.user_id

pub any_id-entry :
    (i : ℕ) (rs : List MappingRow)
    → All HasI32 rs
    → i < 2 ^ 32
    → any (λ r. eq_ℤ r.user_id (as_i32 i)) rs ≡ any (λ e. e.1 == i) (map entry rs)
any_id-entry i [] h below = refl
any_id-entry i (r ∷ rs) (h, hs) below =
    ground (arith, eq_as_i32 r.user_id i h below, any_id-entry i rs hs below)

pub insert-entry :
    (r : MappingRow) (rs : List MappingRow)
    → lookup r.user_hash (map entry rs) ≡ none
    → map entry (rs ++ r ∷ []) ≡ insert r.user_hash (as_u32 r.user_id) (map entry rs)
unfolding lookup insert
insert-entry r [] h = refl
insert-entry r (q ∷ qs) h = ground (arith, insert-entry r qs)
