-- ===== src/Database/Mappings/Uniqueness.antt =====
-- No two users share an id.
use saimiris_gateway.Prelude.{
  ℕ, String, true, some, [], ◌∷◌, ◌≡◌, arith, str_eq, eq_iff, ◌==◌, if◌then◌else◌, any, ok, err,
}
use saimiris_gateway.Prelude.Map.{Map, lookup, lookup-insert}
use saimiris_gateway.Database.{MockStorage}
use saimiris_gateway.Database.Mappings.{create_user_id_mapping}

-- An id is the id of at most one user.
abbrev pub IsUnique : MockStorage → Type 0
IsUnique s =
    (h k : String) (i : ℕ)
    → lookup h s.user_id_mappings ≡ some i
    → lookup k s.user_id_mappings ≡ some i
    → h ≡ k

any_of_lookup :
    (h : String) (i : ℕ) (m : Map ℕ) → lookup h m ≡ some i → any (λ e. e.1 == i) m ≡ true
unfolding lookup
any_of_lookup h i [] e = cc
any_of_lookup h i ((k, j) ∷ m) e = ground (arith, any_of_lookup h i m)

-- The insertion of a pair answers by the first of: the hash is taken, the id is taken, done; only
-- the last changes the map, and adds the pair.
pub create_user_id_mapping_cases :
    (s : MockStorage) (h k : String) (i : ℕ)
    → lookup k (create_user_id_mapping s h i).1.user_id_mappings
      ≡ elim (create_user_id_mapping s h i).0 [
        | ok _ ↦ if str_eq h k then some i else lookup k s.user_id_mappings
        | err _ ↦ lookup k s.user_id_mappings
      ]
unfolding create_user_id_mapping
create_user_id_mapping_cases s h k i = ground (arith, lookup-insert h k i s.user_id_mappings)

create_ok_fresh :
    (s : MockStorage) (h k : String) (i : ℕ)
    → (create_user_id_mapping s h i).0 ≡ ok tt
    → lookup k s.user_id_mappings ≡ some i
    → ⊥
unfolding create_user_id_mapping
create_ok_fresh s h k i done e = ground (arith, any_of_lookup k i s.user_id_mappings e)

-- Whatever the insertion answers, no two users share an id after it if none did before.
pub create_user_id_mapping-IsUnique :
    (s : MockStorage) (h : String) (i : ℕ) → IsUnique s → IsUnique (create_user_id_mapping s h i).1
create_user_id_mapping-IsUnique s h i unique k l j ek el = ground (
  arith,
  create_user_id_mapping_cases s h k i,
  create_user_id_mapping_cases s h l i,
  create_ok_fresh s h k i,
  create_ok_fresh s h l i,
  eq_iff h k,
  eq_iff h l,
  unique k l j,
)
