-- ===== src/UserId/Range.antt =====
-- The ids that the generators give.
use saimiris_gateway.Prelude.{ℕ, ◌≤◌, String, ◌≡◌, arith}
use saimiris_gateway.UserId.{
  min_user_id, max_user_id, hash_prefix, into_range, generate_deterministic_user_id,
}

abbrev pub IsUserId : ℕ → Type 0
IsUserId n = (min_user_id ≤ n) × (n ≤ max_user_id)

into_range-IsUserId : (n : ℕ) → IsUserId (into_range n)
unfolding into_range
into_range-IsUserId n = ground arith

into_range_self : (n : ℕ) → IsUserId n → into_range n ≡ n
unfolding into_range
into_range_self n h = ground arith

-- The id derived from a hash lies in the range of user ids, and is the first 32 bits of the hash
-- wherever these lie in the range.
pub generate_deterministic_user_id-IsUserId :
    (user_hash : String)
    → IsUserId (generate_deterministic_user_id user_hash)
      × (IsUserId (hash_prefix user_hash)
          → generate_deterministic_user_id user_hash ≡ hash_prefix user_hash)
unfolding generate_deterministic_user_id
generate_deterministic_user_id-IsUserId user_hash = (into_range-IsUserId _, into_range_self _)
