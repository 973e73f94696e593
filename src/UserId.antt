-- ===== src/UserId.antt =====
-- src/lib.rs: the numeric id of a user, derived from the hash of the login or drawn at random. The
-- digest (sha2 and hex), the database and the random source are parameters. Other requests may
-- change the database before each call of this one: `others n` is what they do before the n-th.
pub mod Range
pub mod Mapped
pub mod Reached
pub mod Untouched
pub mod Holding
pub mod Attempts
pub mod Stored
pub mod Misreported
use saimiris_gateway.Prelude.{
  ℕ, zero, suc, ◌+◌, ◌-◌, ◌*◌, ◌%◌, ◌^◌, String, Bool, true, false, ◌&&◌, ◌||◌, Option, none, some,
  List, [], ◌∷◌, take, ltb, leb, ◌==◌, if◌then◌else◌, Result, ok, err, codes, is_empty,
}
use text.Mathlib.Text.{find?}

-- The value of a hexadecimal digit, `char::to_digit(16)`.
abbrev pub to_digit : ℕ → Option ℕ
to_digit c =
    if leb b'0' c && leb c b'9'
    then some (c - b'0')
    else if leb b'a' c && leb c b'f'
    then some (c - b'a' + 10)
    else if leb b'A' c && leb c b'F'
    then some (c - b'A' + 10)
    else none

abbrev pub u32_mod : ℕ
u32_mod = 2 ^ 32

-- The digits of `u32::from_str_radix(_, 16)`; a value over 32 bits is an error.
unfoldable pub parse_digits : ℕ → List ℕ → Option ℕ
parse_digits acc [] = some acc
parse_digits acc (c ∷ cs) = elim (to_digit c) [
  | none ↦ none
  | some d ↦
      let rest = parse_digits (acc * 16 + d) cs in if ltb (acc * 16 + d) u32_mod then rest else none
]

-- A leading plus sign is allowed, no digits are not.
unfoldable pub from_str_radix_16 : List ℕ → Option ℕ
unfolding parse_digits
from_str_radix_16 [] = none
from_str_radix_16 (c ∷ cs) =
    if c == b'+' then (if is_empty cs then none else parse_digits 0 cs) else parse_digits 0 (c ∷ cs)

abbrev pub min_user_id : ℕ
min_user_id = 1000

abbrev pub max_user_id : ℕ
max_user_id = 0xFFFFFF00

-- `unwrap_or(1000)`
abbrev pub hash_prefix : String → ℕ
hash_prefix user_hash = elim (from_str_radix_16 (take 8 (codes user_hash))) [
  | some n ↦ n
  | none ↦ 1000
]

unfoldable pub into_range : ℕ → ℕ
into_range hash_u32 =
    if ltb hash_u32 min_user_id
    then min_user_id + hash_u32 % (max_user_id - min_user_id)
    else if ltb max_user_id hash_u32
    then min_user_id + hash_u32 % (max_user_id - min_user_id)
    else hash_u32

-- The hash is ASCII and at least eight characters long, so the slice `[..8]` exists.
unfoldable pub generate_deterministic_user_id : String → ℕ
generate_deterministic_user_id user_hash = into_range (hash_prefix user_hash)

-- `str::contains` for a text
abbrev pub contains : String → String → Bool
contains s t = elim (find? s t) [ some _ ↦ true | none ↦ false ]

-- The error texts, with the database's message.
pub data UserIdError : Type 0 where
  fetching : String → UserIdError
  resolving : String → UserIdError
  database_error : String → UserIdError
  exhausted : ℕ → UserIdError

abbrev pub max_attempts : ℕ
max_attempts = 100

module _ {S : Type 0} (get_user_id_by_hash : S → String → Result String (Option ℕ))
    (create_user_id_mapping : S → String → ℕ → Result String (Unit {0}) × S) (others : ℕ → S → S)
    (random : ℕ → ℕ) (user_hash : String) where
  abbrev pub candidate_id : ℕ → ℕ
  candidate_id attempt =
      if attempt == 0 then generate_deterministic_user_id user_hash else random attempt

  -- After a conflict on the hash: the id that another request has created, or another attempt.
  abbrev pub refetch : (ℕ → S → Result UserIdError ℕ × S) → ℕ → S → Result UserIdError ℕ × S
  refetch again call s = elim (get_user_id_by_hash s user_hash) [
    | ok (some existing) ↦ (ok existing, s)
    | ok none ↦ again call s
    | err e ↦ (err (resolving e), s)
  ]

  -- What an attempt does with the answer of the insertion.
  abbrev pub conclude :
      (ℕ → S → Result UserIdError ℕ × S)
      → ℕ
      → ℕ
      → Result String (Unit {0}) × S
      → Result UserIdError ℕ × S
  conclude again call candidate (ok _, s) = (ok candidate, s)
  conclude again call candidate (err e, s) =
      if contains e "UNIQUE constraint" || contains e "duplicate"
      then if contains e "user_hash" then refetch again (call + 1) (others call s) else again call s
      else (err (database_error e), s)

  -- The attempts that are left; `call` counts the calls of the database.
  unfoldable pub attempts : ℕ → ℕ → ℕ → S → Result UserIdError ℕ × S
  attempts zero attempt call s = (err (exhausted max_attempts), s)
  attempts (suc left) attempt call s =
      let again = λ (c : ℕ) (t : S). attempts left (attempt + 1) c t in
      conclude again (call + 1) (candidate_id attempt)
        (create_user_id_mapping (others call s) user_hash (candidate_id attempt))

  unfoldable pub get_or_create_user_id : S → Result UserIdError ℕ × S
  get_or_create_user_id s = elim (get_user_id_by_hash (others 0 s) user_hash) [
    | ok (some user_id) ↦ (ok user_id, others 0 s)
    | ok none ↦ attempts max_attempts 0 1 (others 0 s)
    | err e ↦ (err (fetching e), others 0 s)
  ]
