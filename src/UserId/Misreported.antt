-- ===== src/UserId/Misreported.antt =====
-- An error of the server that is taken for an id in use.
use saimiris_gateway.Prelude.{
  ℕ, zero, suc, ◌+◌, ◌<◌, String, true, false, none, ◌==◌, if◌then◌else◌, Result, ok, err, ◌≡◌,
  refl, ap, ◌∙◌, arith,
}
use saimiris_gateway.Database.Mappings.{id_taken}
use saimiris_gateway.Database.Postgres.{Tables, SqlxError, io, database, Reply, answered, refused}
use saimiris_gateway.Database.Postgres.Ids.{select_user_id, insert_user_id_mapping}
use saimiris_gateway.UserId.{
  UserIdError, exhausted, contains, max_attempts, candidate_id, conclude, attempts,
  get_or_create_user_id,
}
use saimiris_gateway.UserId.Stored.{Connection, stored_get, stored_create}

-- The look-up of the user is answered, and each insertion after it refused with the text.
abbrev pub refusing : String → ℕ → Connection → Connection
refusing message call (t, _) = (t, if call == 0 then answered else refused (database message))

refusing_later :
    (message : String) (call : ℕ) (t : Tables) (reply : Reply)
    → 0 < call
    → refusing message call (t, reply) ≡ (t, refused (database message))
refusing_later message call t reply h = ground arith

-- The text names the table, and no constraint.
pub record NamesTable (message : String) : Type 0 where
  pub no_pkey : contains message "user_id_mappings_pkey" ≡ false
  pub no_hash : contains message "user_hash" ≡ false
  pub names_id : contains message "user_id" ≡ true

-- The text of the program's own error for an id in use.
pub record ShowsIdTaken (text : SqlxError → String) : Type 0 where
  pub shows_unique : contains (text (io id_taken)) "UNIQUE constraint" ≡ true
  pub shows_id : contains (text (io id_taken)) "user_hash" ≡ false

module _ (text : SqlxError → String) (duplicate_key : String → String) (clock : ℕ → ℕ)
    (random : ℕ → ℕ) (user_hash message : String) (names : NamesTable message)
    (shows : ShowsIdTaken text) where
  refused_create :
      (t : Tables) (i : ℕ)
      → stored_create text duplicate_key clock (t, refused (database message)) user_hash i
        ≡ (err (text (io id_taken)), (t, refused (database message)))
  unfolding insert_user_id_mapping
  refused_create t i = rw (names.no_pkey, names.no_hash, names.names_id) refl

  attempts_exhausted :
      (left attempt call : ℕ) (t : Tables) (reply : Reply)
      → 0 < call
      → (attempts
          (stored_get text duplicate_key clock)
          (stored_create text duplicate_key clock)
          (refusing message)
          random
          user_hash
          left
          attempt
          call
          (t, reply)).0
        ≡ err (exhausted max_attempts)
  unfolding attempts
  attempts_exhausted zero attempt call t reply h = refl
  attempts_exhausted (suc left) attempt call t reply h =
      let i =
        candidate_id (stored_get text duplicate_key clock) (stored_create text duplicate_key clock)
          (refusing message) random user_hash attempt in
      let again : ℕ → Connection → Result UserIdError ℕ × Connection =
        attempts (stored_get text duplicate_key clock) (stored_create text duplicate_key clock)
          (refusing message) random user_hash left (attempt + 1) in
      let created =
        ap (λ (c : Connection). stored_create text duplicate_key clock c user_hash i)
          (refusing_later message call t reply h)
        ∙ refused_create t i in
      ap
        (λ p.
          (conclude (stored_get text duplicate_key clock) (stored_create text duplicate_key clock)
            (refusing message) random user_hash again (call + 1) i p).0)
        created
      ∙ rw (shows.shows_unique, shows.shows_id)
          (attempts_exhausted left (attempt + 1) (call + 1) t _ (omega arith))

  -- Where the server looks up a user without an id, and refuses each insertion with a text that names
  -- the table and no constraint, such as that of a missing permission: the search takes each refusal
  -- for an id in use, and ends as if a hundred ids were taken, not with the error of the server.
  pub get_or_create_user_id_exhausted :
      (t : Tables)
      → select_user_id answered t user_hash ≡ ok none
      → (get_or_create_user_id
          (stored_get text duplicate_key clock)
          (stored_create text duplicate_key clock)
          (refusing message)
          random
          user_hash
          (t, answered)).0
        ≡ err (exhausted max_attempts)
  unfolding get_or_create_user_id
  get_or_create_user_id_exhausted t new =
      rw (new, get_or_create_user_id) (attempts_exhausted max_attempts 0 1 t answered (omega arith))
