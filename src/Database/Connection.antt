-- ===== src/Database/Connection.antt =====
-- src/database.rs: `connect_options` and `safe_database_target`. The options of sqlx and their parser
-- are an interface; texts are given by their characters.
pub mod Target
use saimiris_gateway.Prelude.{
  ℕ, String, Bool, ◌||◌, Option, none, some, List, [], ◌∷◌, ◌++◌, ◌==◌, ◌≡◌, if◌then◌else◌, any,
  length, Result, ok, err, ◌>>=◌, trim_matches, codes,
}

-- `PgConnectOptions`: what its accessors give after `host` as documented.
pub record PgConnectOptions (Options E : Type 0) : Type 0 where
  pub parse : String → Result E Options
  pub get_host : Options → List ℕ
  pub get_port : Options → ℕ
  pub get_database : Options → Option (List ℕ)
  pub host : List ℕ → Options → Options
  pub get_host-host : (h : List ℕ) (o : Options) → get_host (host h o) ≡ h
  pub get_port-host : (h : List ℕ) (o : Options) → get_port (host h o) ≡ get_port o
  pub get_database-host : (h : List ℕ) (o : Options) → get_database (host h o) ≡ get_database o

abbrev pub is_bracket : ℕ → Bool
is_bracket c = c == b'[' || c == b']'

-- A piece of the text for the log; the port is written in decimal.
pub data Piece : Type 0 where
  text : List ℕ → Piece
  decimal : ℕ → Piece

abbrev pub unparseable : List Piece
unparseable = text (codes "<unparseable database url>") ∷ []

module _ {Options E : Type 0} (pg : PgConnectOptions Options E) where
  -- A bracket is one byte, so the lengths in bytes differ if those in characters do.
  abbrev pub unbracketed : Options → Options
  unbracketed options =
      let trimmed = trim_matches is_bracket (pg.get_host options) in
      if length trimmed == length (pg.get_host options) then options else pg.host trimmed options

  unfoldable pub connect_options : String → Result E Options
  connect_options database_url = do options ← pg.parse database_url; ok (unbracketed options)

  abbrev pub host_text : List ℕ → List ℕ
  host_text host = if any (λ c. c == b':') host then b'[' ∷ (host ++ b']' ∷ []) else host

  abbrev pub database_text : Option (List ℕ) → List Piece
  database_text (some db) = text (b'/' ∷ db) ∷ []
  database_text none = []

  abbrev pub target : Result E Options → List Piece
  target (err _) = unparseable
  target (ok options) =
      text (host_text (pg.get_host options))
      ∷ text (b':' ∷ [])
      ∷ decimal (pg.get_port options)
      ∷ database_text (pg.get_database options)

  unfoldable pub safe_database_target : String → List Piece
  safe_database_target database_url = target (connect_options database_url)
