-- ===== src/Database/Connection/Target.antt =====
-- What is connected to, and what of it is written to the log.
use saimiris_gateway.Prelude.{
  String, [], ◌∷◌, ◌==◌, ◌≡◌, refl, sym, length, ok, trim_matches, trim_twice, trim_whole,
  Bool-cases, ==_iff, inl, inr,
}
use saimiris_gateway.Database.Connection.{
  PgConnectOptions, is_bracket, unbracketed, connect_options, host_text, database_text, text,
  decimal, safe_database_target,
}

module _ {Options E : Type 0} (pg : PgConnectOptions Options E) where
  host_lem :
      (o : Options) → pg.get_host (unbracketed pg o) ≡ trim_matches is_bracket (pg.get_host o)
  host_lem o =
      let host = pg.get_host o in
      elim (Bool-cases (length (trim_matches is_bracket host) == length host)) [
        | inl e ↦ rw e (
            sym (
              trim_whole is_bracket host
                ((==_iff (length (trim_matches is_bracket host)) (length host)).0 e)))
        | inr e ↦ rw e (pg.get_host-host (trim_matches is_bracket host) o)
      ]

  port_lem : (o : Options) → pg.get_port (unbracketed pg o) ≡ pg.get_port o
  port_lem o =
      let host = pg.get_host o in
      elim (Bool-cases (length (trim_matches is_bracket host) == length host)) [
        | inl e ↦ rw e refl
        | inr e ↦ rw e (pg.get_port-host (trim_matches is_bracket host) o)
      ]

  database_lem : (o : Options) → pg.get_database (unbracketed pg o) ≡ pg.get_database o
  database_lem o =
      let host = pg.get_host o in
      elim (Bool-cases (length (trim_matches is_bracket host) == length host)) [
        | inl e ↦ rw e refl
        | inr e ↦ rw e (pg.get_database-host (trim_matches is_bracket host) o)
      ]

  -- The options that a URL leads to, and the text for the log.
  abbrev pub IsTarget : String → Options → Options → Type 0
  IsTarget url parsed o =
      (connect_options pg url ≡ ok o)
      × (pg.get_host o ≡ trim_matches is_bracket (pg.get_host parsed))
      × (trim_matches is_bracket (pg.get_host o) ≡ pg.get_host o)
      × (pg.get_port o ≡ pg.get_port parsed)
      × (pg.get_database o ≡ pg.get_database parsed)
      × (safe_database_target pg url
          ≡ text (host_text pg (trim_matches is_bracket (pg.get_host parsed)))
            ∷ text (b':' ∷ [])
            ∷ decimal (pg.get_port parsed)
            ∷ database_text pg (pg.get_database parsed))

  -- The connection goes to the host of the URL without brackets at its ends, at the URL's port and
  -- database, and the log names that host, in brackets if it has a colon, with the port and the
  -- database, and nothing else of the URL.
  pub connect_options-IsTarget :
      (url : String) (parsed : Options)
      → pg.parse url ≡ ok parsed
      → (o : Options) × IsTarget url parsed o
  unfolding connect_options safe_database_target
  connect_options-IsTarget url parsed h =
      let o = unbracketed pg parsed in
      let trimmed = host_lem parsed in
      (
        o,
        (
          rw (h, connect_options) refl,
          trimmed,
          rw trimmed (trim_twice is_bracket (pg.get_host parsed)),
          port_lem parsed,
          database_lem parsed,
          rw (h, connect_options, safe_database_target)
              (rw (trimmed, port_lem parsed, database_lem parsed) refl),
        ),
      )
