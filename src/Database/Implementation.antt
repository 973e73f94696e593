-- ===== src/Database/Implementation.antt =====
-- src/database.rs: `Database`, which holds one of two implementations, and how it is made. The pool of
-- connections of sqlx and its migrations are parameters.
use saimiris_gateway.Prelude.{String, Option, none, some, Result, ok, ◌>>=◌}
use saimiris_gateway.Database.{MockStorage, new_storage}
use saimiris_gateway.Database.Connection.{PgConnectOptions, connect_options}

pub record DatabaseConfig : Type 0 where
  pub database_url : String

-- `Database` has this as its only field.
pub data DatabaseImpl (Pool : Type 0) : Type 0 where
  real : Pool → DatabaseImpl Pool
  mock : MockStorage → DatabaseImpl Pool

module _ {Options E Pool : Type 0} (pg : PgConnectOptions Options E)
    (connect_with : Options → Result E Pool) where
  unfoldable pub new_database : DatabaseConfig → Result E (DatabaseImpl Pool)
  new_database config = do
    options ← connect_options pg config.database_url
    pool ← connect_with options
    ok (real pool)

module _ {E Pool : Type 0} (migrate : Pool → Result E (Unit {0})) where
  unfoldable pub initialize : DatabaseImpl Pool → Result E (Unit {0})
  initialize (real pool) = migrate pool
  initialize (mock storage) = ok tt

module _ {Pool : Type 0} where
  abbrev pub new_mock : DatabaseImpl Pool
  new_mock = mock new_storage

  unfoldable pub get_pool : DatabaseImpl Pool → Option Pool
  get_pool (real pool) = some pool
  get_pool (mock storage) = none
