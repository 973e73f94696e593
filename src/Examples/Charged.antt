-- ===== src/Examples/Charged.antt =====
-- A submission over Postgres at concrete inputs.
use saimiris_gateway.Prelude.{none, [], ◌∷◌}
use saimiris_gateway.Prelude.Int.{pos}
use saimiris_gateway.Database.Postgres.{Tables}
use saimiris_gateway.Http
use saimiris_gateway.Submit.{
  SubmitProbesRequest, SubmitProbesResponse, Database, World, submit_probes,
}
use saimiris_gateway.Submit.Stored.Calls.{postgres_database}
use saimiris_gateway.Examples.Parameters.{
  ip_from_str, write_message, ipnet, store, probe, agent_meta,
}
use saimiris_gateway.Examples.Postgres.{duplicate_key, tables}
use saimiris_gateway.Examples.Stored.{text, clock, random, itself}

-- A request that names its agent twice.
abbrev twice : SubmitProbesRequest
twice = record { metadata = agent_meta ∷ agent_meta ∷ []; probes = probe ∷ [] }

abbrev reply : SubmitProbesResponse
reply = record { id = 9; probes = 2; agents = agent_meta ∷ agent_meta ∷ [] }

abbrev stored : Database Tables
stored = postgres_database itself random text duplicate_key 0 25000 (λ n. n) clock

abbrev world : World Tables
world = record {
  database = record tables {
    user_id_mappings = record { user_hash = "user"; user_id = pos 2000000; created_at = 1 } ∷ [];
  };
  sent = [];
}

after : World Tables
after =
    (submit_probes ip_from_str write_message ipnet itself stored (λ _. none) (λ _. store)
      (λ _. store) 9 "user" twice world).1
