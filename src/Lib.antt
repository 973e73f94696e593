-- ===== src/Lib.antt =====
-- Verification of the Saimiris gateway, a service between users who submit network probes and the
-- agents that send them.
--
-- The program. An agent registers over HTTP, sends its configuration and its health, and later
-- reports how far it is with a measurement (src/lib.rs over the store of src/agent.rs). A user
-- submits probes for some agents: the gateway checks the probes (src/probe.rs), finds or draws the
-- user's 32-bit id, checks that the source addresses lie in the user's part of the agents' prefixes
-- (src/lib.rs over the crate ipnet), checks the daily limit, keeps a tracking row for each agent
-- (src/database.rs), and sends the probes in batches to Kafka. A user can look at a measurement and
-- cancel it.
--
-- The files.
--   Prelude      what the others share: Boolean tests, lists, results, texts, integers (Int) and a
--                hash map as a list of entries (Map).
--   App          src/lib.rs: the configuration in `AppState`.
--   Json, Net    the values of serde_json and the addresses of std::net that the program matches on.
--   Http         a handler: a function of a world that it changes, with a value, a status code or a
--                panic as its answer; `>>=` is the `?` and the early return of src/lib.rs.
--   Agent        src/agent.rs: `Agent`, `AgentStore` and a function for each method; Config has the
--                defaults of `AgentConfig`. Invariant, Freshness and Abstract hold what is proved of
--                them.
--   Probe        src/probe.rs: the readers and writers of a probe; Validation the checks of a
--                submission, Batch `deserialize_probes_batch`, Wire the Cap'n Proto message; Reading,
--                Acceptance, Packing, Batching and Screening hold the proofs.
--   UserId       src/lib.rs, `get_or_create_user_id` and `generate_deterministic_user_id`; Holding,
--                Untouched and Attempts are over any database, Mapped and Reached over memory, Stored
--                and Misreported over Postgres.
--   Prefix       src/lib.rs, `calculate_user_prefix_addr`, `validate_user_ipv6` and
--                `calculate_user_prefix`, over the interface Prefix/Ipnet.
--   Database     src/database.rs with the storage in memory: Usage the limits and the quota, Mappings
--                the user ids, Tracking the rows of a measurement, Listing a user's measurements,
--                Recent the recent usage, Connection the target of the connection, Implementation
--                the choice between memory and Postgres.
--   Database/Postgres  src/database.rs with Postgres, over the tables of migrations/: Ids, Limits,
--                Rows, Statuses (with the view) and Totals are the statements of the methods. Keys,
--                Agreement, Refinement and the children hold the proofs that the tables stand for a
--                storage in memory.
--   Submit       src/lib.rs, `submit_probes`, over an interface of the database; Request holds its
--                data, and Messages, Checks, Steps, Publishing, Effects, Refusals, Charging and
--                Stored (over Postgres) the proofs.
--   Jwt          src/jwt.rs: Keys reads a key set, Validator a token and its claims, Cache is the
--                validator that requests share, Middleware the middleware of the users' routes;
--                Bearer, Scopes, KeySet, Locks, Verified and Statuses hold the proofs.
--   Handlers     src/lib.rs: Agents the handlers over the agent store, Measurements those over the
--                tracking rows, Query the listing of measurements with its query, Users
--                `get_user_info`.
--   Router       src/lib.rs, `create_app` and the two routers in it, with the middlewares.
--   Kafka, Main  src/kafka.rs and src/main.rs: the producer, the start and the clean-up task.
--   Examples     the theorems at concrete inputs, with concrete stand-ins for the parameters.
--
-- How code becomes a definition. A method that holds a lock from start to end is one function of
-- the state, and a handler a composition of them. Where a handler lets other requests run between
-- two of its calls, what they do is a parameter: a function `others` of the state, or a store for
-- each point in time. The clock, random draws, new UUIDs, SHA-256, the parsers of IP addresses and
-- times, the Cap'n Proto encoder, the answers of the Kafka producer and of the key server, the
-- decoder of tokens and the options of sqlx are parameters too. Numbers are natural numbers with
-- wrap-around written out (`% 2 ^ w`); i32 and i64 are integers; instants count from the earliest
-- one, in nanoseconds. The 100 attempts of the id loop are the source's own bound, and
-- all other loops go over a list, so no definition runs on fuel. The sums of a measurement's status
-- are of 64 bits, and rows that could overflow them do not fit a database; they are not wrapped.
--
-- The two statics of the key cache have a lock each: Jwt/Locks takes the two writes of a refresh
-- apart, as steps of a relation, and says what requests can rely on between them.
--
-- The statements that src/database.rs sends to Postgres are read as SQL defines them, on tables with
-- the constraints of the migrations. A statement is answered, refused before it is done, or done with
-- its answer lost; which of these, the order of rows that SQL leaves open, and the server's texts are
-- parameters. Of the text for a broken constraint it is assumed that it names the constraint, of a
-- missing row and an id in use what sqlx and the program write. An instant is bound and kept in whole
-- microseconds, and an agent's id of more than 255 characters is refused; the hash of a user, of 64
-- digits, always fits its column.
--
-- Left out: log lines, the counting of the metrics, tracing and the limits of time of the HTTP
-- client; the code that serde derives, and that is generated from the Cap'n Proto schema; the table
-- and the view of the migrations that no statement uses.
pub mod Prelude
pub mod Json
pub mod Net
pub mod Agent
pub mod Probe
pub mod UserId
pub mod Prefix
pub mod Database
pub mod Http
pub mod Submit
pub mod Handlers
pub mod Examples
pub mod App
pub mod Kafka
pub mod Main
pub mod Router
pub mod Jwt
