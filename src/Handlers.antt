-- ===== src/Handlers.antt =====
-- src/lib.rs: the request handlers beside `submit_probes`. A handler that locks a store twice lets
-- other requests run in between: what they do to the store is a parameter, `others`. A reply that
-- the source writes as JSON is a record with the keys as fields.
pub mod Agents
pub mod Measurements
pub mod Query
pub mod Users
