-- ===== src/Examples.antt =====
-- The theorems at concrete inputs.
mod Parameters
mod Agents
mod Probes
mod Users
mod Rows
mod Submissions
mod Tokens
mod Start
mod Postgres
mod Stored
mod Charged
