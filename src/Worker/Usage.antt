-- ===== src/Worker/Usage.antt =====
-- The two usage ledgers of backend/worker/usage.py: one row for each accepted check.
pub mod Memory
pub mod Postgres
pub mod Owners
pub mod Agreement
