-- ===== src/Worker.antt =====
-- The worker side of a check, backend/worker/: the job store, the bounded executor, and the ledger.
pub mod Store
pub mod Executor
pub mod Usage
pub mod Runner
