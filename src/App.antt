-- ===== src/App.antt =====
-- backend/app: what stands between a request and the worker.
pub mod Limits
pub mod Auth
pub mod Check
