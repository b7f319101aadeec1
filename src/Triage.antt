-- ===== src/Triage.antt =====
-- The triage of flags, backend/services/triage.py, and the proofs about it.
pub mod Rules
pub mod Signals
pub mod Summary
