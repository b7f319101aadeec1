-- ===== src/Coach.antt =====
-- The coach, backend/services/coach.py, and the proofs about it.
pub mod Budget
pub mod Cards
pub mod Select
pub mod Session
pub mod Summary
