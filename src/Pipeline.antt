-- ===== src/Pipeline.antt =====
-- The stages of a check, backend/pipeline/.
pub mod Localize
pub mod Rerank
pub mod Stages
