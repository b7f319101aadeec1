-- ===== src/Matcher.antt =====
-- backend/services/plagiarism_matcher.py: the deterministic source-attribution matcher.
pub mod Types
pub mod Tokens
pub mod Verbatim
pub mod Emit
pub mod Coverage
pub mod Check
pub mod Sentences
pub mod Paraphrase
