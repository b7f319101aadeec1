-- ===== src/Tests.antt =====
-- Runs of the model at concrete inputs, and each property at an input that meets its hypotheses.
mod Verbatim
mod Services
mod Triage
mod Pipeline
mod Numbers
mod Parser
mod Ledgers
mod Runner
mod Api
mod Checks
mod Recheck
mod Coach
mod Paraphrase
mod Stores
