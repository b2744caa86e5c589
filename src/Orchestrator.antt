-- ===== src/Orchestrator.antt =====
-- services/orchestrator-service: transaction intents, from their preparation to the tracked hash.
pub mod Model
pub mod Validate
pub mod Repo
pub mod Service
pub mod Effects
pub mod Tracking
pub mod Rows
pub mod Unique
pub mod Prepared
pub mod Encoding
pub mod Preparing
mod Tests
