-- ===== src/Indexer.antt =====
-- services/indexer-service: from the logs of a chain to stored and published events.
pub mod Model
pub mod Checkpoints
pub mod Events
pub mod Client
pub mod Service
pub mod Claims
pub mod Rows
pub mod Runs
pub mod Progress
pub mod Invariants
pub mod Fuel
pub mod Arrival
mod Tests
