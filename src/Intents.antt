-- ===== src/Intents.antt =====
-- services/subscription-worker: the intents in Redis and what resolves them.
pub mod Redis
pub mod Repository
pub mod Resolution
pub mod Entries
pub mod Reading
pub mod Storing
pub mod Settled
pub mod Ready
pub mod Writing
pub mod Resolving
mod Sample
mod Tests
