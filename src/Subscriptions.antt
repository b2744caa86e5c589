-- ===== src/Subscriptions.antt =====
-- services/subscription-worker: WebSocket connections and their subscriptions to intents.
pub mod Sets
pub mod Membership
pub mod Model
pub mod Manager
pub mod Spec
pub mod Pairs
pub mod Pushes
pub mod Refines
pub mod Keeping
pub mod Delivery
pub mod Stopping
pub mod Stale
mod Tests
