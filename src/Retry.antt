-- ===== src/Retry.antt =====
-- shared/retry/retry.go: an operation tried again with growing waits.
pub mod Backoff
pub mod Bounds
mod Tests
