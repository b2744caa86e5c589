-- ===== src/Auth.antt =====
-- services/auth-service: sign-in with Ethereum, one-time nonces and sessions.
pub mod Model
pub mod Repo
pub mod Sessions
pub mod Service
pub mod SignIn
pub mod Tokens
pub mod Calls
pub mod Tables
pub mod Spent
pub mod Closed
pub mod Replay
pub mod Renewal
pub mod Grants
pub mod RoundTrip
mod Tests
