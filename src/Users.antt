-- ===== src/Users.antt =====
-- services/user-service: one user for an account.
pub mod Model
pub mod Repo
pub mod Service
pub mod Mapping
pub mod Answer
mod Tests
