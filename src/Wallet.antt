-- ===== src/Wallet.antt =====
-- services/wallet-service: wallet links, the transactional repository and UpsertLink.
pub mod Model
pub mod Validate
pub mod Repo
pub mod Table
pub mod Writes
pub mod Service
pub mod Statements
pub mod Stored
pub mod Invariant
pub mod Staying
pub mod Branches
pub mod Linked
pub mod Validity
mod Tests
