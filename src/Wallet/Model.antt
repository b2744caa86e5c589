-- ===== src/Wallet/Model.antt =====
-- services/wallet-service/internal/domain/domain.go, and the columns of the `wallets` table of
-- services/wallet-service/db/up.sql that the repository reads or writes.
use zuno_marketplace_api.Common.{ℕ, Text, Bool, Option, List}

pub record WalletLink : Type 0 where
  pub id : Text
  pub user_id : Text
  pub account_id : Text
  pub address : Text
  pub chain_id : Text
  pub is_primary : Bool
  pub verified_at : Option ℕ
  pub created_at : ℕ
  pub updated_at : ℕ

-- A row of the table: the columns of a link, and the two that no query returns.
pub record Row : Type 0 where
  pub link : WalletLink
  pub open link use *
  pub last_seen_at : Option ℕ
  pub label : Option Text

pub record WalletUpsertResult : Type 0 where
  pub link : WalletLink
  pub created : Bool
  pub primary_changed : Bool

pub data WalletError : Type 0 where
  user_id_required account_id_required address_required chain_id_required : WalletError
  invalid_address invalid_chain_id : WalletError
  wallet_not_found unauthorized_access : WalletError
  linked_to_another_account linked_to_another_user : WalletError
  database_unavailable statement_failed commit_failed : WalletError

-- The transaction: the rows as it sees them, the hashed keys of the advisory locks that it holds,
-- whether a statement has failed in it (the server then refuses every later one), and, for each
-- statement to come, whether the server refuses it for a reason outside this model.
pub record Tx : Type 0 where
  pub rows : List Row
  pub locks : List ℕ
  pub aborted : Bool
  pub faults : List Bool
