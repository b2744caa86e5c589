-- ===== src/Users/Model.antt =====
-- services/user-service/internal/domain: domain.go and error.go, and the rows of db/up.sql.
use zuno_marketplace_api.Common.{Text, Bool, List}
use zuno_marketplace_api.Common.Faults.{Faulty}

pub record EnsureUserResult : Type 0 where
  pub user_id : Text
  pub created : Bool

pub record AccountRow : Type 0 where
  pub account_id : Text
  pub user_id : Text
  pub address : Text
  pub chain_id : Text

-- The ids of the users and of the profiles, and the accounts.
pub record Tables : Type 0 where
  pub users : List Text
  pub profiles : List Text
  pub accounts : List AccountRow

-- The database, and whether a statement of the open transaction has failed.
pub record Database : Type 0 where
  pub tables : Tables
  pub aborted : Bool

abbrev pub Store : Type 0
Store = Faulty Database

pub data UserError : Type 0 where
  user_not_found invalid_input database_error : UserError
