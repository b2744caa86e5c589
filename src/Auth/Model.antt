-- ===== src/Auth/Model.antt =====
-- services/auth-service/internal/domain, and the tables of services/auth-service/db/up.sql with the
-- Redis keys of the repository. Times are nanoseconds.
use zuno_marketplace_api.Common.{ℕ, ◌*◌, Text, Bool, Option, List}

pub record Nonce : Type 0 where
  pub value : Text
  pub account_id : Text
  pub chain_id : Text
  pub domain : Text
  pub used : Bool
  pub expires_at : ℕ
  pub created_at : ℕ

pub record Session : Type 0 where
  pub id : Text
  pub user_id : Text
  pub refresh_hash : Text
  pub expires_at : ℕ
  pub created_at : ℕ
  pub revoked_at : Option ℕ
  pub device_id : Option Text
  pub ip : Option Text
  pub ua : Option Text
  pub last_used_at : Option ℕ
  pub collection_intent_context : Option Text

pub record AuthResult : Type 0 where
  pub access_token : Text
  pub refresh_token : Text
  pub expires_at : ℕ
  pub user_id : Text
  pub address : Text
  pub chain_id : Text

pub record AuthUserLoggedInEvent : Type 0 where
  pub user_id : Text
  pub account_id : Text
  pub address : Text
  pub chain_id : Text
  pub session_id : Text
  pub logged_in_at : ℕ

pub data AuthError : Type 0 where
  invalid_account_id invalid_chain_id domain_required : AuthError
  nonce_not_found nonce_exists nonce_generation database_error : AuthError
  message_unparsable address_mismatch bad_time message_expired message_not_yet_valid : AuthError
  nonce_required bad_signature signer_mismatch nonce_rejected : AuthError
  user_failed wallet_failed signing_failed : AuthError
  token_required token_malformed session_not_found session_expired session_id_required : AuthError
  session_id_malformed : AuthError

-- A row of auth_nonces; issued_at and created_at are both the record's CreatedAt.
pub record NonceRow : Type 0 where
  pub nonce : Nonce
  pub open nonce use *
  pub used_at : Option ℕ

-- The database, the cached nonce keys with their expiry, the published events, and for each call
-- of the database or of Redis to come whether it fails.
pub record Store : Type 0 where
  pub nonces : List NonceRow
  pub sessions : List Session
  pub cache : List (Text × ℕ)
  pub published : List AuthUserLoggedInEvent
  pub faults : List Bool

abbrev pub second : ℕ
second = 1000000000

abbrev pub minute : ℕ
minute = 60 * second

abbrev pub hour : ℕ
hour = 60 * minute
