-- ===== src/Orchestrator/Model.antt =====
-- services/orchestrator-service/internal/domain, with the tables of its db/up.sql.
use zuno_marketplace_api.Common.{ℕ, Text, codes, Bool, Option, List}

pub data IntentKind : Type 0 where
  collection mint : IntentKind

pub data IntentStatus : Type 0 where
  pending ready failed expired : IntentStatus

-- A Standard is a string; these two are the supported ones.
abbrev pub std_erc721 : Text
std_erc721 = codes "ERC721"

abbrev pub std_erc1155 : Text
std_erc1155 = codes "ERC1155"

pub record PrepareCreateCollectionInput : Type 0 where
  pub chain_id : Text
  pub name : Text
  pub symbol : Text
  pub creator : Text
  pub token_uri : Text
  pub collection_type : Text
  pub description : Option Text
  pub mint_price : Option ℕ
  pub royalty_fee : Option ℕ
  pub max_supply : Option ℕ
  pub mint_limit_per_wallet : Option ℕ
  pub mint_start_time : Option ℕ
  pub allowlist_mint_price : Option ℕ
  pub public_mint_price : Option ℕ
  pub allowlist_stage_duration : Option ℕ
  pub created_by : Option Text
  pub deadline_at : Option ℕ

pub record PrepareMintInput : Type 0 where
  pub chain_id : Text
  pub contract : Text
  pub standard : Text
  pub minter : Text
  pub quantity : ℕ
  pub token_id : Option ℕ
  pub created_by : Option Text

-- What ReqPayloadJSON holds.
pub data Payload : Type 0 where
  collection_payload :
      (input : PrepareCreateCollectionInput) (collection_type factory_address : Text) → Payload
  mint_payload : (input : PrepareMintInput) → Payload

pub record Intent : Type 0 where
  pub id : Text
  pub kind : IntentKind
  pub chain_id : Text
  pub preview_address : Option Text
  pub tx_hash : Option Text
  pub status : IntentStatus
  pub created_by : Option Text
  pub req_payload : Payload
  pub error : Option Text
  pub auth_session_id : Option Text
  pub deadline_at : Option ℕ
  pub created_at : ℕ
  pub updated_at : ℕ

pub record TxRequest : Type 0 where
  pub to : Text
  pub data_bytes : List ℕ
  pub value : Text
  pub preview : Option Text

pub record IntentStatusPayload : Type 0 where
  pub intent_id : Text
  pub intent_kind : IntentKind
  pub intent_status : IntentStatus
  pub chain : Option Text
  pub hash : Option Text
  pub contract_address : Option Text

pub record TrackTxInput : Type 0 where
  pub intent_id : Text
  pub chain_id : Text
  pub tx_hash : Text
  pub contract : Option Text

-- A row of session_intent_audit, without its JSON.
pub record Audit : Type 0 where
  pub session_id : Text
  pub intent_id : Text
  pub user_id : Option Text

pub data OrchestratorError : Type 0 where
  not_found invalid_input duplicate_tx unsupported_standard unauthenticated : OrchestratorError
  invalid_collection contracts_unavailable factory_not_found encode_failed database_error :
      OrchestratorError

-- The two tables, the statuses put in the cache (the newest first), and for each call of the
-- database to come whether it fails.
pub record Store : Type 0 where
  pub intents : List Intent
  pub audits : List Audit
  pub cache : List IntentStatusPayload
  pub faults : List Bool
