-- ===== src/Orchestrator/Service.antt =====
-- services/orchestrator-service/internal/service/service.go, with the encoder of
-- internal/encode/encode.go. Each method takes the time `now` and the UUID it draws.
use zuno_marketplace_api.Common.{
  ℕ, Text, codes, Bool, true, false, not, ◌&&◌, ◌||◌, List, [], ◌∷◌, Option, none, some,
  if◌then◌else◌, find?, is_empty, text_eq, Result, ok, err, Exec, pure, fail, attempt, require,
  ◌>>=◌, ◌>>◌,
}
use zuno_marketplace_api.Orchestrator.Model.{
  IntentKind, collection, mint, pending, failed, std_erc721, std_erc1155,
  PrepareCreateCollectionInput, PrepareMintInput, collection_payload, mint_payload, Intent,
  TxRequest, IntentStatusPayload, TrackTxInput, OrchestratorError, Store, invalid_input,
  duplicate_tx, unsupported_standard, unauthenticated, invalid_collection, contracts_unavailable,
  factory_not_found, encode_failed,
}
use zuno_marketplace_api.Orchestrator.Validate.{validate_create_collection_input, is_supported}
use zuno_marketplace_api.Orchestrator.Repo.{
  create, update_tx_hash, update_status, get_by_id, find_by_chain_tx, insert_session_intent_audit,
  set_intent_status,
}

pub record Contract : Type 0 where
  pub contract_name : Text
  pub address : Text

-- What the service calls: the chain registry's contracts of a chain and its ABIs, the ABI library,
-- and the UUID parser. `pack` encodes a call of the named method with the collection's fields, and
-- is none for an unknown method or values that do not fit.
pub record World : Type 1 where
  pub Abi : Type 0
  pub get_contracts : Text → Option (List Contract)
  pub get_abi_by_address : Text → Text → Option Text
  pub parse_abi : Text → Option Abi
  pub pack : Abi → Text → PrepareCreateCollectionInput → Option (List ℕ)
  pub is_uuid : Text → Bool

-- The settings, and whether Redis answers.
pub record Config : Type 0 where
  pub session_linked_intents : Bool
  pub redis_works : Bool

module _ (world : World) (config : Config) (now : ℕ) where
  open world use {get_contracts, get_abi_by_address, parse_abi, pack, is_uuid}
  open config use {session_linked_intents, redis_works}

  abbrev pub found : {A : Type 0} → Option A → OrchestratorError → Exec Store OrchestratorError A
  found none e = fail e
  found (some a) e = pure a

  abbrev pub factory_name : Text → Text
  factory_name collection_type =
      if text_eq collection_type std_erc721
      then codes "ERC721CollectionFactory"
      else codes "ERC1155CollectionFactory"

  -- The unsupported type, which validation has refused before, fails here as well.
  unfoldable pub get_factory_address_and_type :
      PrepareCreateCollectionInput → Exec Store OrchestratorError (Text × Text)
  get_factory_address_and_type input = do
    contracts ← found (get_contracts input.chain_id) contracts_unavailable
    require (is_supported input.collection_type) factory_not_found
    factory ←
        found (find? (λ c. text_eq c.contract_name (factory_name input.collection_type)) contracts)
          factory_not_found
    pure (factory.address, input.collection_type)

  abbrev pub first_value : List Text → Text
  first_value [] = []
  first_value (value ∷ values) = value

  -- The session of the header x-auth-session-id: validated if intents are linked to sessions, and
  -- otherwise kept if there is one.
  unfoldable pub link_session : List Text → Exec Store OrchestratorError (Option Text)
  link_session header =
      let session = first_value header in
      if session_linked_intents
      then (if not (is_empty session) && is_uuid session
          then pure (some session)
          else fail unauthenticated)
      else pure (if is_empty session then none else some session)

  abbrev pub method_name : Text → Option Text
  method_name collection_type =
      if text_eq collection_type std_erc721
      then some (codes "createERC721Collection")
      else if text_eq collection_type std_erc1155
      then some (codes "createERC1155Collection")
      else none

  abbrev pub calldata :
      Option world.Abi → Option Text → PrepareCreateCollectionInput → Option (List ℕ)
  calldata (some abi) (some method) input = pack abi method input
  calldata _ _ input = none

  abbrev pub abi_of : Option Text → Option world.Abi
  abi_of none = none
  abi_of (some json) = parse_abi json

  abbrev pub tx_request : Text → Option (List ℕ) → Option TxRequest
  tx_request factory none = none
  tx_request factory (some packed) =
      some (record { to = factory; data_bytes = packed; value = codes "0"; preview = none })

  -- EncodeCreateCollection never gives a preview address.
  unfoldable pub encode_create_collection : Text → PrepareCreateCollectionInput → Option TxRequest
  encode_create_collection factory input =
      if is_empty input.name || (is_empty input.symbol || is_empty input.creator)
      then none
      else tx_request factory (
          calldata (abi_of (get_abi_by_address input.chain_id factory))
            (method_name input.collection_type) input)

  -- EncodeMint answers empty fields.
  abbrev pub encode_mint : PrepareMintInput → Option TxRequest
  encode_mint input = some (record { to = []; data_bytes = []; value = []; preview = none })

  abbrev pub audit_session :
      Option Text → Text → Option Text → Exec Store OrchestratorError (Unit {0})
  audit_session none id user_id = pure tt
  audit_session (some session) id user_id = do
    _ ← attempt (
        insert_session_intent_audit
          (record { session_id = session; intent_id = id; user_id = user_id }))
    pure tt

  abbrev pub collection_intent : Text → Text → Option Text → PrepareCreateCollectionInput → Intent
  collection_intent id factory session input = record {
    id = id;
    kind = collection;
    chain_id = input.chain_id;
    preview_address = none;
    tx_hash = none;
    status = pending;
    created_by = input.created_by;
    req_payload = collection_payload input (input.collection_type) factory;
    error = none;
    auth_session_id = session;
    deadline_at = input.deadline_at;
    created_at = now;
    updated_at = now;
  }

  -- `if preview != nil`: the hash becomes the empty string; an error is only logged.
  abbrev pub store_preview : Text → Option Text → Exec Store OrchestratorError (Unit {0})
  store_preview id none = pure tt
  store_preview id (some address) = do
    _ ← attempt (update_tx_hash now id [] (some address))
    pure tt

  -- An encoder's error makes the intent failed; the text of the error is not modelled.
  abbrev pub encoded :
      Text → IntentKind → Text → Option TxRequest → Exec Store OrchestratorError (Text × TxRequest)
  encoded id kind chain_id none = do
    _ ← attempt (update_status now id failed (some (codes "encode")))
    fail encode_failed
  encoded id kind chain_id (some tx) = do
    store_preview id tx.preview
    set_intent_status redis_works (record {
      intent_id = id;
      intent_kind = kind;
      intent_status = pending;
      chain = some chain_id;
      hash = none;
      contract_address = tx.preview;
    })
    pure (id, tx)

  unfoldable pub prepare_create_collection :
      Text
      → List Text
      → PrepareCreateCollectionInput
      → Exec Store OrchestratorError (Text × TxRequest)
  prepare_create_collection id header input = do
    require (validate_create_collection_input now input) invalid_collection
    (factory, collection_type) ← get_factory_address_and_type input
    session ← link_session header
    create (collection_intent id factory session input)
    audit_session session id input.created_by
    encoded id collection input.chain_id (encode_create_collection factory input)

  abbrev pub mint_intent : Text → PrepareMintInput → Intent
  mint_intent id input = record {
    id = id;
    kind = mint;
    chain_id = input.chain_id;
    preview_address = none;
    tx_hash = none;
    status = pending;
    created_by = input.created_by;
    req_payload = mint_payload input;
    error = none;
    auth_session_id = none;
    deadline_at = none;
    created_at = now;
    updated_at = now;
  }

  unfoldable pub prepare_mint :
      Text → PrepareMintInput → Exec Store OrchestratorError (Text × TxRequest)
  prepare_mint id input = do
    require (not (is_empty input.chain_id || (is_empty input.contract || is_empty input.minter)))
        invalid_input
    require (is_supported input.standard) unsupported_standard
    create (mint_intent id input)
    encoded id mint input.chain_id (encode_mint input)

  -- `err == nil && existingIntent != nil && existingIntent.ID != in.IntentID`
  abbrev pub is_other : Text → Result OrchestratorError Intent → Bool
  is_other id (ok row) = not (text_eq row.id id)
  is_other id (err e) = false

  abbrev pub is_tracked : Text → Option Text → Bool
  is_tracked hash none = false
  is_tracked hash (some own) = text_eq own hash

  -- From an intent whose hash is another one.
  unfoldable pub record_tx : TrackTxInput → Intent → Exec Store OrchestratorError (Unit {0})
  record_tx input intent = do
    existing ← attempt (find_by_chain_tx input.chain_id input.tx_hash)
    require (not (is_other input.intent_id existing)) duplicate_tx
    update_tx_hash now input.intent_id input.tx_hash input.contract
    update_status now input.intent_id pending none
    set_intent_status redis_works (record {
      intent_id = input.intent_id;
      intent_kind = intent.kind;
      intent_status = pending;
      chain = some input.chain_id;
      hash = some input.tx_hash;
      contract_address = input.contract;
    })

  abbrev pub unless_tracked : Bool → TrackTxInput → Intent → Exec Store OrchestratorError (Unit {0})
  unless_tracked true input intent = pure tt
  unless_tracked false input intent = record_tx input intent

  unfoldable pub track_tx : TrackTxInput → Exec Store OrchestratorError Bool
  track_tx input = do
    require (not (is_empty input.intent_id || (is_empty input.chain_id || is_empty input.tx_hash)))
        invalid_input
    intent ← get_by_id input.intent_id
    unless_tracked (is_tracked input.tx_hash intent.tx_hash) input intent
    pure true

  abbrev pub status_of : Intent → IntentStatusPayload
  status_of intent = record {
    intent_id = intent.id;
    intent_kind = intent.kind;
    intent_status = intent.status;
    chain = some intent.chain_id;
    hash = intent.tx_hash;
    contract_address = intent.preview_address;
  }

  unfoldable pub get_intent_status : Text → Exec Store OrchestratorError IntentStatusPayload
  get_intent_status id = do
    require (not (is_empty id)) invalid_input
    intent ← get_by_id id
    pure (status_of intent)
