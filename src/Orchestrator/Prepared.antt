-- ===== src/Orchestrator/Prepared.antt =====
-- What a PrepareCreateCollection promises: the intent it adds and the transaction it answers.
use zuno_marketplace_api.Common.{
  ℕ, Text, codes, ◌≡◌, List, Option, none, some, find?, text_eq, true, false, if◌then◌else◌,
  is_empty,
}
use zuno_marketplace_api.Orchestrator.Model.{
  Intent, collection, pending, PrepareCreateCollectionInput, TxRequest, collection_payload,
}
use zuno_marketplace_api.Orchestrator.Service.{World, Config, Contract, first_value}

-- The factory contract and its method for each type of collection.
pub data Creates : Text → Text → Text → Type 0 where
  erc721 :
      Creates (codes "ERC721") (codes "ERC721CollectionFactory") (codes "createERC721Collection")
  erc1155 :
      Creates (codes "ERC1155") (codes "ERC1155CollectionFactory") (codes "createERC1155Collection")

-- A new intent for the request.
pub record IsPrepared (now : ℕ) (id factory : Text) (session : Option Text)
    (input : PrepareCreateCollectionInput) (intent : Intent) : Type 0 where
  pub own_id : intent.id ≡ id
  pub of_collection : intent.kind ≡ collection
  pub is_pending : intent.status ≡ pending
  pub on_chain : intent.chain_id ≡ input.chain_id
  pub no_hash : intent.tx_hash ≡ none
  pub no_preview : intent.preview_address ≡ none
  pub no_error : intent.error ≡ none
  pub linked : intent.auth_session_id ≡ session
  pub by_user : intent.created_by ≡ input.created_by
  pub deadline : intent.deadline_at ≡ input.deadline_at
  pub payload : intent.req_payload ≡ collection_payload input input.collection_type factory
  pub created : intent.created_at ≡ now
  pub updated : intent.updated_at ≡ now

module _ (world : World) (config : Config) (now : ℕ) where
  -- The first contract of the name among those of the chain.
  pub record Factory (input : PrepareCreateCollectionInput) (name address : Text) : Type 0 where
    pub contracts : List Contract
    pub of_chain : world.get_contracts input.chain_id ≡ some contracts
    pub contract : Contract
    pub named : find? (λ c. text_eq c.contract_name name) contracts ≡ some contract
    pub has_address : contract.address ≡ address

  -- A call of the method of the factory, packed by the factory's ABI, without a value.
  pub record IsCall (input : PrepareCreateCollectionInput) (factory method : Text) (tx : TxRequest)
      : Type 0 where
    pub to_factory : tx.to ≡ factory
    pub no_value : tx.value ≡ codes "0"
    pub no_preview : tx.preview ≡ none
    pub json : Text
    pub known : world.get_abi_by_address input.chain_id factory ≡ some json
    pub abi : world.Abi
    pub parsed : world.parse_abi json ≡ some abi
    pub packed : world.pack abi method input ≡ some tx.data_bytes

  -- The session that an intent is linked to.
  pub record Linked (header : List Text) (session : Option Text) : Type 0 where
    pub enforced :
        config.session_linked_intents ≡ true
        → (session ≡ some (first_value world config now header))
          × (world.is_uuid (first_value world config now header) ≡ true)
    pub best_effort :
        config.session_linked_intents ≡ false
        → session ≡ (
            if is_empty (first_value world config now header)
            then none
            else some (first_value world config now header))
