-- ===== src/Orchestrator/Tests.antt =====
-- Runs of the orchestrator on small tables, and the theorems applied to them.
use mathlib.Core.List.Memᴰ
use zuno_marketplace_api.Common.{
  ℕ, zero, suc, Text, codes, ◌≡◌, refl, ap, sym, ◌∙◌, Bool, true, false, [], ◌∷◌, ◌++◌, Memᴰ,
  Option, none, some, any, find?, text_eq, split, Result, ok, ◌>>=◌, inl, inr,
}
use zuno_marketplace_api.Orchestrator.Model.{
  PrepareCreateCollectionInput, TrackTxInput, TxRequest, Intent, OrchestratorError, Store,
  std_erc721,
}
use zuno_marketplace_api.Orchestrator.Validate.{
  validate_create_collection_input, is_valid_ethereum_address, is_valid_caip2_chain_id,
}
use zuno_marketplace_api.Orchestrator.Repo.{
  call, fits_columns, has_id, insert_intent, create, insert_audit, insert_session_intent_audit,
  set_intent_status,
}
use zuno_marketplace_api.Orchestrator.Service.{
  World, Config, get_factory_address_and_type, link_session, encode_create_collection,
  collection_intent, prepare_create_collection, track_tx,
}
use zuno_marketplace_api.Orchestrator.Rows.{OneTx}
use zuno_marketplace_api.Orchestrator.Unique.{track_tx-OneTx}
use zuno_marketplace_api.Orchestrator.Prepared.{Creates, Factory, Linked, IsPrepared, IsCall}
use zuno_marketplace_api.Orchestrator.Preparing.{prepare_create_collection-adds_intent}

abbrev factory : Text
factory = codes "0x00000000000000000000000000000000000000f0"

abbrev small_world : World
small_world = record {
  Abi = Text;
  get_contracts = λ chain.
      some (record { contract_name = codes "ERC721CollectionFactory"; address = factory } ∷ []);
  get_abi_by_address = λ chain address. some (codes "abi");
  parse_abi = λ json. some json;
  pack = λ abi method input. some method;
  is_uuid = λ text. true;
}

abbrev config : Config
config = record { session_linked_intents = true; redis_works = true }

abbrev input : PrepareCreateCollectionInput
input = record {
  chain_id = codes "eip155:1";
  name = codes "Zuno";
  symbol = codes "ZN";
  creator = codes "0x00000000000000000000000000000000000000aA";
  token_uri = [];
  collection_type = std_erc721;
  description = none;
  mint_price = none;
  royalty_fee = some 10000;
  max_supply = some 1000000;
  mint_limit_per_wallet = none;
  mint_start_time = none;
  allowlist_mint_price = none;
  public_mint_price = none;
  allowlist_stage_duration = none;
  created_by = none;
  deadline_at = none;
}

abbrev start : Store
start = record { intents = []; audits = []; cache = []; faults = [] }

abbrev prepared : Result OrchestratorError (Text × TxRequest) × Store
prepared = prepare_create_collection small_world config 5 (codes "i1") (codes "s1" ∷ []) input start

abbrev answer : Text × TxRequest
answer = (
  codes "i1",
  record {
    to = factory;
    data_bytes = codes "createERC721Collection";
    value = codes "0";
    preview = none;
  },
)

prepared-answer : prepared.0 ≡ ok answer
unfolding prepare_create_collection validate_create_collection_input is_valid_ethereum_address
    is_valid_caip2_chain_id split ◌>>=◌ text_eq get_factory_address_and_type find? link_session
    create insert_intent call fits_columns insert_session_intent_audit insert_audit
    encode_create_collection set_intent_status
prepared-answer = refl

prepare_create_collection-adds_intent_example :
    (validate_create_collection_input 5 input ≡ true)
    × (name : Text) × (method : Text) × (f : Text) × Creates std_erc721 name method
    × Factory small_world config 5 input name f
    × (session : Option Text) × Linked small_world config 5 (codes "s1" ∷ []) session
    × (any (has_id (codes "i1")) [] ≡ false)
    × (intent : Intent) × (prepared.1.intents ≡ intent ∷ [])
    × IsPrepared 5 (codes "i1") f session input intent
    × (answer.0 ≡ codes "i1")
    × IsCall small_world config 5 input f method (answer.1)
prepare_create_collection-adds_intent_example =
    prepare_create_collection-adds_intent small_world config 5 (codes "i1") (codes "s1" ∷ []) input
      start answer prepared-answer

abbrev zeros : ℕ → Text
zeros zero = []
zeros (suc n) = b'0' ∷ zeros n

abbrev tracking : TrackTxInput
tracking = record {
  intent_id = codes "i1";
  chain_id = codes "eip155:1";
  tx_hash = codes "0x" ++ zeros 64;
  contract = none;
}

-- The table that the preparation leaves.
abbrev one_intent : Store
one_intent = record start {
  intents =
      collection_intent small_world config 5 (codes "i1") factory (some (codes "s1")) input ∷ [];
}

abbrev tracked : Result OrchestratorError Bool × Store
tracked = track_tx small_world config 6 tracking one_intent

only_one :
    (r : Intent)
    → Memᴰ r one_intent.intents
    → r ≡ collection_intent small_world config 5 (codes "i1") factory (some (codes "s1")) input
only_one r m = elim (Memᴰ.cases_cons m) [ inl e ↦ e | inr k ↦ elim k [ ] ]

one_intent-OneTx : OneTx one_intent.intents
one_intent-OneTx = record {
  same = λ r r' m m' c hash t t'. ap (λ (n : Intent). n.id) (only_one r m ∙ sym (only_one r' m'));
}

track_tx-OneTx_example : OneTx tracked.1.intents
track_tx-OneTx_example =
    track_tx-OneTx small_world config 6 tracking one_intent one_intent-OneTx refl
      (λ r m e. ap (λ (n : Intent). n.chain_id) (only_one r m))
