-- ===== src/Indexer/Service.antt =====
-- services/indexer-service/internal/service/indexer_service.go
use zuno_marketplace_api.Common.{
  ℕ, zero, suc, ◌+◌, ◌-◌, Text, codes, Bool, true, false, List, [], ◌∷◌, Option, none, some,
  if◌then◌else◌, leb, ltb, text_eq, find?, Exec, pure, fail, attempt, ◌>>=◌, ◌>>◌,
}
use zuno_marketplace_api.Indexer.Model.{
  RawEvent, CollectionCreatedEvent, Log, LogFilter, IndexerError, Store, client_not_found,
  factory_not_found, cancelled, out_of_fuel,
}
use zuno_marketplace_api.Indexer.Checkpoints.{get_checkpoint, update_checkpoint}
use zuno_marketplace_api.Indexer.Events.{store_raw_event, publish_collection_created_event}
use zuno_marketplace_api.Indexer.Client.{
  Node, get_latest_block, get_block_by_number, get_logs, get_confirmations,
  parse_collection_created_log,
}

abbrev pub collection_created_signature : Text
collection_created_signature =
    codes "0x4d72fe0577a3a3f7da968d7b892779dde102519c25c1838b6653ccc4b0b96d2e"

abbrev pub max_block_batch_size : ℕ
max_block_batch_size = 100

unfoldable pub get_required_confirmations : Text → ℕ
get_required_confirmations chain_id =
    if text_eq chain_id (codes "eip155-1")
    then 12
    else if text_eq chain_id (codes "eip155-137")
    then 20
    else if text_eq chain_id (codes "eip155-11155111")
    then 3
    else if text_eq chain_id (codes "eip155-80001")
    then 5
    else 6

-- What the select after a batch finds first: the 100 ms have gone, the context is done, or the
-- service is being stopped.
pub data Signal : Type 0 where
  elapsed context_done stopped : Signal

module _ (node : Node) (now : ℕ) where
  abbrev pub raw_event : Text → Log → ℕ → CollectionCreatedEvent → RawEvent
  raw_event chain_id log confirmations parsed = record {
    id = [];
    chain_id = chain_id;
    tx_hash = log.tx_hash;
    log_index = log.log_index;
    block_number = log.block_number;
    block_hash = log.block_hash;
    contract_address = log.address;
    event_name = codes "CollectionCreated";
    event_signature = collection_created_signature;
    topics = log.topics;
    data_text = log.data_text;
    parsed = parsed;
    confirmations = confirmations;
    observed_at = now;
    created_at = 0;
  }

  -- `if confirmations >= requiredConfirmations`
  abbrev pub publish_if :
      Bool → Text → RawEvent → CollectionCreatedEvent → Exec Store IndexerError (Unit {0})
  publish_if true chain_id raw collection =
      publish_collection_created_event now chain_id raw collection
  publish_if false chain_id raw collection = pure tt

  unfoldable pub process_collection_created_log : Text → Log → Exec Store IndexerError (Unit {0})
  process_collection_created_log chain_id log = do
    confirmations ← get_confirmations node log.block_number
    collection ← parse_collection_created_log log
    store_raw_event now (raw_event chain_id log confirmations collection)
    publish_if (leb (get_required_confirmations chain_id) confirmations) chain_id
        (raw_event chain_id log confirmations collection) collection

  -- A log that fails does not hold up the others.
  unfoldable pub process_logs : Text → List Log → Exec Store IndexerError (Unit {0})
  process_logs chain_id [] = pure tt
  process_logs chain_id (log ∷ logs) = do
    _ ← attempt (process_collection_created_log chain_id log)
    process_logs chain_id logs

  abbrev pub filter : Text → ℕ → ℕ → LogFilter
  filter factory from_block to_block = record {
    from_block = from_block;
    to_block = to_block;
    address = factory;
    topic = collection_created_signature;
  }

  -- The end of a batch that begins at `from_block`.
  abbrev pub batch_end : ℕ → ℕ → ℕ
  batch_end from_block latest =
      let to_block = from_block + (max_block_batch_size - 1) in
      if ltb latest to_block then latest else to_block

  unfoldable pub process_batch : Text → Text → ℕ → ℕ → Exec Store IndexerError (Unit {0})
  process_batch chain_id factory from_block to_block = do
    logs ← get_logs node chain_id (filter factory from_block to_block)
    process_logs chain_id logs
    hash ← get_block_by_number node to_block
    update_checkpoint now (record {
      chain_id = chain_id;
      last_block = to_block;
      last_block_hash = hash;
      updated_at = now;
    })

  abbrev pub then_unless :
      Signal → Exec Store IndexerError (Unit {0}) → Exec Store IndexerError (Unit {0})
  then_unless elapsed rest = rest
  then_unless context_done rest = fail cancelled
  then_unless stopped rest = pure tt

  -- The loop over the batches, on fuel; `signal` gives what the select after the batch from a block
  -- finds.
  unfoldable pub process_batches :
      (ℕ → Signal) → ℕ → Text → Text → ℕ → ℕ → Exec Store IndexerError (Unit {0})
  process_batches signal zero chain_id factory from_block latest =
      if ltb latest from_block then pure tt else fail out_of_fuel
  process_batches signal (suc fuel) chain_id factory from_block latest =
      let to_block = batch_end from_block latest in
      let rest = process_batches signal fuel chain_id factory (suc to_block) latest in
      let run = (do
        process_batch chain_id factory from_block to_block
        then_unless (signal from_block) rest) in
      if ltb latest from_block then pure tt else run

  -- A unit of fuel for each block that is left.
  unfoldable pub process_chain_events :
      (ℕ → Signal) → Text → Text → Exec Store IndexerError (Unit {0})
  process_chain_events signal chain_id factory = do
    checkpoint ← get_checkpoint now chain_id
    latest ← get_latest_block node
    process_batches signal (latest - checkpoint.last_block) chain_id factory
        (suc checkpoint.last_block) latest

-- The clients and the factory contracts by their chains.
pub record Chains : Type 0 where
  pub clients : List (Text × Node)
  pub factories : List (Text × Text)

abbrev pub second : {A : Type 0} → Option (Text × A) → IndexerError → Exec Store IndexerError A
second none e = fail e
second (some entry) e = pure (entry.1)

unfoldable pub index_chain : Chains → ℕ → (ℕ → Signal) → Text → Exec Store IndexerError (Unit {0})
index_chain chains now signal chain_id = do
  client ← second (find? (λ entry. text_eq entry.0 chain_id) chains.clients) client_not_found
  factory ← second (find? (λ entry. text_eq entry.0 chain_id) chains.factories) factory_not_found
  process_chain_events client now signal chain_id factory
