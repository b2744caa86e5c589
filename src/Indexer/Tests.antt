-- ===== src/Indexer/Tests.antt =====
-- The theorems on the indexer at concrete runs.
use zuno_marketplace_api.Common.{
  ℕ, suc, ◌≤◌, Text, codes, ◌≡◌, ◌≢◌, refl, List, [], ◌∷◌, some, if◌then◌else◌, ltb, ◌==◌, ok, err,
}
use zuno_marketplace_api.Indexer.Model.{Log, Store, out_of_fuel, factory_not_found}
use zuno_marketplace_api.Common.{◌>>=◌, find?, text_eq}
use zuno_marketplace_api.Common.Decimal.{decimal, digits_from}
use zuno_marketplace_api.Common.Faults.{server_call}
use zuno_marketplace_api.Indexer.Checkpoints.{
  get_checkpoint, select_checkpoint, update_checkpoint, update_row, fits, upsert_row,
  create_checkpoint,
}
use zuno_marketplace_api.Indexer.Events.{
  store_raw_event, upsert_event, publish_collection_created_event, send, generate_event_id,
}
use zuno_marketplace_api.Indexer.Client.{
  Node, get_latest_block, ask, get_logs, get_confirmations, confirmations_at,
  parse_collection_created_log, address_from_topic, get_block_by_number,
}
use zuno_marketplace_api.Indexer.Service.{
  elapsed, stopped, process_batches, process_batch, process_logs, process_collection_created_log,
  get_required_confirmations, process_chain_events, index_chain,
}
use zuno_marketplace_api.Indexer.Claims.{last_of}
use zuno_marketplace_api.Indexer.Invariants.{
  HasUniqueKeys, none_, AreFounded, no_message, IsAsking, process_chain_events-IsAtLeast,
  process_chain_events-HasUniqueKeys, process_chain_events-AreFounded,
  process_chain_events-IsAsking,
}
use zuno_marketplace_api.Indexer.Fuel.{process_chain_events-fueled}
use zuno_marketplace_api.Indexer.Arrival.{Answers, process_chain_events-arrives}

-- Two logs, in the blocks 101 and 249 of 250, under the ids of Sepolia and the factory.
abbrev log_at : ℕ → Log
log_at block = record {
  address = codes "0xf";
  topics = codes "0x1" ∷ codes "0x2" ∷ codes "0x3" ∷ [];
  data_text = [];
  block_number = block;
  tx_hash = codes "0xa";
  log_index = block;
  block_hash = codes "0xb";
}

abbrev logs_of : ℕ → List Log
logs_of from_block =
    if from_block == 101 then log_at 101 ∷ [] else if from_block == 201 then log_at 249 ∷ [] else []

abbrev node : Node
node = record {
  latest = λ n. some 250;
  filter_logs = λ n f. some (logs_of f.from_block);
  block_hash = λ n number. some (codes "0xb");
}

abbrev sepolia : Text
sepolia = codes "eip155-11155111"

abbrev start : Store
start = record {
  tables = record { checkpoints = []; events = []; published = []; queries = []; asked = 0 };
  faults = [];
}

abbrev run : Store → Store
run s = (process_chain_events node 7 (λ n. elapsed) sepolia (codes "0xf") s).1

abbrev count : {A : Type 0} → List A → ℕ
count [] = 0
count (x ∷ l) = suc (count l)

-- Both events are stored, but only the one with 3 confirmations is published, and a second run of the
-- chain leaves it at that.
stores_two : count (run start).tables.events ≡ 2
unfolding process_chain_events ◌>>=◌ get_checkpoint server_call select_checkpoint get_latest_block
    ask process_batches process_batch get_logs process_logs process_collection_created_log
    get_confirmations confirmations_at parse_collection_created_log address_from_topic
    store_raw_event upsert_event publish_collection_created_event send get_required_confirmations
    get_block_by_number update_checkpoint update_row fits upsert_row create_checkpoint
    generate_event_id decimal digits_from find? text_eq
stores_two = refl

publishes_one : count (run start).tables.published ≡ 1
unfolding process_chain_events ◌>>=◌ get_checkpoint server_call select_checkpoint get_latest_block
    ask process_batches process_batch get_logs process_logs process_collection_created_log
    get_confirmations confirmations_at parse_collection_created_log address_from_topic
    store_raw_event upsert_event publish_collection_created_event send get_required_confirmations
    get_block_by_number update_checkpoint update_row fits upsert_row create_checkpoint
    generate_event_id decimal digits_from find? text_eq
publishes_one = refl

checkpoint_at_latest : last_of sepolia (run start).tables.checkpoints ≡ 250
unfolding process_chain_events ◌>>=◌ get_checkpoint server_call select_checkpoint get_latest_block
    ask process_batches process_batch get_logs process_logs process_collection_created_log
    get_confirmations confirmations_at parse_collection_created_log address_from_topic
    store_raw_event upsert_event publish_collection_created_event send get_required_confirmations
    get_block_by_number update_checkpoint update_row fits upsert_row create_checkpoint
    generate_event_id decimal digits_from find? text_eq
checkpoint_at_latest = refl

asks_three_times : count (run start).tables.queries ≡ 3
unfolding process_chain_events ◌>>=◌ get_checkpoint server_call select_checkpoint get_latest_block
    ask process_batches process_batch get_logs process_logs process_collection_created_log
    get_confirmations confirmations_at parse_collection_created_log address_from_topic
    store_raw_event upsert_event publish_collection_created_event send get_required_confirmations
    get_block_by_number update_checkpoint update_row fits upsert_row create_checkpoint
    generate_event_id decimal digits_from find? text_eq
asks_three_times = refl

second_run_publishes_none : count (run (run start)).tables.published ≡ 1
unfolding process_chain_events ◌>>=◌ get_checkpoint server_call select_checkpoint get_latest_block
    ask process_batches process_batch get_logs process_logs process_collection_created_log
    get_confirmations confirmations_at parse_collection_created_log address_from_topic
    store_raw_event upsert_event publish_collection_created_event send get_required_confirmations
    get_block_by_number update_checkpoint update_row fits upsert_row create_checkpoint
    generate_event_id decimal digits_from find? text_eq
second_run_publishes_none = refl

-- A run that is stopped after its first batch has its checkpoint there.
stopped_at_first :
    last_of sepolia
      (process_chain_events node 7 (λ n. stopped) sepolia (codes "0xf") start).1.tables.checkpoints
    ≡ 100
unfolding process_chain_events ◌>>=◌ get_checkpoint server_call select_checkpoint get_latest_block
    ask process_batches process_batch get_logs process_logs process_collection_created_log
    get_confirmations confirmations_at parse_collection_created_log address_from_topic
    store_raw_event upsert_event publish_collection_created_event send get_required_confirmations
    get_block_by_number update_checkpoint update_row fits upsert_row create_checkpoint
    generate_event_id decimal digits_from find? text_eq
stopped_at_first = refl

unknown_factory :
    (index_chain
      (record { clients = (sepolia, node) ∷ []; factories = [] })
      7
      (λ n. elapsed)
      sepolia
      start).0
    ≡ err factory_not_found
unfolding index_chain find? ◌>>=◌ text_eq
unknown_factory = refl

process_chain_events-IsAtLeast_example :
    last_of sepolia start.tables.checkpoints ≤ last_of sepolia (run start).tables.checkpoints
process_chain_events-IsAtLeast_example =
    process_chain_events-IsAtLeast node 7 (λ n. elapsed) sepolia (codes "0xf") start sepolia

process_chain_events-HasUniqueKeys_example : HasUniqueKeys (run start).tables.events
process_chain_events-HasUniqueKeys_example =
    process_chain_events-HasUniqueKeys node 7 (λ n. elapsed) sepolia (codes "0xf") start none_

process_chain_events-AreFounded_example :
    AreFounded node (run start).tables.events (run start).tables.published
process_chain_events-AreFounded_example =
    process_chain_events-AreFounded node 7 (λ n. elapsed) sepolia (codes "0xf") start no_message

-- The second run, from block 251.
process_chain_events-IsAsking_example :
    IsAsking sepolia
      (last_of sepolia (run start).tables.checkpoints)
      (run start).tables.queries
      (run (run start)).tables
process_chain_events-IsAsking_example =
    process_chain_events-IsAsking node 7 (λ n. elapsed) sepolia (codes "0xf") (run start) sepolia

process_chain_events-fueled_example :
    (process_chain_events node 7 (λ n. elapsed) sepolia (codes "0xf") start).0 ≢ err out_of_fuel
process_chain_events-fueled_example =
    process_chain_events-fueled node 7 (λ n. elapsed) sepolia (codes "0xf") start

node-Answers : Answers node
node-Answers = record {
  latest = λ n. (250, refl, refl);
  filter_logs = λ n f. (logs_of f.from_block, refl);
  block_hash = λ n number. (codes "0xb", refl, refl);
}

process_chain_events-arrives_example :
    ((process_chain_events node 7 (λ n. elapsed) sepolia (codes "0xf") start).0 ≡ ok tt)
    × ((latest : ℕ) × (some 250 ≡ some latest)
        × (last_of sepolia (run start).tables.checkpoints ≡ (if ltb latest 0 then 0 else latest)))
unfolding find?
process_chain_events-arrives_example =
    process_chain_events-arrives node 7 node-Answers sepolia (codes "0xf") refl (λ n. elapsed)
      (λ n. refl) start refl
