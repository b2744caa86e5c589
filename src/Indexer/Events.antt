-- ===== src/Indexer/Events.antt =====
-- services/indexer-service/internal/infrastructure: StoreRawEvent and GetRawEvent of
-- repository/event_repository.go, and the publisher of events/publisher.go.
use zuno_marketplace_api.Common.{
  ℕ, Text, codes, Bool, ◌&&◌, ◌∷◌, ◌++◌, Option, none, some, if◌then◌else◌, ◌==◌, any, find?,
  is_empty, text_eq, Result, ok, Exec, pure, fail, ◌>>=◌,
}
use zuno_marketplace_api.Common.Decimal.{decimal}
use zuno_marketplace_api.Common.Faults.{server_call}
use zuno_marketplace_api.Indexer.Model.{
  RawEvent, CollectionCreatedEvent, PublishableEvent, IndexerError, Tables, Store, database_error,
  broker_error,
}

-- fmt.Sprintf("%s_%s_%d", chainID, txHash, logIndex)
unfoldable pub generate_event_id : Text → Text → ℕ → Text
generate_event_id chain_id tx_hash log_index =
    chain_id ++ codes "_" ++ tx_hash ++ codes "_" ++ decimal log_index

-- The key of the unique index.
abbrev pub has_key : Text → Text → ℕ → RawEvent → Bool
has_key chain_id tx_hash log_index event =
    text_eq event.chain_id chain_id
    && (text_eq event.tx_hash tx_hash && event.log_index == log_index)

abbrev pub same_key : RawEvent → RawEvent → Bool
same_key event = has_key event.chain_id event.tx_hash event.log_index

-- An upsert with $setOnInsert: a document of the key stays as it is.
unfoldable pub upsert_event : RawEvent → Tables → Result IndexerError (Unit {0}) × Tables
upsert_event event t =
    (ok tt, if any (same_key event) t.events then t else record t { events = event ∷ t.events })

abbrev pub with_id : ℕ → RawEvent → RawEvent
with_id now event = record event {
  id =
      if is_empty event.id
      then generate_event_id event.chain_id event.tx_hash event.log_index
      else event.id;
  created_at = now;
}

unfoldable pub store_raw_event : ℕ → RawEvent → Exec Store IndexerError (Unit {0})
store_raw_event now event = server_call database_error (upsert_event (with_id now event))

abbrev pub or_not_found : Option RawEvent → Exec Store IndexerError RawEvent
or_not_found none = fail database_error
or_not_found (some event) = pure event

unfoldable pub find_event :
    Text → Text → ℕ → Tables → Result IndexerError (Option RawEvent) × Tables
find_event chain_id tx_hash log_index t =
    (ok (find? (has_key chain_id tx_hash log_index) t.events), t)

unfoldable pub get_raw_event : Text → Text → ℕ → Exec Store IndexerError RawEvent
get_raw_event chain_id tx_hash log_index = do
  event ← server_call database_error (find_event chain_id tx_hash log_index)
  or_not_found event

abbrev pub schema_v1 : Text
schema_v1 = codes "marketplace.events.v1"

abbrev pub publishable : ℕ → Text → RawEvent → CollectionCreatedEvent → PublishableEvent
publishable now chain_id raw collection = record {
  routing_key = codes "collections.events.created." ++ chain_id;
  schema = schema_v1;
  version = codes "1.0";
  event_id = generate_event_id chain_id raw.tx_hash raw.log_index;
  event_type = codes "collection_created";
  chain_id = chain_id;
  tx_hash = raw.tx_hash;
  contract = raw.contract_address;
  raw = raw;
  collection = collection;
  timestamp = now;
}

unfoldable pub send : PublishableEvent → Tables → Result IndexerError (Unit {0}) × Tables
send event t = (ok tt, record t { published = event ∷ t.published })

-- PublishCollectionCreatedEvent, whose event PublishCollectionEvent leaves as it is and routes.
unfoldable pub publish_collection_created_event :
    ℕ → Text → RawEvent → CollectionCreatedEvent → Exec Store IndexerError (Unit {0})
publish_collection_created_event now chain_id raw collection =
    server_call broker_error (send (publishable now chain_id raw collection))
