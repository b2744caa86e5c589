-- ===== src/Indexer/Model.antt =====
-- services/indexer-service/internal/domain/domain.go, with the table of the checkpoints and the
-- collection of the events. Block numbers are natural numbers.
use zuno_marketplace_api.Common.{ℕ, Text, List}
use zuno_marketplace_api.Common.Faults.{Faulty}

pub record Checkpoint : Type 0 where
  pub chain_id : Text
  pub last_block : ℕ
  pub last_block_hash : Text
  pub updated_at : ℕ

pub record CollectionCreatedEvent : Type 0 where
  pub collection_address : Text
  pub creator : Text
  pub name : Text
  pub symbol : Text
  pub collection_type : Text
  pub max_supply : ℕ
  pub royalty_recipient : Text
  pub royalty_percentage : ℕ

-- The raw data are the topics and the data of the log; the parsed JSON is that of the event.
pub record RawEvent : Type 0 where
  pub id : Text
  pub chain_id : Text
  pub tx_hash : Text
  pub log_index : ℕ
  pub block_number : ℕ
  pub block_hash : Text
  pub contract_address : Text
  pub event_name : Text
  pub event_signature : Text
  pub topics : List Text
  pub data_text : Text
  pub parsed : CollectionCreatedEvent
  pub confirmations : ℕ
  pub observed_at : ℕ
  pub created_at : ℕ

-- A message of the broker: its routing key and the event, whose data are those of the raw event
-- and of the parsed one.
pub record PublishableEvent : Type 0 where
  pub routing_key : Text
  pub schema : Text
  pub version : Text
  pub event_id : Text
  pub event_type : Text
  pub chain_id : Text
  pub tx_hash : Text
  pub contract : Text
  pub raw : RawEvent
  pub collection : CollectionCreatedEvent
  pub timestamp : ℕ

pub record LogFilter : Type 0 where
  pub from_block : ℕ
  pub to_block : ℕ
  pub address : Text
  pub topic : Text

pub record Log : Type 0 where
  pub address : Text
  pub topics : List Text
  pub data_text : Text
  pub block_number : ℕ
  pub tx_hash : Text
  pub log_index : ℕ
  pub block_hash : Text

pub data IndexerError : Type 0 where
  database_error node_error broker_error : IndexerError
  insufficient_topics client_not_found factory_not_found cancelled out_of_fuel : IndexerError

-- The table, the collection, what went to the broker, the filters that the nodes were asked for with
-- their chains (the newest first), and how many questions they were asked.
pub record Tables : Type 0 where
  pub checkpoints : List Checkpoint
  pub events : List RawEvent
  pub published : List PublishableEvent
  pub queries : List (Text × LogFilter)
  pub asked : ℕ

abbrev pub Store : Type 0
Store = Faulty Tables
