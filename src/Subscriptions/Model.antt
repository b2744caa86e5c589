-- ===== src/Subscriptions/Model.antt =====
-- services/subscription-worker/internal/domain/domain.go, and the state of
-- infrastructure/websocket/manager.go and connection.go.
use zuno_marketplace_api.Common.{ℕ, Text, Bool, List, Option}
use zuno_marketplace_api.Subscriptions.Sets.{Subscriptions}

-- A value of map[string]interface{}: a string, or another value by its JSON text.
pub data Json : Type 0 where
  json_text : Text → Json
  json_other : Text → Json

pub record IntentStatus : Type 0 where
  pub intent_id : Text
  pub status : Text
  pub tx_hash : Text
  pub contract_address : Text
  pub chain_id : Text
  pub values : List (Text × Json)
  pub updated_at : ℕ
  pub expires_at : Option ℕ

pub record DomainEvent : Type 0 where
  pub event_type : Text
  pub aggregate_id : Text
  pub chain_id : Text
  pub values : List (Text × Json)

-- The data of a message: a status, or a map.
pub data Content : Type 0 where
  no_content : Content
  status_content : IntentStatus → Content
  values_content : List (Text × Json) → Content

pub record WebSocketMessage : Type 0 where
  pub message_type : Text
  pub intent_id : Text
  pub content : Content
  pub timestamp : ℕ
  pub error : Text

-- A connection: the channel `send`, what the write pump has taken from it, and whether `closeOnce` is
-- done.
pub record Connection : Type 0 where
  pub queue : List WebSocketMessage
  pub written : List WebSocketMessage
  pub intent_ids : List Text
  pub is_active : Bool
  pub closed : Bool

-- What `go` starts.
pub data Task : Type 0 where
  close_task remove_task : Text → Task

-- The keys of the map of connections and the connections by their ids, those that left the map too.
pub record Manager : Type 0 where
  pub max_connections : ℕ
  pub connections : List Text
  pub subscriptions : Subscriptions
  pub is_running : Bool
  pub connection : Text → Connection
  pub spawned : List Task

-- Is the manager's lock free, or held by the goroutine that calls?
pub data Lock : Type 0 where
  free held : Lock

pub data WorkerError : Type 0 where
  max_connections_reached connection_closed channel_full connection_not_found : WorkerError
  missing_intent_id unknown_message_type send_failed shutdown_failed : WorkerError
  blocked : WorkerError
