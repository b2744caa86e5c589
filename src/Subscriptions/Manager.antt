-- ===== src/Subscriptions/Manager.antt =====
-- services/subscription-worker/internal/infrastructure/websocket: manager.go and connection.go, a
-- function for what a method does between taking the manager's lock and giving it back.
use zuno_marketplace_api.Common.{
  ℕ, ◌+◌, Text, codes, Bool, true, false, not, ◌&&◌, List, [], ◌∷◌, ◌++◌, if◌then◌else◌, leb, ◌==◌,
  length, keep, is_empty, text_eq, Result, ok, err, Exec, pure, ◌>>◌,
}
use zuno_marketplace_api.Common.Decimal.{decimal}
use zuno_marketplace_api.Subscriptions.Sets.{
  mem, insert, delete, Subscriptions, subscribers_of, has_key, delete_key, put_key, is_empty_set,
  delete_everywhere,
}
use zuno_marketplace_api.Subscriptions.Model.{
  Json, values_content, json_text, json_other, WebSocketMessage, Connection, Task, close_task,
  remove_task, Manager, Lock, free, held, WorkerError, max_connections_reached, connection_closed,
  channel_full, connection_not_found, missing_intent_id, unknown_message_type, send_failed,
  shutdown_failed, blocked,
}

abbrev pub send_capacity : ℕ
send_capacity = 256

abbrev pub new_connection : Connection
new_connection = record {
  queue = [];
  written = [];
  intent_ids = [];
  is_active = true;
  closed = false;
}

-- Another state of one connection.
abbrev pub set_connection : Text → Connection → Manager → Manager
set_connection id c m = record m {
  connection = λ other. if text_eq id other then c else m.connection other;
}

unfoldable pub add_connection : Text → Connection → Exec Manager WorkerError (Unit {0})
add_connection id c m =
    if leb m.max_connections (length m.connections)
    then (err max_connections_reached, m)
    else (ok tt, set_connection id c (record m { connections = insert id m.connections }))

-- handleWebSocket, with the new id.
unfoldable pub handle_web_socket : Text → Exec Manager WorkerError (Unit {0})
handle_web_socket id = add_connection id new_connection

abbrev pub without_connection : Text → Manager → Manager
without_connection id m =
    if mem id m.connections
    then record m {
      connections = delete id m.connections;
      subscriptions = delete_everywhere id m.subscriptions;
    }
    else m

-- It takes the lock: where its own goroutine holds it, it waits for ever.
unfoldable pub remove_connection : Lock → Text → Exec Manager WorkerError (Unit {0})
remove_connection free id m = (ok tt, without_connection id m)
remove_connection held id m = (err blocked, m)

unfoldable pub add_subscription : Text → Text → Manager → Manager
add_subscription intent_id id m = record m {
  subscriptions =
      put_key intent_id (insert id (subscribers_of intent_id m.subscriptions)) m.subscriptions;
}

abbrev pub without_subscriber : Text → Text → Subscriptions → Subscriptions
without_subscriber intent_id id s =
    let left = delete id (subscribers_of intent_id s) in
    if is_empty_set left then delete_key intent_id s else put_key intent_id left s

unfoldable pub remove_subscription : Text → Text → Manager → Manager
remove_subscription intent_id id m =
    if has_key intent_id m.subscriptions
    then record m { subscriptions = without_subscriber intent_id id m.subscriptions }
    else m

-- What Send leaves of the connection.
abbrev pub pushed : WebSocketMessage → Connection → Connection
pushed message c =
    if c.is_active
    then (if leb send_capacity (length c.queue)
        then c
        else record c { queue = c.queue ++ message ∷ [] })
    else c

abbrev pub spawn : Task → Manager → Manager
spawn task m = record m { spawned = task ∷ m.spawned }

-- Send, which does not wait for room in the channel.
unfoldable pub send : Text → WebSocketMessage → Exec Manager WorkerError (Unit {0})
send id message m =
    if (m.connection id).is_active
    then (if leb send_capacity (length (m.connection id).queue)
        then (err channel_full, spawn (close_task id) m)
        else (ok tt, set_connection id (pushed message (m.connection id)) m))
    else (err connection_closed, m)

-- One subscriber of SendToIntent: the number of errors.
abbrev pub counted : Text → Result WorkerError (Unit {0}) × Manager → ℕ × Manager
counted id (ok u, m) = (0, m)
counted id (err e, m) = (1, spawn (remove_task id) m)

unfoldable pub send_to_subscriber : WebSocketMessage → Text → Manager → ℕ × Manager
send_to_subscriber message id m =
    if mem id m.connections && (m.connection id).is_active
    then counted id (send id message m)
    else (0, m)

unfoldable pub send_to_all : WebSocketMessage → List Text → Manager → ℕ × Manager
send_to_all message [] m = (0, m)
send_to_all message (id ∷ ids) m =
    let first = send_to_subscriber message id m in
    let rest = send_to_all message ids first.1 in (first.0 + rest.0, rest.1)

unfoldable pub send_to_intent : Text → WebSocketMessage → Exec Manager WorkerError (Unit {0})
send_to_intent intent_id message m =
    let sent = send_to_all message (subscribers_of intent_id m.subscriptions) m in
    (if sent.0 == 0 then ok tt else err send_failed, sent.1)

unfoldable pub send_to_connection : Text → WebSocketMessage → Exec Manager WorkerError (Unit {0})
send_to_connection id message m =
    if mem id m.connections then send id message m else (err connection_not_found, m)

abbrev pub get_connection_count : Manager → ℕ
get_connection_count m = length m.connections

unfoldable pub delete_all : List Text → Subscriptions → Subscriptions
delete_all [] s = s
delete_all (id ∷ ids) s = delete_all ids (delete_everywhere id s)

abbrev pub inactive : Manager → List Text
inactive m = keep (λ id. not (m.connection id).is_active) m.connections

unfoldable pub cleanup : Manager → Manager
cleanup m = record m {
  connections = keep (λ id. (m.connection id).is_active) m.connections;
  subscriptions = delete_all (inactive m) m.subscriptions;
}

abbrev pub shut : Connection → Connection
shut c = record c { is_active = false; closed = true }

-- Close, once.
unfoldable pub close : Lock → Text → Exec Manager WorkerError (Unit {0})
close lock id m =
    if (m.connection id).closed
    then (ok tt, m)
    else remove_connection lock id (set_connection id (shut (m.connection id)) m)

-- The write pump takes what is in the channel.
unfoldable pub write_pump : Text → Manager → Manager
write_pump id m =
    let c = m.connection id in
    set_connection id (record c { queue = []; written = c.written ++ c.queue }) m

abbrev pub answer : Text → Text → List (Text × Json) → ℕ → WebSocketMessage
answer message_type intent_id content now = record {
  message_type = message_type;
  intent_id = intent_id;
  content = values_content content;
  timestamp = now;
  error = [];
}

abbrev pub status_value : Text → List (Text × Json)
status_value status = (codes "status", json_text status) ∷ []

pub data ClientMessage : Type 0 where
  subscribe unsubscribe : Text → ClientMessage
  ping unknown : ClientMessage

abbrev pub with_intent : Text → Connection → Connection
with_intent intent_id c = record c { intent_ids = insert intent_id c.intent_ids }

abbrev pub without_intent : Text → Connection → Connection
without_intent intent_id c = record c { intent_ids = delete intent_id c.intent_ids }

-- The answer is sent, and whether it could be is not looked at.
abbrev pub replied : Text → WebSocketMessage → Exec Manager WorkerError (Unit {0})
replied id message m = (ok tt, (send id message m).1)

unfoldable pub handle_client_message :
    ℕ → Text → ClientMessage → Exec Manager WorkerError (Unit {0})
handle_client_message now id (subscribe intent_id) m =
    if is_empty intent_id
    then (err missing_intent_id, m)
    else replied id
        (answer (codes "subscribed") intent_id (status_value (codes "subscribed to intent")) now)
        (add_subscription intent_id id
          (set_connection id (with_intent intent_id (m.connection id)) m))
handle_client_message now id (unsubscribe intent_id) m =
    if is_empty intent_id
    then (err missing_intent_id, m)
    else replied id
        (answer (codes "unsubscribed") intent_id (status_value (codes "unsubscribed from intent"))
          now)
        (remove_subscription intent_id id
          (set_connection id (without_intent intent_id (m.connection id)) m))
handle_client_message now id ping m =
    replied id (answer (codes "pong") [] ((codes "timestamp", json_other (decimal now)) ∷ []) now) m
handle_client_message now id unknown m = (err unknown_message_type, m)

-- The loop of Stop over the connections, under the lock.
unfoldable pub close_all : List Text → Exec Manager WorkerError (Unit {0})
close_all [] = pure tt
close_all (id ∷ ids) = do close held id; close_all ids

abbrev pub stopped : Manager → Manager
stopped m = record m { is_running = false }

-- The server's shutdown, where it is closed: `fails` says whether that fails.
abbrev pub shut_server : Bool → Exec Manager WorkerError (Unit {0})
shut_server true m = (err shutdown_failed, m)
shut_server false m = (ok tt, stopped m)

abbrev pub shut_down : Bool → Exec Manager WorkerError (Unit {0})
shut_down fails m = (close_all m.connections >> shut_server fails) m

unfoldable pub stop : Bool → Exec Manager WorkerError (Unit {0})
stop fails m = if m.is_running then shut_down fails m else (ok tt, m)
