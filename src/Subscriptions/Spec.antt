-- ===== src/Subscriptions/Spec.antt =====
-- What the manager promises: who is connected, who is subscribed to what and what each channel holds,
-- as functions, and each operation as a change of these functions.
use zuno_marketplace_api.Common.{
  ℕ, Text, codes, Bool, not, ◌&&◌, ◌||◌, [], ◌∷◌, ◌++◌, if◌then◌else◌, is_empty, text_eq, ◌≡◌,
}
use zuno_marketplace_api.Common.Decimal.{decimal}
use zuno_marketplace_api.Subscriptions.Sets.{mem, subscribers_of}
use zuno_marketplace_api.Subscriptions.Model.{
  WebSocketMessage, Connection, json_other, Manager, free,
}
use zuno_marketplace_api.Subscriptions.Manager.{
  new_connection, handle_web_socket, remove_connection, add_subscription, remove_subscription,
  pushed, send_to_intent, send_to_connection, cleanup, shut, close, write_pump, answer,
  status_value, ClientMessage, subscribe, unsubscribe, ping, unknown, with_intent, without_intent,
  handle_client_message,
}

pub record View : Type 0 where
  pub connected : Text → Bool
  pub subscribed : Text → Text → Bool
  pub connection : Text → Connection

-- The view of a manager.
abbrev pub view : Manager → View
view m = record {
  connected = λ id. mem id m.connections;
  subscribed = λ intent_id id. mem id (subscribers_of intent_id m.subscriptions);
  connection = m.connection;
}

-- Views that agree on each connection and intent are equal.
pub View-ext :
    (v w : View)
    → ((id : Text) → v.connected id ≡ w.connected id)
    → ((intent_id id : Text) → v.subscribed intent_id id ≡ w.subscribed intent_id id)
    → ((id : Text) → v.connection id ≡ w.connection id)
    → v ≡ w
View-ext v w h k l = λ i. record {
  connected = λ id. h id i;
  subscribed = λ intent_id id. k intent_id id i;
  connection = λ id. l id i;
}

-- What the service, the clients and the goroutines do to a manager.
pub data Operation : Type 0 where
  connect disconnect drop write : Text → Operation
  clean : Operation
  add remove : Text → Text → Operation
  publish deliver : Text → WebSocketMessage → Operation
  say : ℕ → Text → ClientMessage → Operation

abbrev pub perform : Operation → Manager → Manager
perform (connect id) m = (handle_web_socket id m).1
perform (disconnect id) m = (remove_connection free id m).1
perform (drop id) m = (close free id m).1
perform (write id) m = write_pump id m
perform clean m = cleanup m
perform (add intent_id id) m = add_subscription intent_id id m
perform (remove intent_id id) m = remove_subscription intent_id id m
perform (publish intent_id message) m = (send_to_intent intent_id message m).1
perform (deliver id message) m = (send_to_connection id message m).1
perform (say now id message) m = (handle_client_message now id message m).1

abbrev pub at : Text → Connection → (Text → Connection) → Text → Connection
at id c connection other = if text_eq id other then c else connection other

abbrev pub with_pair : Text → Text → (Text → Text → Bool) → Text → Text → Bool
with_pair i c subscribed i' c' = (text_eq i i' && text_eq c c') || subscribed i' c'

abbrev pub without_pair : Text → Text → (Text → Text → Bool) → Text → Text → Bool
without_pair i c subscribed i' c' = not (text_eq i i' && text_eq c c') && subscribed i' c'

-- A connection leaves with its subscriptions; one that is not connected has nothing taken.
abbrev pub leave : Text → View → View
leave id v = record v {
  connected = λ other. not (text_eq id other) && v.connected other;
  subscribed =
      λ intent_id other. not (v.connected id && text_eq id other) && v.subscribed intent_id other;
}

abbrev pub push : (Text → Bool) → WebSocketMessage → View → View
push to message v = record v {
  connection = λ id. if to id then pushed message (v.connection id) else v.connection id;
}

abbrev pub told : ℕ → Text → ClientMessage → View → View
told now id (subscribe intent_id) v =
    if is_empty intent_id
    then v
    else push (text_eq id)
        (answer (codes "subscribed") intent_id (status_value (codes "subscribed to intent")) now)
        (record {
          connected = v.connected;
          subscribed = with_pair intent_id id v.subscribed;
          connection = at id (with_intent intent_id (v.connection id)) v.connection;
        })
told now id (unsubscribe intent_id) v =
    if is_empty intent_id
    then v
    else push (text_eq id)
        (answer (codes "unsubscribed") intent_id (status_value (codes "unsubscribed from intent"))
          now)
        (record {
          connected = v.connected;
          subscribed = without_pair intent_id id v.subscribed;
          connection = at id (without_intent intent_id (v.connection id)) v.connection;
        })
told now id ping v =
    push (text_eq id)
      (answer (codes "pong") [] ((codes "timestamp", json_other (decimal now)) ∷ []) now) v
told now id unknown v = v

-- Each operation on views; `room` says whether another connection is let in.
abbrev pub specified : Bool → Operation → View → View
specified room (connect id) v =
    if room
    then record v {
      connected = λ other. text_eq id other || v.connected other;
      connection = at id new_connection v.connection;
    }
    else v
specified room (disconnect id) v = leave id v
specified room (drop id) v =
    if (v.connection id).closed
    then v
    else leave id (record v { connection = at id (shut (v.connection id)) v.connection })
specified room (write id) v =
    let c = v.connection id in
    record v {
      connection = at id (record c { queue = []; written = c.written ++ c.queue }) v.connection;
    }
specified room clean v = record v {
  connected = λ id. v.connected id && (v.connection id).is_active;
  subscribed = λ intent_id id.
      not (v.connected id && not (v.connection id).is_active) && v.subscribed intent_id id;
}
specified room (add intent_id id) v = record v { subscribed = with_pair intent_id id v.subscribed }
specified room (remove intent_id id) v = record v {
  subscribed = without_pair intent_id id v.subscribed;
}
specified room (publish intent_id message) v =
    push (λ id. v.subscribed intent_id id && v.connected id) message v
specified room (deliver id message) v =
    push (λ other. text_eq id other && v.connected other) message v
specified room (say now id message) v = told now id message v
