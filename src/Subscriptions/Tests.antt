-- ===== src/Subscriptions/Tests.antt =====
-- The theorems on the manager at concrete connections.
use zuno_marketplace_api.Common.{
  Text, codes, ◌≡◌, refl, true, false, List, [], ◌∷◌, text_eq, ok, err, arith,
}
use zuno_marketplace_api.Subscriptions.Sets.{mem, subscribers_of}
use zuno_marketplace_api.Subscriptions.Model.{WebSocketMessage, no_content, Manager, blocked}
use zuno_marketplace_api.Subscriptions.Manager.{
  new_connection, subscribe, send_to_intent, send_to_all, send_to_subscriber, send, stop,
}
use zuno_marketplace_api.Subscriptions.Spec.{
  view, Operation, connect, disconnect, clean, publish, say, perform, specified,
}
use zuno_marketplace_api.Subscriptions.Refines.{has_room, perform-specified}
use zuno_marketplace_api.Subscriptions.Keeping.{
  IsWellFormed, run, Reaches, run-IsWellFormed, run-Reaches,
}
use zuno_marketplace_api.Subscriptions.Delivery.{send_to_intent-delivers}
use zuno_marketplace_api.Subscriptions.Stopping.{stop-outcome}
use zuno_marketplace_api.Subscriptions.Stale.{run-stale}

abbrev conn : Text
conn = codes "c1"

abbrev intent : Text
intent = codes "i1"

-- One connection, subscribed to one intent, of two.
abbrev manager : Manager
manager = record {
  max_connections = 2;
  connections = conn ∷ [];
  subscriptions = (intent, conn ∷ []) ∷ [];
  is_running = true;
  connection = λ id. new_connection;
  spawned = [];
}

abbrev message : WebSocketMessage
message = record {
  message_type = codes "status_update";
  intent_id = intent;
  content = no_content;
  timestamp = 7;
  error = [];
}

manager-IsWellFormed : IsWellFormed manager
manager-IsWellFormed = record {
  subscriptions = (refl, (refl, tt), refl, tt);
  connections = (refl, tt);
  bounded = omega arith;
}

abbrev session : List Operation
session =
    connect (codes "c2")
    ∷ say 8 (codes "c2") (subscribe intent)
    ∷ publish intent message
    ∷ disconnect conn
    ∷ []

run-IsWellFormed_example : IsWellFormed (run session manager)
run-IsWellFormed_example = run-IsWellFormed session manager manager-IsWellFormed

run-Reaches_example : Reaches (view manager) session (view (run session manager))
run-Reaches_example = run-Reaches session manager manager-IsWellFormed

perform-specified_example :
    view (perform (publish intent message) manager)
    ≡ specified (has_room manager) (publish intent message) (view manager)
perform-specified_example =
    perform-specified (publish intent message) manager (manager-IsWellFormed.subscriptions)

sends : (send_to_intent intent message manager).0 ≡ ok tt
unfolding send_to_intent send_to_all send_to_subscriber send subscribers_of text_eq
sends = refl

subscribed : mem conn (subscribers_of intent manager.subscriptions) ≡ true
unfolding subscribers_of text_eq
subscribed = refl

connected : mem conn manager.connections ≡ true
unfolding text_eq
connected = refl

send_to_intent-delivers_example :
    ((send_to_intent intent message manager).1.connection conn).queue ≡ message ∷ []
send_to_intent-delivers_example =
    send_to_intent-delivers intent message manager conn manager-IsWellFormed sends subscribed
      connected refl

stop-outcome_example : (stop false manager).0 ≡ err blocked
stop-outcome_example = stop-outcome false manager refl

-- A connection that has gone before its message to subscribe was read.
abbrev late : Manager
late = record manager { connections = [] }

late-IsWellFormed : IsWellFormed late
late-IsWellFormed = record {
  subscriptions = (refl, (refl, tt), refl, tt);
  connections = tt;
  bounded = omega arith;
}

run-stale_example :
    mem conn (subscribers_of intent (run (disconnect conn ∷ clean ∷ []) late).subscriptions) ≡ true
run-stale_example =
    run-stale intent conn (disconnect conn ∷ clean ∷ []) late late-IsWellFormed refl refl subscribed
