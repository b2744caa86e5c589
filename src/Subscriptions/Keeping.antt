-- ===== src/Subscriptions/Keeping.antt =====
-- What the operations keep of the manager, and runs of them.
use zuno_marketplace_api.Common.{
  ℕ, ◌≤◌, Text, Bool, false, List, [], ◌∷◌, arith, Bool-cases, keep, is_empty, leb, length, ◌≡◌,
  refl, inl, inr, subst,
}
use zuno_marketplace_api.Subscriptions.Sets.{
  mem, insert, delete, Subscriptions, subscribers_of, has_key, is_empty_set, delete_everywhere,
  IsMapOfSets, IsSetList,
}
use zuno_marketplace_api.Subscriptions.Membership.{
  IsSetList-subscribers_of, IsSetList-keep, IsSetList-insert, IsMapOfSets-delete_key,
  IsMapOfSets-put_key, IsMapOfSets-delete_everywhere,
}
use zuno_marketplace_api.Subscriptions.Model.{WebSocketMessage, Connection, Manager, free}
use zuno_marketplace_api.Subscriptions.Manager.{
  set_connection, add_connection, handle_web_socket, without_connection, remove_connection,
  add_subscription, remove_subscription, send_to_intent, send_to_connection, delete_all, inactive,
  cleanup, close, write_pump, replied, ClientMessage, subscribe, unsubscribe, ping, unknown,
  handle_client_message,
}
use zuno_marketplace_api.Subscriptions.Spec.{
  View, view, Operation, connect, disconnect, drop, write, clean, add, remove, publish, deliver,
  say, perform, specified,
}
use zuno_marketplace_api.Subscriptions.Pushes.{IsPushed, send-IsPushed, send_to_all-IsPushed}
use zuno_marketplace_api.Subscriptions.Refines.{has_room, perform-specified}

-- The subscriptions are a map of sets, the connections a set of no more than the limit.
pub record IsWellFormed (m : Manager) : Type 0 where
  pub subscriptions : IsMapOfSets m.subscriptions
  pub connections : IsSetList m.connections
  pub bounded : length m.connections ≤ m.max_connections

length-keep : (p : Text → Bool) (l : List Text) → length (keep p l) ≤ length l
unfolding keep
length-keep p [] = omega arith
length-keep p (x ∷ l) =
    let later = length-keep p l in
    elim (Bool-cases (p x)) [
      | inl kept ↦ rw kept (ground (arith, later))
      | inr dropped ↦ rw dropped (ground (arith, later))
    ]

keep_le : (p : Text → Bool) (l : List Text) (n : ℕ) → length l ≤ n → length (keep p l) ≤ n
keep_le p l n h = let k = length-keep p l in omega arith

IsMapOfSets-delete_all :
    (ids : List Text) (s : Subscriptions) → IsMapOfSets s → IsMapOfSets (delete_all ids s)
unfolding delete_all
IsMapOfSets-delete_all [] s h = h
IsMapOfSets-delete_all (id ∷ ids) s h =
    IsMapOfSets-delete_all ids (delete_everywhere id s) (IsMapOfSets-delete_everywhere id s h)

IsPushed-IsWellFormed :
    (to : Text → Bool) (message : WebSocketMessage) (m m' : Manager)
    → IsPushed to message m m'
    → IsWellFormed m
    → IsWellFormed m'
IsPushed-IsWellFormed to message m m' p w = record {
  subscriptions = rw (p.subscriptions) (w.subscriptions);
  connections = rw (p.connections) (w.connections);
  bounded = rw (p.connections, p.limit) (w.bounded);
}

without_connection-IsWellFormed :
    (id : Text) (m : Manager) → IsWellFormed m → IsWellFormed (without_connection id m)
without_connection-IsWellFormed id m w = elim (Bool-cases (mem id m.connections)) [
  | inl here ↦ rw here (record {
    subscriptions = IsMapOfSets-delete_everywhere id m.subscriptions w.subscriptions;
    connections = IsSetList-keep _ m.connections w.connections;
    bounded = keep_le _ m.connections m.max_connections w.bounded;
  })
  | inr gone ↦ rw gone w
]

-- Another state of a connection changes nothing of this.
set_connection-IsWellFormed :
    (id : Text) (c : Connection) (m : Manager)
    → IsWellFormed m
    → IsWellFormed (set_connection id c m)
set_connection-IsWellFormed id c m w = record {
  subscriptions = w.subscriptions;
  connections = w.connections;
  bounded = w.bounded;
}

handle_web_socket-IsWellFormed :
    (id : Text) (m : Manager) → IsWellFormed m → IsWellFormed (handle_web_socket id m).1
unfolding handle_web_socket add_connection
handle_web_socket-IsWellFormed id m w =
    elim (Bool-cases (leb m.max_connections (length m.connections))) [
      | inl full ↦ rw full w
      | inr room ↦ rw room (record {
        subscriptions = w.subscriptions;
        connections = IsSetList-insert id m.connections w.connections;
        bounded = elim (Bool-cases (mem id m.connections)) [
          | inl known ↦ rw known (w.bounded)
          | inr fresh ↦ rw fresh (ground (arith, room))
        ];
      })
    ]

close-IsWellFormed : (id : Text) (m : Manager) → IsWellFormed m → IsWellFormed (close free id m).1
unfolding close remove_connection
close-IsWellFormed id m w = elim (Bool-cases (m.connection id).closed) [
  | inl done ↦ rw done w
  | inr open_ ↦
      rw open_ (without_connection-IsWellFormed id _ (set_connection-IsWellFormed id _ m w))
]

add_subscription-IsWellFormed :
    (i id : Text) (m : Manager) → IsWellFormed m → IsWellFormed (add_subscription i id m)
unfolding add_subscription
add_subscription-IsWellFormed i id m w = record {
  subscriptions =
      IsMapOfSets-put_key i (insert id (subscribers_of i m.subscriptions)) m.subscriptions
        (IsSetList-insert id (subscribers_of i m.subscriptions)
          (IsSetList-subscribers_of i m.subscriptions w.subscriptions))
        (inserted (subscribers_of i m.subscriptions)) w.subscriptions;
  connections = w.connections;
  bounded = w.bounded;
}
  where
    inserted : (l : List Text) → is_empty_set (insert id l) ≡ false
    inserted [] = refl
    inserted (x ∷ l) = elim (Bool-cases (mem id (x ∷ l))) [
      | inl known ↦ rw known refl
      | inr fresh ↦ rw fresh refl
    ]

remove_subscription-IsWellFormed :
    (i id : Text) (m : Manager) → IsWellFormed m → IsWellFormed (remove_subscription i id m)
unfolding remove_subscription
remove_subscription-IsWellFormed i id m w = elim (Bool-cases (has_key i m.subscriptions)) [
  | inl here ↦ elim (Bool-cases (is_empty_set (delete id (subscribers_of i m.subscriptions)))) [
    | inl emptied ↦
        rw (here, emptied)
          (record {
            subscriptions = IsMapOfSets-delete_key i m.subscriptions w.subscriptions;
            connections = w.connections;
            bounded = w.bounded;
          })
    | inr left ↦
        rw (here, left)
          (record {
            subscriptions =
                IsMapOfSets-put_key i (delete id (subscribers_of i m.subscriptions)) m.subscriptions
                  (IsSetList-keep _ _ (IsSetList-subscribers_of i m.subscriptions w.subscriptions))
                  left w.subscriptions;
            connections = w.connections;
            bounded = w.bounded;
          })
  ]
  | inr gone ↦ rw gone w
]

reply-IsWellFormed :
    (id : Text) (message : WebSocketMessage) (m : Manager)
    → IsWellFormed m
    → IsWellFormed (replied id message m).1
reply-IsWellFormed id message m w =
    IsPushed-IsWellFormed _ message m _ (send-IsPushed message id m) w

say-IsWellFormed :
    (now : ℕ) (id : Text) (message : ClientMessage) (m : Manager)
    → IsWellFormed m
    → IsWellFormed (handle_client_message now id message m).1
unfolding handle_client_message
say-IsWellFormed now id (subscribe i) m w = elim (Bool-cases (is_empty i)) [
  | inl blank ↦ rw blank w
  | inr named ↦ rw named (
      reply-IsWellFormed id _ _
        (add_subscription-IsWellFormed i id _ (set_connection-IsWellFormed id _ m w)))
]
say-IsWellFormed now id (unsubscribe i) m w = elim (Bool-cases (is_empty i)) [
  | inl blank ↦ rw blank w
  | inr named ↦ rw named (
      reply-IsWellFormed id _ _
        (remove_subscription-IsWellFormed i id _ (set_connection-IsWellFormed id _ m w)))
]
say-IsWellFormed now id ping m w = reply-IsWellFormed id _ m w
say-IsWellFormed now id unknown m w = w

send_to_connection-IsWellFormed :
    (id : Text) (message : WebSocketMessage) (m : Manager)
    → IsWellFormed m
    → IsWellFormed (send_to_connection id message m).1
unfolding send_to_connection
send_to_connection-IsWellFormed id message m w = elim (Bool-cases (mem id m.connections)) [
  | inl here ↦ rw here (IsPushed-IsWellFormed _ message m _ (send-IsPushed message id m) w)
  | inr gone ↦ rw gone w
]

pub perform-IsWellFormed :
    (operation : Operation) (m : Manager) → IsWellFormed m → IsWellFormed (perform operation m)
unfolding remove_connection write_pump cleanup send_to_intent
perform-IsWellFormed (connect id) m w = handle_web_socket-IsWellFormed id m w
perform-IsWellFormed (disconnect id) m w = without_connection-IsWellFormed id m w
perform-IsWellFormed (drop id) m w = close-IsWellFormed id m w
perform-IsWellFormed (write id) m w = set_connection-IsWellFormed id _ m w
perform-IsWellFormed clean m w = record {
  subscriptions = IsMapOfSets-delete_all (inactive m) m.subscriptions w.subscriptions;
  connections = IsSetList-keep _ m.connections w.connections;
  bounded = keep_le _ m.connections m.max_connections w.bounded;
}
perform-IsWellFormed (add i id) m w = add_subscription-IsWellFormed i id m w
perform-IsWellFormed (remove i id) m w = remove_subscription-IsWellFormed i id m w
perform-IsWellFormed (publish i message) m w =
    IsPushed-IsWellFormed _ message m _
      (send_to_all-IsPushed message (subscribers_of i m.subscriptions) m
        (IsSetList-subscribers_of i m.subscriptions w.subscriptions))
      w
perform-IsWellFormed (deliver id message) m w = send_to_connection-IsWellFormed id message m w
perform-IsWellFormed (say now id message) m w = say-IsWellFormed now id message m w

-- The operations one after the other, in the order in which they take the lock.
abbrev pub run : List Operation → Manager → Manager
run [] m = m
run (operation ∷ operations) m = run operations (perform operation m)

-- The views that the specification allows after the operations, whichever connections it lets in.
pub data Reaches : View → List Operation → View → Type 0 where
  end : (v : View) → Reaches v [] v
  step :
      (room : Bool) (operation : Operation) (operations : List Operation) (v w : View)
      → Reaches (specified room operation v) operations w
      → Reaches v (operation ∷ operations) w

-- A manager whose subscriptions are a map of non-empty sets and whose connections are within the
-- limit is so after any operations.
pub run-IsWellFormed :
    (operations : List Operation) (m : Manager) → IsWellFormed m → IsWellFormed (run operations m)
run-IsWellFormed [] m w = w
run-IsWellFormed (operation ∷ operations) m w =
    run-IsWellFormed operations (perform operation m) (perform-IsWellFormed operation m w)

-- From a manager that is well-formed, operations lead to a view that the specification reaches
-- with them: the maps of the manager implement the sets of pairs.
pub run-Reaches :
    (operations : List Operation) (m : Manager)
    → IsWellFormed m
    → Reaches (view m) operations (view (run operations m))
run-Reaches [] m w = end (view m)
run-Reaches (operation ∷ operations) m w = step (has_room m) operation operations (view m) _ (
    subst (λ v. Reaches v operations (view (run operations (perform operation m))))
      (perform-specified operation m w.subscriptions)
      (run-Reaches operations (perform operation m) (perform-IsWellFormed operation m w)))
