-- ===== src/Subscriptions/Refines.antt =====
-- Each operation of the manager is the one that its views specify.
use zuno_marketplace_api.Common.{
  ℕ, Text, Bool, true, false, not, ◌&&◌, Bool-cases, is_empty, text_eq, text_eq_iff, leb, length,
  ◌≡◌, refl, ◌∙◌, ap, inl, inr, subst,
}
use zuno_marketplace_api.Subscriptions.Sets.{mem, subscribers_of, has_key, IsMapOfSets}
use zuno_marketplace_api.Subscriptions.Membership.{
  mem-keep, mem-delete, mem-insert, subscribers_of-delete_everywhere, IsSetList-subscribers_of,
}
use zuno_marketplace_api.Subscriptions.Model.{WebSocketMessage, Manager, free}
use zuno_marketplace_api.Subscriptions.Manager.{
  set_connection, add_connection, handle_web_socket, without_connection, remove_connection,
  add_subscription, remove_subscription, send, send_to_all, send_to_intent, send_to_connection,
  inactive, cleanup, shut, close, write_pump, replied, ClientMessage, subscribe, unsubscribe, ping,
  unknown, handle_client_message, with_intent, without_intent,
}
use zuno_marketplace_api.Subscriptions.Spec.{
  View, view, View-ext, Operation, connect, disconnect, drop, write, clean, add, remove, publish,
  deliver, say, perform, with_pair, without_pair, leave, push, specified,
}
use zuno_marketplace_api.Subscriptions.Pairs.{mem-add, mem-remove, absent_pair, mem-delete_all}
use zuno_marketplace_api.Subscriptions.Pushes.{IsPushed→push, send-IsPushed, send_to_all-IsPushed}

-- Does the manager let another connection in?
abbrev pub has_room : Manager → Bool
has_room m = not (leb m.max_connections (length m.connections))

connect-specified :
    (id : Text) (m : Manager)
    → view (handle_web_socket id m).1 ≡ specified (has_room m) (connect id) (view m)
unfolding handle_web_socket add_connection
connect-specified id m = elim (Bool-cases (leb m.max_connections (length m.connections))) [
  | inl full ↦ rw full refl
  | inr room ↦ rw room (View-ext _ _ (λ x. mem-insert x id m.connections) (λ i x. refl) (λ x. refl))
]

leave-specified :
    (id : Text) (m : Manager)
    → IsMapOfSets m.subscriptions
    → view (without_connection id m) ≡ leave id (view m)
leave-specified id m h = elim (Bool-cases (mem id m.connections)) [
  | inl here ↦ rw here (
      View-ext _ _ (λ x. mem-delete x id m.connections)
        (λ i x.
          ap (mem x) (subscribers_of-delete_everywhere i id m.subscriptions h)
          ∙ mem-delete x id (subscribers_of i m.subscriptions))
        (λ x. refl))
  | inr gone ↦ rw gone (View-ext _ _ (λ x. not_here x gone) (λ i x. refl) (λ x. refl))
]
  where
    not_here :
        (x : Text)
        → mem id m.connections ≡ false
        → mem x m.connections ≡ (not (text_eq id x) && mem x m.connections)
    not_here x gone = elim (Bool-cases (text_eq id x)) [
      | inl hit ↦
          let e : mem x m.connections ≡ false =
            subst (λ y. mem y m.connections ≡ false) ((text_eq_iff id x).0 hit) gone in
          rw (hit, e) refl
      | inr miss ↦ rw miss refl
    ]

drop-specified :
    (id : Text) (m : Manager)
    → IsMapOfSets m.subscriptions
    → view (close free id m).1 ≡ specified (has_room m) (drop id) (view m)
unfolding close remove_connection
drop-specified id m h = elim (Bool-cases (m.connection id).closed) [
  | inl done ↦ rw done refl
  | inr open_ ↦ rw open_ (leave-specified id (set_connection id (shut (m.connection id)) m) h)
]

clean-specified :
    (m : Manager)
    → IsMapOfSets m.subscriptions
    → view (cleanup m) ≡ specified (has_room m) clean (view m)
unfolding cleanup
clean-specified m h =
    View-ext _ _
      (λ x.
        mem-keep (λ id. (m.connection id).is_active) x m.connections
        ∙ and_comm (m.connection x).is_active (mem x m.connections))
      (λ i x.
        mem-delete_all (inactive m) m.subscriptions i x h
        ∙ ap (λ b. not b && mem x (subscribers_of i m.subscriptions))
            (mem-keep (λ id. not (m.connection id).is_active) x m.connections
              ∙ and_comm (not (m.connection x).is_active) (mem x m.connections)))
      (λ x. refl)
  where
    and_comm : (a b : Bool) → (a && b) ≡ (b && a)
    and_comm true true = refl
    and_comm true false = refl
    and_comm false true = refl
    and_comm false false = refl

add-specified :
    (i id : Text) (m : Manager)
    → view (add_subscription i id m)
      ≡ record (view m) { subscribed = with_pair i id (view m).subscribed }
unfolding add_subscription
add-specified i id m =
    View-ext _ _ (λ x. refl) (λ j x. mem-add i m.subscriptions id j x) (λ x. refl)

remove-specified :
    (i id : Text) (m : Manager)
    → view (remove_subscription i id m)
      ≡ record (view m) { subscribed = without_pair i id (view m).subscribed }
unfolding remove_subscription
remove-specified i id m = elim (Bool-cases (has_key i m.subscriptions)) [
  | inl here ↦
      rw here (View-ext _ _ (λ x. refl) (λ j x. mem-remove i m.subscriptions id j x) (λ x. refl))
  | inr gone ↦
      rw gone
        (View-ext _ _ (λ x. refl) (λ j x. absent_pair i id j x m.subscriptions gone) (λ x. refl))
]

publish-specified :
    (i : Text) (message : WebSocketMessage) (m : Manager)
    → IsMapOfSets m.subscriptions
    → view (send_to_intent i message m).1 ≡ specified (has_room m) (publish i message) (view m)
unfolding send_to_intent
publish-specified i message m h =
    IsPushed→push _ message m (send_to_all message (subscribers_of i m.subscriptions) m).1 (
      send_to_all-IsPushed message (subscribers_of i m.subscriptions) m
        (IsSetList-subscribers_of i m.subscriptions h))

deliver-specified :
    (id : Text) (message : WebSocketMessage) (m : Manager)
    → view (send_to_connection id message m).1
      ≡ specified (has_room m) (deliver id message) (view m)
unfolding send_to_connection
deliver-specified id message m = elim (Bool-cases (mem id m.connections)) [
  | inl here ↦ rw here (
      IsPushed→push (text_eq id) message m (send id message m).1 (send-IsPushed message id m)
      ∙ View-ext _ _ (λ x. refl) (λ i x. refl)
          (λ x. elim (Bool-cases (text_eq id x)) [
            | inl hit ↦
                let e : mem x m.connections ≡ true =
                  subst (λ y. mem y m.connections ≡ true) ((text_eq_iff id x).0 hit) here in
                rw (hit, e) refl
            | inr miss ↦ rw miss refl
          ]))
  | inr gone ↦ rw gone (
      View-ext _ _ (λ x. refl) (λ i x. refl)
        (λ x. elim (Bool-cases (text_eq id x)) [
          | inl hit ↦
              let e : mem x m.connections ≡ false =
                subst (λ y. mem y m.connections ≡ false) ((text_eq_iff id x).0 hit) gone in
              rw (hit, e) refl
          | inr miss ↦ rw miss refl
        ]))
]

reply-specified :
    (id : Text) (message : WebSocketMessage) (m : Manager) (v : View)
    → view m ≡ v
    → view (replied id message m).1 ≡ push (text_eq id) message v
reply-specified id message m v e =
    IsPushed→push (text_eq id) message m (send id message m).1 (send-IsPushed message id m)
    ∙ ap (push (text_eq id) message) e

say-specified :
    (now : ℕ) (id : Text) (message : ClientMessage) (m : Manager)
    → view (handle_client_message now id message m).1
      ≡ specified (has_room m) (say now id message) (view m)
unfolding handle_client_message
say-specified now id (subscribe i) m = elim (Bool-cases (is_empty i)) [
  | inl blank ↦ rw blank refl
  | inr named ↦ rw named (
      reply-specified id _ _ _
        (add-specified i id (set_connection id (with_intent i (m.connection id)) m)))
]
say-specified now id (unsubscribe i) m = elim (Bool-cases (is_empty i)) [
  | inl blank ↦ rw blank refl
  | inr named ↦ rw named (
      reply-specified id _ _ _
        (remove-specified i id (set_connection id (without_intent i (m.connection id)) m)))
]
say-specified now id ping m = reply-specified id _ m (view m) refl
say-specified now id unknown m = refl

-- On a manager whose subscriptions are a map of sets, each operation does to the view what the
-- specification says.
pub perform-specified :
    (operation : Operation) (m : Manager)
    → IsMapOfSets m.subscriptions
    → view (perform operation m) ≡ specified (has_room m) operation (view m)
unfolding remove_connection write_pump
perform-specified (connect id) m h = connect-specified id m
perform-specified (disconnect id) m h = leave-specified id m h
perform-specified (drop id) m h = drop-specified id m h
perform-specified (write id) m h = refl
perform-specified clean m h = clean-specified m h
perform-specified (add i id) m h = add-specified i id m
perform-specified (remove i id) m h = remove-specified i id m
perform-specified (publish i message) m h = publish-specified i message m h
perform-specified (deliver id message) m h = deliver-specified id message m
perform-specified (say now id message) m h = say-specified now id message m
