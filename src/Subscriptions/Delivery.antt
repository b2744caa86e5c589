-- ===== src/Subscriptions/Delivery.antt =====
-- Who gets a message.
use zuno_marketplace_api.Common.{
  ℕ, ◌+◌, Text, true, false, ◌&&◌, List, [], ◌∷◌, ◌++◌, if◌then◌else◌, arith, Bool-cases, text_eq,
  text_eq_iff, leb, length, ok, ◌≡◌, refl, ◌∙◌, ap, inl, inr, subst,
}
use zuno_marketplace_api.Subscriptions.Sets.{mem, subscribers_of, IsSetList}
use zuno_marketplace_api.Subscriptions.Membership.{IsSetList-subscribers_of}
use zuno_marketplace_api.Subscriptions.Model.{WebSocketMessage, Connection, Manager}
use zuno_marketplace_api.Subscriptions.Manager.{
  pushed, send, send_capacity, send_to_subscriber, send_to_all, send_to_intent,
}
use zuno_marketplace_api.Subscriptions.Pushes.{send_to_subscriber-IsPushed, send_to_all-IsPushed}
use zuno_marketplace_api.Subscriptions.Keeping.{IsWellFormed}

zero_left : (a b : ℕ) → a + b ≡ 0 → a ≡ 0
zero_left a b e = omega arith

zero_right : (a b : ℕ) → a + b ≡ 0 → b ≡ 0
zero_right a b e = omega arith

module _ (message : WebSocketMessage) (x : Text) where
  send_to_subscriber-room :
      (m : Manager)
      → mem x m.connections ≡ true
      → (m.connection x).is_active ≡ true
      → (send_to_subscriber message x m).0 ≡ 0
      → leb send_capacity (length (m.connection x).queue) ≡ false
  unfolding send_to_subscriber send
  send_to_subscriber-room m here active z =
      elim (Bool-cases (leb send_capacity (length (m.connection x).queue))) [
        | inl full ↦ absurd (let h : 1 ≡ 0 = rw (here, active, full) at z in cc)
        | inr room ↦ room
      ]

  -- Without an error, an open connection of the list had room.
  send_to_all-room :
      (ids : List Text) (m : Manager)
      → IsSetList ids
      → (send_to_all message ids m).0 ≡ 0
      → mem x ids ≡ true
      → mem x m.connections ≡ true
      → (m.connection x).is_active ≡ true
      → leb send_capacity (length (m.connection x).queue) ≡ false
  unfolding send_to_all
  send_to_all-room [] m d z h here active = absurd (cc)
  send_to_all-room (id ∷ ids) m d z h here active =
      let a = (send_to_subscriber message id m).0 in
      let b = (send_to_all message ids (send_to_subscriber message id m).1).0 in
      elim (Bool-cases (text_eq id x)) [
        | inl hit ↦ send_to_subscriber-room m here active (
            subst (λ y. (send_to_subscriber message y m).0 ≡ 0) ((text_eq_iff id x).0 hit)
              (zero_left a b z))
        | inr miss ↦
            let p = send_to_subscriber-IsPushed message id m in
            let e : (send_to_subscriber message id m).1.connection x ≡ m.connection x =
              p.connection x ∙ rw miss refl in
            subst (λ (c : Connection). leb send_capacity (length c.queue) ≡ false) e
              (send_to_all-room ids (send_to_subscriber message id m).1 d.1 (zero_right a b z)
                (ground (arith, h, miss)) (rw (p.connections) here) (rw e active))
      ]

module _ (intent_id : Text) (message : WebSocketMessage) (m : Manager) where
  count_zero :
      (send_to_intent intent_id message m).0 ≡ ok tt
      → (send_to_all message (subscribers_of intent_id m.subscriptions) m).0 ≡ 0
  unfolding send_to_intent
  count_zero h = ground (arith, h)

  -- SendToIntent that returns no error has put the message at the end of the channel of each open,
  -- connected subscriber of the intent.
  pub send_to_intent-delivers :
      (id : Text)
      → IsWellFormed m
      → (send_to_intent intent_id message m).0 ≡ ok tt
      → mem id (subscribers_of intent_id m.subscriptions) ≡ true
      → mem id m.connections ≡ true
      → (m.connection id).is_active ≡ true
      → ((send_to_intent intent_id message m).1.connection id).queue
        ≡ (m.connection id).queue ++ message ∷ []
  unfolding send_to_intent
  send_to_intent-delivers id w h subscribed here active =
      let ids = subscribers_of intent_id m.subscriptions in
      let d = IsSetList-subscribers_of intent_id m.subscriptions w.subscriptions in
      let room = send_to_all-room message id ids m d (count_zero h) subscribed here active in
      let e = (send_to_all-IsPushed message ids m d).connection id in
      let f : (if mem id ids && mem id m.connections
            then pushed message (m.connection id)
            else m.connection id)
          ≡ record (m.connection id) { queue = (m.connection id).queue ++ message ∷ [] } =
        rw (subscribed, here, active, room) refl in
      ap (λ (c : Connection). c.queue) (e ∙ f)
