-- ===== src/Subscriptions/Pushes.antt =====
-- What sending leaves of the manager: the channels with the message, and nothing else changed.
use zuno_marketplace_api.Common.{
  Text, Bool, true, false, ◌&&◌, ◌||◌, List, [], ◌∷◌, if◌then◌else◌, Bool-cases, text_eq,
  text_eq_iff, leb, length, Result, ok, err, ◌≡◌, refl, sym, ◌∙◌, inl, inr, subst,
}
use zuno_marketplace_api.Subscriptions.Sets.{mem, IsSetList}
use zuno_marketplace_api.Subscriptions.Model.{WebSocketMessage, Connection, Manager, WorkerError}
use zuno_marketplace_api.Subscriptions.Manager.{
  pushed, send, counted, send_to_subscriber, send_to_all, send_capacity,
}
use zuno_marketplace_api.Subscriptions.Spec.{view, View-ext, push}

-- The message has gone to the channels that `to` says, as far as they are open and have room.
pub record IsPushed (to : Text → Bool) (message : WebSocketMessage) (m m' : Manager) : Type 0 where
  pub connections : m'.connections ≡ m.connections
  pub subscriptions : m'.subscriptions ≡ m.subscriptions
  pub limit : m'.max_connections ≡ m.max_connections
  pub connection :
      (x : Text)
      → m'.connection x ≡ (if to x then pushed message (m.connection x) else m.connection x)

pub IsPushed→push :
    (to : Text → Bool) (message : WebSocketMessage) (m m' : Manager)
    → IsPushed to message m m'
    → view m' ≡ push to message (view m)
IsPushed→push to message m m' p =
    View-ext (view m') (push to message (view m)) (λ id. rw (p.connections) refl)
      (λ intent_id id. rw (p.subscriptions) refl) (p.connection)

module _ (message : WebSocketMessage) where
  pub send-IsPushed :
      (id : Text) (m : Manager) → IsPushed (text_eq id) message m (send id message m).1
  unfolding send
  send-IsPushed id m = elim (Bool-cases (m.connection id).is_active) [
    | inl active ↦ elim (Bool-cases (leb send_capacity (length (m.connection id).queue))) [
      | inl full ↦
          rw (active, full)
            (record {
              connections = refl;
              subscriptions = refl;
              limit = refl;
              connection = λ x. unchanged x (rw (active, full) refl);
            })
      | inr room ↦
          rw (active, room)
            (record {
              connections = refl;
              subscriptions = refl;
              limit = refl;
              connection = λ x. elim (Bool-cases (text_eq id x)) [
                | inl hit ↦ rw hit (rw (sym ((text_eq_iff id x).0 hit)) (rw (active, room) refl))
                | inr miss ↦ rw miss refl
              ];
            })
    ]
    | inr shut ↦ rw shut (record {
      connections = refl;
      subscriptions = refl;
      limit = refl;
      connection = λ x. unchanged x (rw shut refl);
    })
  ]
    where
      unchanged :
          (x : Text)
          → pushed message (m.connection id) ≡ m.connection id
          → m.connection x
            ≡ (if text_eq id x then pushed message (m.connection x) else m.connection x)
      unchanged x h = elim (Bool-cases (text_eq id x)) [
        | inl hit ↦ rw hit (
            sym (
              subst (λ y. pushed message (m.connection y) ≡ m.connection y)
                ((text_eq_iff id x).0 hit) h))
        | inr miss ↦ rw miss refl
      ]

  counted-IsPushed :
      (to : Text → Bool) (id : Text) (m : Manager) (r : Result WorkerError (Unit {0}) × Manager)
      → IsPushed to message m r.1
      → IsPushed to message m (counted id r).1
  counted-IsPushed to id m (ok u, m') p = p
  counted-IsPushed to id m (err e, m') p = record {
    connections = p.connections;
    subscriptions = p.subscriptions;
    limit = p.limit;
    connection = p.connection;
  }

  pub send_to_subscriber-IsPushed :
      (id : Text) (m : Manager)
      → IsPushed
          (λ x. text_eq id x && mem x m.connections)
          message
          m
          (send_to_subscriber message id m).1
  unfolding send_to_subscriber
  send_to_subscriber-IsPushed id m = elim (Bool-cases (mem id m.connections)) [
    | inl here ↦ elim (Bool-cases (m.connection id).is_active) [
      | inl active ↦
          rw (here, active)
            (connected here
              (counted-IsPushed (text_eq id) id m (send id message m) (send-IsPushed id m)))
      | inr shut ↦
          rw (here, shut)
            (record {
              connections = refl;
              subscriptions = refl;
              limit = refl;
              connection =
                  λ x. unchanged x λ hit. rw (sym ((text_eq_iff id x).0 hit)) (rw shut refl);
            })
    ]
    | inr gone ↦ rw gone (record {
      connections = refl;
      subscriptions = refl;
      limit = refl;
      connection = λ x. elim (Bool-cases (text_eq id x)) [
        | inl hit ↦
            let e : mem x m.connections ≡ false =
              subst (λ y. mem y m.connections ≡ false) ((text_eq_iff id x).0 hit) gone in
            rw (hit, e) refl
        | inr miss ↦ rw miss refl
      ];
    })
  ]
    where
      either : {x y : Connection} (b : Bool) → y ≡ x → x ≡ (if b then y else x)
      either true e = sym e
      either false e = refl

      unchanged :
          (x : Text)
          → (text_eq id x ≡ true → pushed message (m.connection x) ≡ m.connection x)
          → m.connection x ≡ (
              if text_eq id x && mem x m.connections
              then pushed message (m.connection x)
              else m.connection x)
      unchanged x h = elim (Bool-cases (text_eq id x)) [
        | inl hit ↦ rw hit (either (mem x m.connections) (h hit))
        | inr miss ↦ rw miss refl
      ]

      connected :
          {m' : Manager}
          → mem id m.connections ≡ true
          → IsPushed (text_eq id) message m m'
          → IsPushed (λ x. text_eq id x && mem x m.connections) message m m'
      connected here p = record {
        connections = p.connections;
        subscriptions = p.subscriptions;
        limit = p.limit;
        connection = λ x. p.connection x ∙ elim (Bool-cases (text_eq id x)) [
          | inl hit ↦
              let e : mem x m.connections ≡ true =
                subst (λ y. mem y m.connections ≡ true) ((text_eq_iff id x).0 hit) here in
              rw (hit, e) refl
          | inr miss ↦ rw miss refl
        ];
      }

  pub send_to_all-IsPushed :
      (ids : List Text) (m : Manager)
      → IsSetList ids
      → IsPushed (λ x. mem x ids && mem x m.connections) message m (send_to_all message ids m).1
  unfolding send_to_all
  send_to_all-IsPushed [] m d = record {
    connections = refl;
    subscriptions = refl;
    limit = refl;
    connection = λ x. refl;
  }
  send_to_all-IsPushed (id ∷ ids) m d =
      let p = send_to_subscriber-IsPushed id m in
      let q = send_to_all-IsPushed ids (send_to_subscriber message id m).1 d.1 in
      record {
        connections = q.connections ∙ p.connections;
        subscriptions = q.subscriptions ∙ p.subscriptions;
        limit = q.limit ∙ p.limit;
        connection = λ x. q.connection x ∙ rw (p.connections) (twice x (p.connection x));
      }
    where
      twice :
          {c : Connection} (x : Text)
          → c ≡ (
              if text_eq id x && mem x m.connections
              then pushed message (m.connection x)
              else m.connection x)
          → (if mem x ids && mem x m.connections then pushed message c else c) ≡ (
              if (text_eq id x || mem x ids) && mem x m.connections
              then pushed message (m.connection x)
              else m.connection x)
      twice x e = elim (Bool-cases (text_eq id x)) [
        | inl hit ↦
            let once : mem x ids ≡ false =
              subst (λ y. mem y ids ≡ false) ((text_eq_iff id x).0 hit) d.0 in
            rw (e, once, hit) refl
        | inr miss ↦ rw (e, miss) refl
      ]
