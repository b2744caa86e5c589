-- ===== src/Subscriptions/Stale.antt =====
-- A subscription that stays.
use zuno_marketplace_api.Common.{
  Text, Bool, true, false, not, ◌&&◌, List, [], ◌∷◌, arith, Bool-cases, any, is_empty, text_eq,
  text_eq_iff, ◌≡◌, refl, sym, ap, inl, inr, subst,
}
use zuno_marketplace_api.Subscriptions.Sets.{mem, subscribers_of}
use zuno_marketplace_api.Subscriptions.Model.{Manager}
use zuno_marketplace_api.Subscriptions.Manager.{subscribe, unsubscribe, ping, unknown}
use zuno_marketplace_api.Subscriptions.Spec.{
  View, view, Operation, connect, disconnect, drop, write, clean, add, remove, publish, deliver,
  say, perform, specified,
}
use zuno_marketplace_api.Subscriptions.Refines.{has_room, perform-specified}
use zuno_marketplace_api.Subscriptions.Keeping.{IsWellFormed, perform-IsWellFormed, run}

module _ (intent_id id : Text) where
  -- Could the operation connect `id`, or take its subscription to the intent?
  abbrev pub touches : Operation → Bool
  touches (connect other) = text_eq other id
  touches (remove i other) = text_eq other id
  touches (say now other message) = text_eq other id
  touches operation = false

  abbrev Left : View → Type 0
  Left v = (v.connected id ≡ false) × (v.subscribed intent_id id ≡ true)

  -- A connection that is not there takes nothing along.
  gone :
      {c s : Bool} (here same : Bool)
      → (c ≡ false) × (s ≡ true)
      → (same ≡ true → here ≡ c)
      → ((not same && c) ≡ false) × ((not (here && same) && s) ≡ true)
  gone here true p e = (refl, rw (e refl, p.0) (p.1))
  gone true false p e = p
  gone false false p e = p

  specified-Left :
      (room : Bool) (operation : Operation) (v : View)
      → touches operation ≡ false
      → Left v
      → Left (specified room operation v)
  specified-Left true (connect other) v t p = (ground (arith, t, p.0), p.1)
  specified-Left false (connect other) v t p = p
  specified-Left room (disconnect other) v t p =
      gone (v.connected other) (text_eq other id) p
        (λ e. ap v.connected ((text_eq_iff other id).0 e))
  specified-Left room (drop other) v t p = elim (Bool-cases (v.connection other).closed) [
    | inl done ↦ rw done p
    | inr open_ ↦ rw open_ (
        gone (v.connected other) (text_eq other id) p
          (λ e. ap v.connected ((text_eq_iff other id).0 e)))
  ]
  specified-Left room (write other) v t p = p
  specified-Left room clean v t p = (rw (p.0) refl, rw (p.0) (p.1))
  specified-Left room (add i other) v t p = (p.0, ground (arith, p.1))
  specified-Left room (remove i other) v t p = (p.0, ground (arith, p.1, t))
  specified-Left room (publish i message) v t p = p
  specified-Left room (deliver other message) v t p = p
  specified-Left room (say now other (subscribe i)) v t p = elim (Bool-cases (is_empty i)) [
    | inl blank ↦ rw blank p
    | inr named ↦ rw named (p.0, ground (arith, p.1))
  ]
  specified-Left room (say now other (unsubscribe i)) v t p = elim (Bool-cases (is_empty i)) [
    | inl blank ↦ rw blank p
    | inr named ↦ rw named (p.0, ground (arith, p.1, t))
  ]
  specified-Left room (say now other ping) v t p = p
  specified-Left room (say now other unknown) v t p = p

  -- A subscription of a connection that is not connected stays, whatever is done: neither a removal
  -- of the connection nor a cleanup takes it, as long as the connection is not added, does not speak
  -- and the subscription is not removed by name.
  pub run-stale :
      (operations : List Operation) (m : Manager)
      → IsWellFormed m
      → any touches operations ≡ false
      → mem id m.connections ≡ false
      → mem id (subscribers_of intent_id m.subscriptions) ≡ true
      → mem id (subscribers_of intent_id (run operations m).subscriptions) ≡ true
  run-stale operations m w h gone_ there = (left operations m w h (gone_, there)).1
    where
      left :
          (operations : List Operation) (m : Manager)
          → IsWellFormed m
          → any touches operations ≡ false
          → Left (view m)
          → Left (view (run operations m))
      left [] m w h p = p
      left (operation ∷ operations) m w h p =
          left operations (perform operation m) (perform-IsWellFormed operation m w)
            (ground (arith, h))
            (subst Left (sym (perform-specified operation m w.subscriptions))
              (specified-Left (has_room m) operation (view m) (ground (arith, h)) p))
