-- ===== src/Intents/Resolving.antt =====
-- Without failures, an event resolves the pending intents of its transaction.
use zuno_marketplace_api.Common.{
  ℕ, Text, codes, ◌≡◌, ◌≢◌, refl, sym, ◌∙◌, subst, inl, inr, ◌⊎◌, Bool, true, false, List, [], ◌∷◌,
  ◌++◌, some, ltb, Bool-cases, is_empty, ok, pure, attempt, ◌>>=◌,
}
use zuno_marketplace_api.Common.Quiet.{
  Lands, Lands-pure, Lands-caught, Lands-server_call, Lands-bind,
}
use zuno_marketplace_api.Subscriptions.Sets.{mem, subscribers_of}
use zuno_marketplace_api.Subscriptions.Model.{json_text, IntentStatus, DomainEvent}
use zuno_marketplace_api.Intents.Redis.{Entry, Worker, Store, redis_error, call, s_members}
use zuno_marketplace_api.Intents.Repository.{
  Codec, is_pending, update_intent_status, get_pending_intents_by_contract, get_intents_by_tx_hash,
  get_contract_key, get_tx_hash_key, is_none,
}
use zuno_marketplace_api.Intents.Resolution.{
  lookup, after_resolving, resolve_intent_with_collection, resolve_all, resolve_found,
  resolve_by_tx_hash, resolve_by_contract, fall_back, process_contract, process_collection_upserted,
}
use zuno_marketplace_api.Intents.Reading.{IsRoundTrip, entry_of}
use zuno_marketplace_api.Intents.Ready.{IsTotal, IsReady, here, there, collect-Lands, collect-Due}
use zuno_marketplace_api.Intents.Writing.{
  R, D, IsWritten, IsResolved, update_intent_status-Lands, written-Ready, same_entries,
  notify-Lands,
}

module _ (json : Codec) (laws : IsRoundTrip json) (total : IsTotal json) (now : ℕ)
    (id contract_address : Text) (event : DomainEvent) where
  abbrev Done : Worker → Type 0
  Done = R json laws total now id contract_address event

  abbrev Needed : List IntentStatus → Type 0
  Needed = D json laws total now id contract_address event

  module _ (tx_hash : Text)
      (given : lookup (codes "tx_hash") event.values ≡ some (json_text tx_hash)) where
    resolve-Lands :
        (intent : IntentStatus) (w : Worker)
        → Lands
            (resolve_intent_with_collection json now contract_address event intent)
            w
            (λ u w'. (intent.intent_id ≢ id → Done w) → Done w')
    unfolding resolve_intent_with_collection
    resolve-Lands intent w =
        Lands-bind _ _ w
          (λ i w'.
            IsResolved json laws total now id contract_address event i
            × (i.intent_id ≡ intent.intent_id)
            × (w' ≡ w))
          (λ u w'. (intent.intent_id ≢ id → Done w) → Done w')
          (rw given (
            Lands-pure _ w _ (record { status = refl; contract = refl; chain = refl }, refl, refl)))
          λ i w' p.
            Lands-bind _ _ w' (λ u w''. (intent.intent_id ≢ id → Done w) → Done w'')
              (λ u w''. (intent.intent_id ≢ id → Done w) → Done w'')
              (weaker i w' p
                (update_intent_status-Lands json laws total now id contract_address event i w'))
              λ u w'' r.
                notify-Lands json laws total now id contract_address event intent.intent_id _ w''
                  (λ w3. (intent.intent_id ≢ id → Done w) → Done w3)
                  (λ w3 e o.
                    same_entries json laws total now id contract_address event w'' w3 e (r o))
      where
        weaker :
            (i : IntentStatus) (w' : Worker)
            → IsResolved json laws total now id contract_address event i
              × (i.intent_id ≡ intent.intent_id)
              × (w' ≡ w)
            → Lands
                (update_intent_status json now i)
                w'
                (λ u. IsWritten json laws total now id contract_address event i w')
            → Lands
                (update_intent_status json now i)
                w'
                (λ u w''. (intent.intent_id ≢ id → Done w) → Done w'')
        weaker i w' p l = record {
          value = l.value;
          tables = l.tables;
          eq = l.eq;
          claim = λ o.
              written-Ready json laws total now id contract_address event i w' l.tables p.0
                (λ n. subst Done (sym p.2) (o (λ e. n (p.1 ∙ e)))) l.claim;
        }

    resolve_all-Lands :
        (intents : List IntentStatus) (w : Worker)
        → Done w ⊎ Needed intents
        → Lands (resolve_all json now contract_address event intents) w (λ l. Done)
    unfolding resolve_all
    resolve_all-Lands [] w (inl r) = Lands-pure [] w _ r
    resolve_all-Lands [] w (inr due) = elim due [ ]
    resolve_all-Lands (intent ∷ intents) w h = elim (Bool-cases (is_pending intent)) [
      | inl pending ↦
          let l : Lands
              (attempt (resolve_intent_with_collection json now contract_address event intent)
                >>= λ outcome.
                    (after_resolving intent outcome >>= λ first.
                    (resolve_all json now contract_address event intents >>= λ others.
                    pure (first ++ others))))
              w (λ l. Done) =
            Lands-bind _ _ w (λ outcome w'. (outcome ≡ ok tt) × (Done w' ⊎ Needed intents))
              (λ l. Done)
              (Lands-caught _ w _ _ (resolve-Lands intent w) (λ u w' k. (refl, next w' h k)))
              λ outcome w' p.
                Lands-bind _ _ w' (λ first w''. Done w'' ⊎ Needed intents) (λ l. Done)
                  (rw (p.0) (Lands-pure _ w' _ p.1))
                  λ first w'' q.
                    Lands-bind _ _ w'' (λ others. Done) (λ l. Done)
                      (resolve_all-Lands intents w'' q) λ others w3 r. Lands-pure _ w3 _ r in
          rw pending (record { value = l.value; tables = l.tables; eq = l.eq; claim = l.claim })
      | inr settled ↦ rw settled (resolve_all-Lands intents w (passed settled h))
    ]
      where
        next :
            (w' : Worker)
            → Done w ⊎ Needed (intent ∷ intents)
            → ((intent.intent_id ≢ id → Done w) → Done w')
            → Done w' ⊎ Needed intents
        next w' (inl r) k = inl (k (λ n. r))
        next w' (inr (here i rest e pending)) k = inl (k (λ n. absurd (n e)))
        next w' (inr (there i rest due)) k = inr due

        passed :
            is_pending intent ≡ false → Done w ⊎ Needed (intent ∷ intents) → Done w ⊎ Needed intents
        passed settled (inl r) = inl r
        passed settled (inr (here i rest e pending)) = absurd (cc)
        passed settled (inr (there i rest due)) = inr due

    members-Lands :
        (key : Text) (w : Worker)
        → Lands (call (s_members key)) w (λ ids w'. (ids ≡ subscribers_of key w.sets) × (w' ≡ w))
    unfolding s_members
    members-Lands key w = Lands-server_call redis_error (s_members key) w _ w _ refl (refl, refl)

    module _ (entry : Entry) (intent : IntentStatus) (fresh : ltb now entry.until ≡ true)
        (decoded : json.unmarshal entry.content ≡ some intent) (pending : is_pending intent ≡ true)
        (named : intent.intent_id ≡ id) where
      by_tx_hash-Lands :
          (w : Worker)
          → is_empty tx_hash ≡ false
          → entry_of id w ≡ some entry
          → mem id (subscribers_of (get_tx_hash_key event.chain_id tx_hash) w.sets) ≡ true
          → Lands (resolve_by_tx_hash json now contract_address event tx_hash) w (λ l. Done)
      unfolding get_intents_by_tx_hash
      by_tx_hash-Lands w some_ stands m =
          let l : Lands
              (attempt (get_intents_by_tx_hash json now event.chain_id tx_hash)
                >>= resolve_found json now contract_address event)
              w (λ l. Done) =
            Lands-bind _ _ w (λ r w'. (l : List IntentStatus) × (r ≡ ok l) × Needed l) (λ l. Done)
              (Lands-caught (get_intents_by_tx_hash json now event.chain_id tx_hash) w
                (λ l w'. Needed l) _
                (Lands-bind _ _ w
                  (λ ids w'.
                    (ids ≡ subscribers_of (get_tx_hash_key event.chain_id tx_hash) w.sets)
                    × (w' ≡ w))
                  (λ l w'. Needed l) (members-Lands (get_tx_hash_key event.chain_id tx_hash) w)
                  λ ids w' e.
                    collect-Due json laws total now id contract_address event entry intent fresh
                      decoded pending named (λ i. true) ids w' refl (rw (e.0) m) (rw (e.1) stands))
                (λ l w' due. (l, refl, due)))
              λ r w' p. rw (p.1) (resolve_all-Lands (p.0) w' (inr (p.2))) in
          rw some_ (record { value = l.value; tables = l.tables; eq = l.eq; claim = l.claim })

      fall_back-Lands :
          (b : Bool) (w : Worker)
          → Done w
          → Lands (fall_back json now b contract_address event) w (λ u. Done)
      unfolding resolve_by_contract get_pending_intents_by_contract
      fall_back-Lands false w r = Lands-pure tt w _ r
      fall_back-Lands true w r =
          Lands-bind (get_pending_intents_by_contract json now event.chain_id contract_address) _ w
            (λ l. Done) (λ u. Done)
            (Lands-bind _ _ w
              (λ ids w'.
                (ids ≡ subscribers_of (get_contract_key event.chain_id contract_address) w.sets)
                × (w' ≡ w))
              (λ l. Done) (members-Lands (get_contract_key event.chain_id contract_address) w)
              λ ids w' e.
                collect-Lands json laws total now id contract_address event is_pending ids w' Done
                  (subst Done (sym e.1) r))
            λ l w' r'.
              Lands-bind _ _ w' (λ l'. Done) (λ u. Done) (resolve_all-Lands l w' (inl r'))
                λ l' w'' r''. Lands-pure tt w'' _ r''

      process_contract-Lands :
          (w : Worker)
          → is_empty tx_hash ≡ false
          → entry_of id w ≡ some entry
          → mem id (subscribers_of (get_tx_hash_key event.chain_id tx_hash) w.sets) ≡ true
          → Lands (process_contract json now contract_address event) w (λ u. Done)
      unfolding process_contract
      process_contract-Lands w some_ stands m =
          Lands-bind _ _ w (λ l. Done) (λ u. Done) (rw given (by_tx_hash-Lands w some_ stands m))
            λ l w' r. fall_back-Lands (is_none json now l) w' r

module _ (json : Codec) (laws : IsRoundTrip json) (total : IsTotal json) (now : ℕ)
    (event : DomainEvent) (contract_address tx_hash : Text) where
  -- Where statuses can be encoded and decoding gives them back and Redis does not fail: after an event
  -- on a collection with a contract address and a transaction hash, a pending or processing
  -- intent that was alive under its id and in the set of that hash is ready, with the contract and
  -- the chain of the event, and the event was handled without an error.
  pub process_collection_upserted-IsReady :
      (id : Text) (entry : Entry) (intent : IntentStatus) (s : Store)
      → s.faults ≡ []
      → lookup (codes "contract_address") event.values ≡ some (json_text contract_address)
      → is_empty contract_address ≡ false
      → lookup (codes "tx_hash") event.values ≡ some (json_text tx_hash)
      → is_empty tx_hash ≡ false
      → entry_of id s.tables ≡ some entry
      → ltb now entry.until ≡ true
      → json.unmarshal entry.content ≡ some intent
      → intent.intent_id ≡ id
      → is_pending intent ≡ true
      → mem id (subscribers_of (get_tx_hash_key event.chain_id tx_hash) s.tables.sets) ≡ true
      → ((process_collection_upserted json now event s).0 ≡ ok tt)
        × IsReady json id contract_address event.chain_id
            (process_collection_upserted json now event s).1.tables
  unfolding process_collection_upserted
  process_collection_upserted-IsReady id entry intent s calm address addressed hash hashed stands
        fresh decoded named pending member =
      let l =
        process_contract-Lands json laws total now id contract_address event tx_hash hash entry
          intent fresh decoded pending named s.tables hashed stands member in
      rw (calm, address, addressed, l.eq) (refl, l.claim)
