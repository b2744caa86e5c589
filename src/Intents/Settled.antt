-- ===== src/Intents/Settled.antt =====
-- An event does not touch the intents that are settled.
use zuno_marketplace_api.Common.{
  ℕ, Text, codes, ◌≡◌, ◌≢◌, inl, inr, Bool, true, false, ◌||◌, List, [], ◌∷◌, All, Option, none,
  some, Bool-cases, text_eq, is_empty, Result, ok, err, attempt, ◌>>=◌,
}
use zuno_marketplace_api.Common.Faults.{OnTables}
use zuno_marketplace_api.Common.Keeps.{Keeps, Keeps-pure, Keeps-fail, Keeps-bind, Keeps-attempt}
use zuno_marketplace_api.Common.Triple.{
  Triple, Post, Triple-bind, Triple-pure, Triple-fail, Triple-attempt, Keeps→Triple, Triple→Keeps,
}
use zuno_marketplace_api.Subscriptions.Model.{
  Json, json_text, json_other, IntentStatus, DomainEvent,
}
use zuno_marketplace_api.Intents.Redis.{
  Entry, Worker, Store, IntentError, redis_error, panicked, intent_not_found, unmarshal_error,
  marshal_error, missing_contract_address, no_valid_updates,
}
use zuno_marketplace_api.Intents.Repository.{
  Codec, is_pending, get_pending_intents_by_contract, get_intents_by_tx_hash, is_none,
}
use zuno_marketplace_api.Intents.Resolution.{
  lookup, string_of, or_empty, resolved, with_tx_hash, after_resolving,
  resolve_intent_with_collection, resolve_all, resolve_found, resolve_by_tx_hash,
  resolve_by_contract, fall_back, process_contract, process_collection_upserted,
  handle_collection_domain_event,
}
use zuno_marketplace_api.Intents.Reading.{
  IsRoundTrip, entry_of, IsKeyed, Holds, Spares, Read, get_intents_by_tx_hash-Read,
  get_pending_intents_by_contract-Read,
}
use zuno_marketplace_api.Intents.Storing.{update_intent_status-Keeps, notify-Keeps}

module _ (json : Codec) (laws : IsRoundTrip json) (now : ℕ) (id : Text) (entry : Entry)
    (settled : (intent : IntentStatus)
      → json.unmarshal entry.content ≡ some intent
      → is_pending intent ≡ false) where
  abbrev Kept : Worker → Type 0
  Kept = Holds json laws now id entry settled

  abbrev Spared : IntentStatus → Type 0
  Spared = Spares json laws now id entry settled

  abbrev Found : List IntentStatus → Worker → Type 0
  Found = Read json laws now id entry settled

  resolve_intent_with_collection-Keeps :
      (contract_address : Text) (event : DomainEvent) (intent : IntentStatus)
      → intent.intent_id ≢ id
      → Keeps
          (OnTables Kept)
          (resolve_intent_with_collection json now contract_address event intent)
  unfolding resolve_intent_with_collection
  resolve_intent_with_collection-Keeps contract_address event intent away =
      Triple→Keeps (OnTables Kept)
        (resolve_intent_with_collection json now contract_address event intent)
        (Triple-bind
          (with_tx_hash (lookup (codes "tx_hash") event.values)
            (resolved now contract_address event intent))
          _ (λ i. OnTables (λ w. Kept w × (i.intent_id ≢ id))) (λ u. OnTables Kept)
          (hashed (lookup (codes "tx_hash") event.values))
          λ i. record {
            at = λ s p.
                (Keeps→Triple (OnTables Kept) _ (
                    Keeps-bind _ _ (update_intent_status-Keeps json laws now id entry settled i p.1)
                      λ u. notify-Keeps json laws now id entry settled intent.intent_id _)).at
                  s p.0;
          })
    where
      hashed :
          (o : Option Json)
          → Triple
              (OnTables Kept)
              (with_tx_hash o (resolved now contract_address event intent))
              (λ i. OnTables (λ w. Kept w × (i.intent_id ≢ id)))
              (OnTables Kept)
      hashed none = Triple-pure _ _ (λ s h. (h, away))
      hashed (some (json_text t)) = Triple-pure _ _ (λ s h. (h, away))
      hashed (some (json_other t)) = Triple-fail _ _ (λ s h. h)

  after-Keeps :
      (intent : IntentStatus) (r : Result IntentError (Unit {0}))
      → Keeps (OnTables Kept) (after_resolving intent r)
  after-Keeps intent (ok u) = Keeps-pure _
  after-Keeps intent (err panicked) = Keeps-fail _
  after-Keeps intent (err redis_error) = Keeps-pure _
  after-Keeps intent (err intent_not_found) = Keeps-pure _
  after-Keeps intent (err marshal_error) = Keeps-pure _
  after-Keeps intent (err unmarshal_error) = Keeps-pure _
  after-Keeps intent (err missing_contract_address) = Keeps-pure _
  after-Keeps intent (err no_valid_updates) = Keeps-pure _

  resolve_all-Keeps :
      (contract_address : Text) (event : DomainEvent) (intents : List IntentStatus)
      → All Spared intents
      → Keeps (OnTables Kept) (resolve_all json now contract_address event intents)
  unfolding resolve_all
  resolve_all-Keeps contract_address event [] spared = Keeps-pure []
  resolve_all-Keeps contract_address event (intent ∷ intents) spared =
      let rest = resolve_all-Keeps contract_address event intents spared.1 in
      elim (Bool-cases (is_pending intent)) [
        | inl pending ↦ rw pending (record {
          at =
              (Keeps-bind _ _
                (Keeps-attempt _ (
                  resolve_intent_with_collection-Keeps contract_address event intent
                    (spared.0 pending)))
                λ r.
                  Keeps-bind _ _ (after-Keeps intent r)
                    λ first. Keeps-bind _ _ rest λ others. Keeps-pure _).at;
        })
        | inr settled_ ↦ rw settled_ rest
      ]

  resolve_by_tx_hash-Keeps :
      (contract_address : Text) (event : DomainEvent) (tx_hash : Text)
      → Keeps (OnTables Kept) (resolve_by_tx_hash json now contract_address event tx_hash)
  resolve_by_tx_hash-Keeps contract_address event tx_hash = elim (Bool-cases (is_empty tx_hash)) [
    | inl none_ ↦ rw none_ (Keeps-pure [])
    | inr some_ ↦ rw some_ (
        Triple→Keeps (OnTables Kept)
          (attempt (get_intents_by_tx_hash json now event.chain_id tx_hash)
            >>= resolve_found json now contract_address event)
          (Triple-bind (attempt (get_intents_by_tx_hash json now event.chain_id tx_hash)) _ _
            (λ l. OnTables Kept)
            (Triple-attempt _ _
              (get_intents_by_tx_hash-Read json laws now id entry settled event.chain_id tx_hash))
            found))
  ]
    where
      found :
          (r : Result IntentError (List IntentStatus))
          → Triple
              (Post (λ intents. OnTables (Found intents)) (OnTables Kept) r)
              (resolve_found json now contract_address event r)
              (λ l. OnTables Kept)
              (OnTables Kept)
      found (err e) = Triple-pure [] _ (λ s h. h)
      found (ok intents) = record {
        at = λ s p.
            (Keeps→Triple (OnTables Kept) _
                (resolve_all-Keeps contract_address event intents p.1)).at
              s p.0;
      }

  resolve_by_contract-Keeps :
      (contract_address : Text) (event : DomainEvent)
      → Keeps (OnTables Kept) (resolve_by_contract json now contract_address event)
  unfolding resolve_by_contract
  resolve_by_contract-Keeps contract_address event =
      Triple→Keeps (OnTables Kept) (resolve_by_contract json now contract_address event) (
        Triple-bind (get_pending_intents_by_contract json now event.chain_id contract_address) _
          (λ intents. OnTables (Found intents)) (λ u. OnTables Kept)
          (get_pending_intents_by_contract-Read json laws now id entry settled event.chain_id
            contract_address)
          λ intents. record {
            at = λ s p.
                (Keeps→Triple (OnTables Kept) _ (
                    Keeps-bind _ _ (resolve_all-Keeps contract_address event intents p.1)
                      λ l. Keeps-pure tt)).at
                  s p.0;
          })

  process_collection_upserted-Keeps :
      (event : DomainEvent) → Keeps (OnTables Kept) (process_collection_upserted json now event)
  unfolding process_collection_upserted process_contract
  process_collection_upserted-Keeps event =
      elim (Bool-cases
        (is_empty (or_empty (string_of (lookup (codes "contract_address") event.values))))) [
          | inl missing ↦ rw missing (Keeps-fail _)
          | inr given ↦ rw given (
              Keeps-bind _ _ (resolve_by_tx_hash-Keeps _ event _)
                λ l. fallen (is_none json now l) _)
        ]
    where
      fallen :
          (b : Bool) (contract_address : Text)
          → Keeps (OnTables Kept) (fall_back json now b contract_address event)
      fallen true contract_address = resolve_by_contract-Keeps contract_address event
      fallen false contract_address = Keeps-pure tt

module _ (json : Codec) (laws : IsRoundTrip json) (now : ℕ) (event : DomainEvent) (s : Store) where
  -- Where decoding gives back what was encoded and each intent stands under its own id, an event
  -- changes no intent that is neither pending nor processing: its entry stays as it is, whatever
  -- fails; and the intents stay under their ids.
  pub handle_collection_domain_event-settled :
      (id : Text) (entry : Entry)
      → IsKeyed json s.tables
      → entry_of id s.tables ≡ some entry
      → ((intent : IntentStatus)
          → json.unmarshal entry.content ≡ some intent
          → is_pending intent ≡ false)
      → (entry_of id (handle_collection_domain_event json now event s).1.tables ≡ some entry)
        × IsKeyed json (handle_collection_domain_event json now event s).1.tables
  unfolding handle_collection_domain_event
  handle_collection_domain_event-settled id entry keyed here settled =
      elim (Bool-cases (
        text_eq event.event_type (codes "collection_upserted")
        || text_eq event.event_type (codes "collection_created"))) [
          | inl known ↦ rw known (
              let k =
                (process_collection_upserted-Keeps json laws now id entry settled event).at s
                  (keyed, here) in
              (k.1, k.0))
          | inr unknown ↦ rw unknown (here, keyed)
        ]
