-- ===== src/Intents/Resolution.antt =====
-- services/subscription-worker/internal/service/subscription_worker_service.go
use zuno_marketplace_api.Common.{
  ℕ, suc, Text, codes, Bool, true, false, ◌||◌, List, [], ◌∷◌, ◌++◌, Option, none, some,
  if◌then◌else◌, find?, text_eq, is_empty, Result, ok, err, Exec, pure, fail, attempt, require,
  ◌>>=◌, ◌>>◌,
}
use zuno_marketplace_api.Subscriptions.Model.{
  Json, json_text, json_other, IntentStatus, DomainEvent, no_content, status_content,
  WebSocketMessage,
}
use zuno_marketplace_api.Subscriptions.Manager.{send_to_intent}
use zuno_marketplace_api.Intents.Redis.{
  Store, IntentError, missing_contract_address, no_valid_updates, panicked,
}
use zuno_marketplace_api.Intents.Repository.{
  Codec, is_pending, get_intent_status, update_intent_status, get_pending_intents_by_contract,
  get_intents_by_tx_hash, delete_intent, get_expired_intents, is_none,
}

-- A map[string]interface{} at a key; nil where it has none.
abbrev pub Values : Type 0
Values = List (Text × Json)

abbrev pub value_of : Option (Text × Json) → Option Json
value_of none = none
value_of (some entry) = some (entry.1)

abbrev pub lookup : Text → Values → Option Json
lookup name values = value_of (find? (λ entry. text_eq entry.0 name) values)

-- v.(string), with whether it is one.
abbrev pub string_of : Option Json → Option Text
string_of (some (json_text t)) = some t
string_of other = none

abbrev pub nil : Json
nil = json_other (codes "null")

abbrev pub or_nil : Option Json → Json
or_nil none = nil
or_nil (some v) = v

abbrev pub put_value : Text → Json → Values → Values
put_value name v values = (name, v) ∷ values

abbrev pub or_empty : Option Text → Text
or_empty none = []
or_empty (some t) = t

-- The collection's data and the event's, later ones before earlier ones.
abbrev pub with_collection : DomainEvent → Values → Values
with_collection event values =
    let copy = λ (from to : Text). put_value to (or_nil (lookup from event.values)) in
    put_value (codes "chain_id") (json_text event.chain_id) (
      copy (codes "collection_type") (codes "collection_type") (
        copy (codes "creator") (codes "creator") (
          copy (codes "contract_address") (codes "contract_address") (
            copy (codes "symbol") (codes "collection_symbol") (
              copy (codes "name") (codes "collection_name")
                (put_value (codes "collection_id") (json_text event.aggregate_id) values))))))

abbrev pub resolved : ℕ → Text → DomainEvent → IntentStatus → IntentStatus
resolved now contract_address event intent = record intent {
  status = codes "ready";
  contract_address = contract_address;
  chain_id = event.chain_id;
  values = with_collection event intent.values;
  updated_at = now;
}

-- txHash.(string) panics on another value.
abbrev pub with_tx_hash : Option Json → IntentStatus → Exec Store IntentError IntentStatus
with_tx_hash none intent = pure intent
with_tx_hash (some (json_text tx_hash)) intent = pure (record intent {
  tx_hash = tx_hash;
  values = put_value (codes "tx_hash") (json_text tx_hash) intent.values;
})
with_tx_hash (some (json_other v)) intent = fail panicked

abbrev pub status_update : ℕ → Text → IntentStatus → WebSocketMessage
status_update now intent_id intent = record {
  message_type = codes "status_update";
  intent_id = intent_id;
  content = status_content intent;
  timestamp = now;
  error = [];
}

abbrev pub error_message : ℕ → Text → Text → WebSocketMessage
error_message now intent_id error = record {
  message_type = codes "error";
  intent_id = intent_id;
  content = no_content;
  timestamp = now;
  error = error;
}

-- SendToIntent, whose error is only logged.
abbrev pub notify : Text → WebSocketMessage → Exec Store IntentError (Unit {0})
notify intent_id message s = (
  ok tt,
  record s {
    tables = record (s.tables) { manager = (send_to_intent intent_id message s.tables.manager).1 };
  },
)

abbrev pub resolve_intent : ℕ → Text → IntentStatus → Exec Store IntentError (Unit {0})
resolve_intent now intent_id intent = notify intent_id (status_update now intent_id intent)

-- A panic is not caught; another error is logged and the loop goes on.
abbrev pub after_resolving :
    IntentStatus → Result IntentError (Unit {0}) → Exec Store IntentError (List IntentStatus)
after_resolving intent (ok u) = pure (intent ∷ [])
after_resolving intent (err panicked) = fail panicked
after_resolving intent (err e) = pure []

-- The updates of ProcessIntentUpdate that have the types it looks for.
pub record Updates : Type 0 where
  pub status : Option Text
  pub tx_hash : Option Text
  pub contract_address : Option Text
  pub values : Option Values

abbrev pub or_keep : {A : Type 0} → Option A → A → A
or_keep none old = old
or_keep (some new) old = new

abbrev pub or_no_values : Option Values → Values
or_no_values none = []
or_no_values (some values) = values

abbrev pub given : {A : Type 0} → Option A → Bool
given none = false
given (some a) = true

abbrev pub has_updates : Updates → Bool
has_updates u = given u.status || (given u.tx_hash || (given u.contract_address || given u.values))

abbrev pub updated : Updates → IntentStatus → IntentStatus
updated u intent = record intent {
  status = or_keep u.status intent.status;
  tx_hash = or_keep u.tx_hash intent.tx_hash;
  contract_address = or_keep u.contract_address intent.contract_address;
  values = or_no_values u.values ++ intent.values;
}

module _ (json : Codec) (now : ℕ) where
  unfoldable pub resolve_intent_with_collection :
      Text → DomainEvent → IntentStatus → Exec Store IntentError (Unit {0})
  resolve_intent_with_collection contract_address event intent = do
    intent' ←
        with_tx_hash (lookup (codes "tx_hash") event.values)
          (resolved now contract_address event intent)
    update_intent_status json now intent'
    resolve_intent now intent.intent_id (record intent' { updated_at = now })

  -- The loops over the intents; those that are not wanted are passed over.
  unfoldable pub resolve_all :
      Text → DomainEvent → List IntentStatus → Exec Store IntentError (List IntentStatus)
  resolve_all contract_address event [] = pure []
  resolve_all contract_address event (intent ∷ intents) =
      let rest = resolve_all contract_address event intents in
      if is_pending intent
      then (do
        outcome ← attempt (resolve_intent_with_collection contract_address event intent)
        first ← after_resolving intent outcome
        others ← rest
        pure (first ++ others))
      else rest

  abbrev pub resolve_found :
      Text
      → DomainEvent
      → Result IntentError (List IntentStatus)
      → Exec Store IntentError (List IntentStatus)
  resolve_found contract_address event (err e) = pure []
  resolve_found contract_address event (ok intents) = resolve_all contract_address event intents

  -- An error of the lookup is logged.
  abbrev pub resolve_by_tx_hash :
      Text → DomainEvent → Text → Exec Store IntentError (List IntentStatus)
  resolve_by_tx_hash contract_address event tx_hash =
      if is_empty tx_hash
      then pure []
      else attempt (get_intents_by_tx_hash json now event.chain_id tx_hash)
        >>= resolve_found contract_address event

  unfoldable pub resolve_by_contract : Text → DomainEvent → Exec Store IntentError (Unit {0})
  resolve_by_contract contract_address event = do
    intents ← get_pending_intents_by_contract json now event.chain_id contract_address
    _ ← resolve_all contract_address event intents
    pure tt

  abbrev pub fall_back : Bool → Text → DomainEvent → Exec Store IntentError (Unit {0})
  fall_back true contract_address event = resolve_by_contract contract_address event
  fall_back false contract_address event = pure tt

  unfoldable pub process_contract : Text → DomainEvent → Exec Store IntentError (Unit {0})
  process_contract contract_address event = do
    resolved_intents ←
        resolve_by_tx_hash contract_address event
          (or_empty (string_of (lookup (codes "tx_hash") event.values)))
    fall_back (is_none json now resolved_intents) contract_address event

  unfoldable pub process_collection_upserted : DomainEvent → Exec Store IntentError (Unit {0})
  process_collection_upserted event =
      let contract_address =
        or_empty (string_of (lookup (codes "contract_address") event.values)) in
      if is_empty contract_address
      then fail missing_contract_address
      else process_contract contract_address event

  unfoldable pub handle_collection_domain_event : DomainEvent → Exec Store IntentError (Unit {0})
  handle_collection_domain_event event =
      if text_eq event.event_type (codes "collection_upserted")
        || text_eq event.event_type (codes "collection_created")
      then process_collection_upserted event
      else pure tt

  abbrev pub one_more : Result IntentError (Unit {0}) → ℕ → ℕ
  one_more (ok u) n = suc n
  one_more (err e) n = n

  unfoldable pub delete_expired : List IntentStatus → Exec Store IntentError ℕ
  delete_expired [] = pure 0
  delete_expired (intent ∷ intents) = do
    notify intent.intent_id (error_message now intent.intent_id (codes "Intent has expired"))
    outcome ← attempt (delete_intent json now intent.intent_id)
    cleaned ← delete_expired intents
    pure (one_more outcome cleaned)

  unfoldable pub cleanup_expired_intents : Exec Store IntentError ℕ
  cleanup_expired_intents = do intents ← get_expired_intents json now; delete_expired intents

  unfoldable pub process_intent_update : Text → Updates → Exec Store IntentError (Unit {0})
  process_intent_update intent_id updates = do
    intent ← get_intent_status json now intent_id
    require (has_updates updates) no_valid_updates
    update_intent_status json now (updated updates intent)
    resolve_intent now intent_id (record (updated updates intent) { updated_at = now })
