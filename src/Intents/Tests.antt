-- ===== src/Intents/Tests.antt =====
-- The theorems on intents at concrete tables.
use zuno_marketplace_api.Common.{
  Text, codes, ◌≡◌, refl, sym, ◌∙◌, ap, inl, inr, true, false, [], ◌∷◌, ◌++◌, none, some,
  Bool-cases, find?, text_eq, text_eq_iff, ok, to_lower, lower,
}
use zuno_marketplace_api.Subscriptions.Sets.{mem, subscribers_of}
use zuno_marketplace_api.Subscriptions.Model.{json_text, IntentStatus, DomainEvent, Manager}
use zuno_marketplace_api.Subscriptions.Manager.{new_connection}
use zuno_marketplace_api.Intents.Redis.{Entry, Worker, Store, has_name}
use zuno_marketplace_api.Intents.Repository.{status_key, is_pending, get_tx_hash_key}
use zuno_marketplace_api.Intents.Resolution.{
  handle_collection_domain_event, process_collection_upserted, lookup,
}
use zuno_marketplace_api.Intents.Reading.{entry_of, IsKeyed}
use zuno_marketplace_api.Intents.Settled.{handle_collection_domain_event-settled}
use zuno_marketplace_api.Intents.Ready.{IsReady}
use zuno_marketplace_api.Intents.Resolving.{process_collection_upserted-IsReady}
use zuno_marketplace_api.Intents.Entries.{status_key-injective}
use zuno_marketplace_api.Intents.Sample.{codec, codec-IsRoundTrip, codec-IsTotal, statuses}

abbrev chain : Text
chain = codes "eip155:1"

abbrev intent_in : Text → IntentStatus
intent_in status = record {
  intent_id = codes "i1";
  status = status;
  tx_hash = codes "0xa";
  contract_address = [];
  chain_id = chain;
  values = [];
  updated_at = 1;
  expires_at = none;
}

abbrev entry_in : Text → Entry
entry_in status = record {
  key = status_key (codes "i1");
  content = statuses.print (intent_in status) ++ [];
  until = 100;
}

abbrev manager : Manager
manager = record {
  max_connections = 2;
  connections = [];
  subscriptions = [];
  is_running = true;
  connection = λ id. new_connection;
  spawned = [];
}

abbrev tables_in : Text → Worker
tables_in status = record {
  entries = entry_in status ∷ [];
  sets = (codes "intent:txhash:eip155:1:0xa", codes "i1" ∷ []) ∷ [];
  manager = manager;
}

abbrev store_in : Text → Store
store_in status = record { tables = tables_in status; faults = [] }

abbrev created : DomainEvent
created = record {
  event_type = codes "collection_created";
  aggregate_id = codes "c1";
  chain_id = chain;
  values =
      (codes "contract_address", json_text (codes "0xc"))
      ∷ (codes "tx_hash", json_text (codes "0xa"))
      ∷ [];
}

-- The one entry is that of its id.
tables-IsKeyed : (status : Text) → IsKeyed codec (tables_in status)
unfolding find?
tables-IsKeyed status = record { keyed = keyed }
  where
    keyed :
        (id : Text) (e : Entry) (intent : IntentStatus)
        → find? (has_name (status_key id)) (entry_in status ∷ []) ≡ some e
        → codec.unmarshal e.content ≡ some intent
        → intent.intent_id ≡ id
    keyed id e intent found decoded =
        elim (Bool-cases (text_eq (status_key (codes "i1")) (status_key id))) [
          | inl hit ↦
              let e_is : some (entry_in status) ≡ some e = sym (rw hit refl) ∙ found in
              let e_eq : entry_in status ≡ e = cc in
              let i_is : some (intent_in status) ≡ some intent =
                sym (codec-IsRoundTrip.unmarshal-marshal (intent_in status) _ refl)
                ∙ ap (λ (x : Entry). codec.unmarshal x.content) e_eq
                ∙ decoded in
              let i_eq : intent_in status ≡ intent = cc in
              sym (ap (λ (x : IntentStatus). x.intent_id) i_eq)
              ∙ (text_eq_iff (codes "i1") id).0 (sym (status_key-injective (codes "i1") id) ∙ hit)
          | inr miss ↦ absurd (let h : none ≡ some e = sym (rw miss refl) ∙ found in cc)
        ]

settled_as :
    (status : Text) (intent : IntentStatus)
    → codec.unmarshal (entry_in status).content ≡ some intent
    → intent.status ≡ status
settled_as status intent h =
    let i_is : some (intent_in status) ≡ some intent =
      sym (codec-IsRoundTrip.unmarshal-marshal (intent_in status) _ refl) ∙ h in
    let i_eq : intent_in status ≡ intent = cc in sym (ap (λ (x : IntentStatus). x.status) i_eq)

found_as : (status : Text) → entry_of (codes "i1") (tables_in status) ≡ some (entry_in status)
unfolding find? text_eq
found_as status = refl

failed_is_settled :
    (intent : IntentStatus)
    → codec.unmarshal (entry_in (codes "failed")).content ≡ some intent
    → is_pending intent ≡ false
unfolding text_eq
failed_is_settled intent h = rw (settled_as (codes "failed") intent h) refl

handle_collection_domain_event-settled_example :
    (entry_of
        (codes "i1")
        (handle_collection_domain_event codec 7 created (store_in (codes "failed"))).1.tables
      ≡ some (entry_in (codes "failed")))
    × IsKeyed codec
        (handle_collection_domain_event codec 7 created (store_in (codes "failed"))).1.tables
handle_collection_domain_event-settled_example =
    handle_collection_domain_event-settled codec codec-IsRoundTrip 7 created
      (store_in (codes "failed")) (codes "i1") (entry_in (codes "failed"))
      (tables-IsKeyed (codes "failed")) (found_as (codes "failed")) failed_is_settled

contract_of_created :
    lookup (codes "contract_address") created.values ≡ some (json_text (codes "0xc"))
unfolding find? text_eq
contract_of_created = refl

tx_hash_of_created : lookup (codes "tx_hash") created.values ≡ some (json_text (codes "0xa"))
unfolding find? text_eq
tx_hash_of_created = refl

is_pending_intent : is_pending (intent_in (codes "pending")) ≡ true
unfolding text_eq
is_pending_intent = refl

in_tx_hash_set :
    mem
      (codes "i1")
      (subscribers_of (get_tx_hash_key chain (codes "0xa")) (tables_in (codes "pending")).sets)
    ≡ true
unfolding subscribers_of get_tx_hash_key text_eq to_lower lower
in_tx_hash_set = refl

process_collection_upserted-IsReady_example :
    ((process_collection_upserted codec 7 created (store_in (codes "pending"))).0 ≡ ok tt)
    × IsReady codec
        (codes "i1")
        (codes "0xc")
        chain
        (process_collection_upserted codec 7 created (store_in (codes "pending"))).1.tables
process_collection_upserted-IsReady_example =
    process_collection_upserted-IsReady codec codec-IsRoundTrip codec-IsTotal 7 created
      (codes "0xc") (codes "0xa") (codes "i1") (entry_in (codes "pending"))
      (intent_in (codes "pending")) (store_in (codes "pending")) refl contract_of_created refl
      tx_hash_of_created refl (found_as (codes "pending")) refl
      (codec-IsRoundTrip.unmarshal-marshal (intent_in (codes "pending")) _ refl) refl
      is_pending_intent in_tx_hash_set
