-- ===== src/Intents/Repository.antt =====
-- services/subscription-worker/internal/infrastructure/repository/intent_repository.go. Times are
-- nanoseconds.
use zuno_marketplace_api.Common.{
  ℕ, ◌*◌, ◌-◌, Text, codes, Bool, true, false, not, ◌&&◌, ◌||◌, List, [], ◌∷◌, ◌++◌, Option, none,
  some, if◌then◌else◌, ltb, ◌==◌, text_eq, is_empty, to_lower, Result, ok, err, Exec, pure, fail,
  attempt, ◌>>=◌, ◌>>◌,
}
use zuno_marketplace_api.Subscriptions.Model.{IntentStatus}
use zuno_marketplace_api.Intents.Redis.{
  Store, IntentError, intent_not_found, marshal_error, unmarshal_error, call, get, set,
  delete_value, s_members, s_add, s_rem, exists, s_card, set_keys, delete_set,
}

-- encoding/json on the statuses.
pub record Codec : Type 0 where
  pub marshal : IntentStatus → Option Text
  pub unmarshal : Text → Option IntentStatus

abbrev pub default_intent_ttl : ℕ
default_intent_ttl = 86400 * 1000000000

abbrev pub minimum_ttl : ℕ
minimum_ttl = 60 * 1000000000

abbrev pub status_key : Text → Text
status_key intent_id = codes "intent:status:" ++ intent_id

unfoldable pub get_contract_key : Text → Text → Text
get_contract_key chain_id contract_address =
    codes "intent:contract:" ++ chain_id ++ codes ":" ++ to_lower contract_address

unfoldable pub get_tx_hash_key : Text → Text → Text
get_tx_hash_key chain_id tx_hash =
    codes "intent:txhash:" ++ chain_id ++ codes ":" ++ to_lower tx_hash

abbrev pub expired_intents_key : Text
expired_intents_key = codes "intent:expired"

abbrev pub or_else : {A : Type 0} → Option A → IntentError → Exec Store IntentError A
or_else none e = fail e
or_else (some a) e = pure a

abbrev pub ttl_of : ℕ → Option ℕ → ℕ
ttl_of now none = default_intent_ttl
ttl_of now (some expires_at) = if ltb now expires_at then expires_at - now else minimum_ttl

abbrev pub is_expired : ℕ → Option ℕ → Bool
is_expired now none = false
is_expired now (some expires_at) = ltb expires_at now

-- A command whose error is only logged.
abbrev pub quietly : Bool → Exec Store IntentError (Unit {0}) → Exec Store IntentError (Unit {0})
quietly true m = attempt m >>= λ _. pure tt
quietly false m = pure tt

abbrev pub is_pending : IntentStatus → Bool
is_pending intent =
    text_eq intent.status (codes "pending") || text_eq intent.status (codes "processing")

abbrev pub in_contract_index : IntentStatus → Bool
in_contract_index intent = not (is_empty intent.contract_address) && not (is_empty intent.chain_id)

abbrev pub in_tx_hash_index : IntentStatus → Bool
in_tx_hash_index intent = not (is_empty intent.tx_hash) && not (is_empty intent.chain_id)

module _ (json : Codec) (now : ℕ) where
  unfoldable pub get_intent_status : Text → Exec Store IntentError IntentStatus
  get_intent_status intent_id = do
    value ← call (get now (status_key intent_id))
    data_text ← or_else value intent_not_found
    or_else (json.unmarshal data_text) unmarshal_error

  unfoldable pub update_intent_status : IntentStatus → Exec Store IntentError (Unit {0})
  update_intent_status intent = do
    data_text ← or_else (json.marshal (record intent { updated_at = now })) marshal_error
    call (set now (status_key intent.intent_id) data_text (ttl_of now intent.expires_at))
    quietly (in_contract_index intent)
        (call (s_add (get_contract_key intent.chain_id intent.contract_address) intent.intent_id))
    quietly (in_tx_hash_index intent)
        (call (s_add (get_tx_hash_key intent.chain_id intent.tx_hash) intent.intent_id))
    quietly (is_expired now intent.expires_at) (call (s_add expired_intents_key intent.intent_id))

  abbrev pub add_found :
      (IntentStatus → Bool)
      → Result IntentError IntentStatus
      → List IntentStatus
      → List IntentStatus
  add_found wanted (err e) rest = rest
  add_found wanted (ok intent) rest = if wanted intent then intent ∷ rest else rest

  -- The intents of the ids that are found and wanted.
  unfoldable pub collect :
      (IntentStatus → Bool) → List Text → Exec Store IntentError (List IntentStatus)
  collect wanted [] = pure []
  collect wanted (id ∷ ids) = do
    found ← attempt (get_intent_status id)
    rest ← collect wanted ids
    pure (add_found wanted found rest)

  unfoldable pub get_pending_intents_by_contract :
      Text → Text → Exec Store IntentError (List IntentStatus)
  get_pending_intents_by_contract chain_id contract_address = do
    ids ← call (s_members (get_contract_key chain_id contract_address))
    collect is_pending ids

  unfoldable pub get_intents_by_tx_hash : Text → Text → Exec Store IntentError (List IntentStatus)
  get_intents_by_tx_hash chain_id tx_hash = do
    ids ← call (s_members (get_tx_hash_key chain_id tx_hash))
    collect (λ intent. true) ids

  abbrev pub delete_found :
      Text → Result IntentError IntentStatus → Exec Store IntentError (Unit {0})
  delete_found intent_id (err e) = pure tt
  delete_found intent_id (ok intent) = do
    call (delete_value (status_key intent_id))
    quietly (in_contract_index intent)
        (call (s_rem (get_contract_key intent.chain_id intent.contract_address) intent_id))
    quietly (in_tx_hash_index intent)
        (call (s_rem (get_tx_hash_key intent.chain_id intent.tx_hash) intent_id))
    quietly true (call (s_rem expired_intents_key intent_id))

  unfoldable pub delete_intent : Text → Exec Store IntentError (Unit {0})
  delete_intent intent_id = do
    found ← attempt (get_intent_status intent_id)
    delete_found intent_id found

  abbrev pub expired_of : Result IntentError IntentStatus → List IntentStatus
  expired_of (err e) = []
  expired_of (ok intent) = if is_expired now intent.expires_at then intent ∷ [] else []

  abbrev pub is_none : List IntentStatus → Bool
  is_none [] = true
  is_none (intent ∷ intents) = false

  -- What is gone or has not expired leaves the set.
  unfoldable pub collect_expired : List Text → Exec Store IntentError (List IntentStatus)
  collect_expired [] = pure []
  collect_expired (id ∷ ids) = do
    found ← attempt (get_intent_status id)
    quietly (is_none (expired_of found)) (call (s_rem expired_intents_key id))
    rest ← collect_expired ids
    pure (expired_of found ++ rest)

  unfoldable pub get_expired_intents : Exec Store IntentError (List IntentStatus)
  get_expired_intents = do ids ← call (s_members expired_intents_key); collect_expired ids

  abbrev pub is_there : Result IntentError Bool → Bool
  is_there (ok b) = b
  is_there (err e) = false

  -- The members whose status is gone leave the set.
  unfoldable pub drop_gone : Text → List Text → Exec Store IntentError (Unit {0})
  drop_gone key [] = pure tt
  drop_gone key (id ∷ ids) = do
    found ← attempt (call (exists now (status_key id)))
    quietly (not (is_there found)) (call (s_rem key id))
    drop_gone key ids

  abbrev pub is_zero : Result IntentError ℕ → Bool
  is_zero (ok n) = n == 0
  is_zero (err e) = false

  abbrev pub clean_members :
      Text → Result IntentError (List Text) → Exec Store IntentError (Unit {0})
  clean_members key (err e) = pure tt
  clean_members key (ok ids) = do
    drop_gone key ids
    count ← attempt (call (s_card key))
    quietly (is_zero count) (call (delete_set key))

  unfoldable pub clean_keys : List Text → Exec Store IntentError (Unit {0})
  clean_keys [] = pure tt
  clean_keys (key ∷ keys) = do
    members ← attempt (call (s_members key))
    clean_members key members
    clean_keys keys

  unfoldable pub cleanup_expired_indexes : Exec Store IntentError (Unit {0})
  cleanup_expired_indexes = do
    contract_keys ← call (set_keys (codes "intent:contract:"))
    clean_keys contract_keys
    tx_hash_keys ← call (set_keys (codes "intent:txhash:"))
    clean_keys tx_hash_keys
