-- ===== src/Intents/Redis.antt =====
-- The commands of Redis that services/subscription-worker uses, by shared/redis/redis.go, on the keys of
-- its intents; with the manager of the connections, the state of the worker.
use zuno_marketplace_api.Common.{
  ℕ, ◌+◌, Text, Bool, true, false, not, ◌&&◌, List, [], ◌∷◌, Option, none, some, if◌then◌else◌, ltb,
  ◌==◌, length, find?, keep, text_eq, Result, ok, Exec,
}
use zuno_marketplace_api.Common.Faults.{Faulty, server_call}
use zuno_marketplace_api.Subscriptions.Sets.{
  insert, Subscriptions, subscribers_of, has_key, put_key, delete_key,
}
use zuno_marketplace_api.Subscriptions.Model.{Manager}
use zuno_marketplace_api.Subscriptions.Manager.{without_subscriber}

-- A string under a key, until a time.
pub record Entry : Type 0 where
  pub key : Text
  pub content : Text
  pub until : ℕ

pub record Worker : Type 0 where
  pub entries : List Entry
  pub sets : Subscriptions
  pub manager : Manager

abbrev pub Store : Type 0
Store = Faulty Worker

pub data IntentError : Type 0 where
  redis_error intent_not_found marshal_error unmarshal_error : IntentError
  missing_contract_address no_valid_updates : IntentError
  panicked : IntentError

abbrev pub call : {A : Type 0} → (Worker → Result IntentError A × Worker) → Exec Store IntentError A
call run = server_call redis_error run

abbrev pub has_name : Text → Entry → Bool
has_name key entry = text_eq entry.key key

abbrev pub alive : ℕ → Option Entry → Option Text
alive now none = none
alive now (some entry) = if ltb now entry.until then some (entry.content) else none

abbrev pub value_at : ℕ → Text → List Entry → Option Text
value_at now key entries = alive now (find? (has_name key) entries)

unfoldable pub get : ℕ → Text → Worker → Result IntentError (Option Text) × Worker
get now key w = (ok (value_at now key w.entries), w)

abbrev pub without_key : Text → List Entry → List Entry
without_key key entries = keep (λ entry. not (has_name key entry)) entries

unfoldable pub set : ℕ → Text → Text → ℕ → Worker → Result IntentError (Unit {0}) × Worker
set now key content ttl w = (
  ok tt,
  record w {
    entries =
        record { key = key; content = content; until = now + ttl } ∷ without_key key w.entries;
  },
)

unfoldable pub delete_value : Text → Worker → Result IntentError (Unit {0}) × Worker
delete_value key w = (ok tt, record w { entries = without_key key w.entries })

unfoldable pub s_members : Text → Worker → Result IntentError (List Text) × Worker
s_members key w = (ok (subscribers_of key w.sets), w)

unfoldable pub s_add : Text → Text → Worker → Result IntentError (Unit {0}) × Worker
s_add key member w =
    (ok tt, record w { sets = put_key key (insert member (subscribers_of key w.sets)) w.sets })

-- A set whose last member goes is gone.
unfoldable pub s_rem : Text → Text → Worker → Result IntentError (Unit {0}) × Worker
s_rem key member w = (
  ok tt,
  if has_key key w.sets then record w { sets = without_subscriber key member w.sets } else w,
)

abbrev pub is_some : Option Text → Bool
is_some none = false
is_some (some t) = true

unfoldable pub exists : ℕ → Text → Worker → Result IntentError Bool × Worker
exists now key w = (ok (is_some (value_at now key w.entries)), w)

unfoldable pub s_card : Text → Worker → Result IntentError ℕ × Worker
s_card key w = (ok (length (subscribers_of key w.sets)), w)

unfoldable pub is_prefix : Text → Text → Bool
is_prefix [] text = true
is_prefix (c ∷ prefix) [] = false
is_prefix (c ∷ prefix) (d ∷ text) = c == d && is_prefix prefix text

unfoldable pub keys_of : Text → Subscriptions → List Text
keys_of prefix [] = []
keys_of prefix ((key, l) ∷ rest) =
    let others = keys_of prefix rest in if is_prefix prefix key then key ∷ others else others

-- KEYS prefix*, for the keys of sets.
unfoldable pub set_keys : Text → Worker → Result IntentError (List Text) × Worker
set_keys prefix w = (ok (keys_of prefix w.sets), w)

unfoldable pub delete_set : Text → Worker → Result IntentError (Unit {0}) × Worker
delete_set key w = (ok tt, record w { sets = delete_key key w.sets })
