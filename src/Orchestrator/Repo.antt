-- ===== src/Orchestrator/Repo.antt =====
-- services/orchestrator-service/internal/infrastructure/repository with the tables of its db/up.sql
-- (whose domains are in services/chain-registry-service/db/up.sql), and the status cache of
-- internal/status/status.go.
use mathlib.Core.List.{tail}
use zuno_marketplace_api.Common.{
  ℕ, Text, Bool, true, false, not, ◌&&◌, ◌||◌, List, [], ◌∷◌, map, Option, none, some,
  if◌then◌else◌, head_or_false, any, all, leb, ◌==◌, length, is_empty, split, find?, text_eq,
  Result, ok, err, Exec, pure, fail, ◌>>=◌,
}
use zuno_marketplace_api.Orchestrator.Model.{
  Intent, IntentStatus, IntentStatusPayload, Audit, Store, OrchestratorError, not_found,
  database_error,
}

-- One call of the database: it fails, or it runs.
unfoldable pub call :
    {A : Type 0} → (Store → Result OrchestratorError A × Store) → Exec Store OrchestratorError A
call run store =
    let rest = record store { faults = tail store.faults } in
    if head_or_false store.faults then (err database_error, rest) else run rest

abbrev is_lower_alnum : ℕ → Bool
is_lower_alnum c = (leb b'a' c && leb c b'z') || (leb b'0' c && leb c b'9')

abbrev is_digit : ℕ → Bool
is_digit c = leb b'0' c && leb c b'9'

abbrev is_lower_hex : ℕ → Bool
is_lower_hex c = is_digit c || (leb b'a' c && leb c b'f')

-- ^0x[0-9a-f]{n}$
abbrev is_0x_lower_hex : ℕ → Text → Bool
is_0x_lower_hex n (a ∷ b ∷ digits) =
    (a == b'0' && b == b'x') && (length digits == n && all is_lower_hex digits)
is_0x_lower_hex n _ = false

abbrev caip2_chain : List Text → Bool
caip2_chain (namespace ∷ reference ∷ []) =
    (not (is_empty namespace) && all is_lower_alnum namespace)
    && (not (is_empty reference) && all is_digit reference)
caip2_chain _ = false

abbrev nullable : (Text → Bool) → Option Text → Bool
nullable p none = true
nullable p (some text) = p text

-- The domains caip2_chain, evm_address and evm_tx_hash of the columns.
unfoldable pub fits_columns : Intent → Bool
fits_columns row =
    caip2_chain (split b':' row.chain_id)
    && (nullable (is_0x_lower_hex 40) row.preview_address
        && nullable (is_0x_lower_hex 64) row.tx_hash)

abbrev pub has_id : Text → Intent → Bool
has_id id row = text_eq row.id id

-- The primary key and the column types.
unfoldable pub insert_intent : Intent → Store → Result OrchestratorError (Unit {0}) × Store
insert_intent intent store =
    if any (has_id intent.id) store.intents || not (fits_columns intent)
    then (err database_error, store)
    else (ok tt, record store { intents = intent ∷ store.intents })

unfoldable pub create : Intent → Exec Store OrchestratorError (Unit {0})
create intent = call (insert_intent intent)

abbrev pub change_intent : Text → (Intent → Intent) → Intent → Intent
change_intent id change row = if has_id id row then change row else row

-- An UPDATE by the id: no row is no error, a value that does not fit its column is one.
unfoldable pub update_intents :
    Text → (Intent → Intent) → Store → Result OrchestratorError (Unit {0}) × Store
update_intents id change store =
    if all (λ row. not (has_id id row) || fits_columns (change row)) store.intents
    then (ok tt, record store { intents = map (change_intent id change) store.intents })
    else (err database_error, store)

abbrev pub put_tx_hash : ℕ → Text → Option Text → Intent → Intent
put_tx_hash now hash contract row = record row {
  tx_hash = some hash;
  preview_address = contract;
  updated_at = now;
}

unfoldable pub update_tx_hash :
    ℕ → Text → Text → Option Text → Exec Store OrchestratorError (Unit {0})
update_tx_hash now id hash contract = call (update_intents id (put_tx_hash now hash contract))

abbrev pub put_status : ℕ → IntentStatus → Option Text → Intent → Intent
put_status now status message row = record row {
  status = status;
  error = message;
  updated_at = now;
}

unfoldable pub update_status :
    ℕ → Text → IntentStatus → Option Text → Exec Store OrchestratorError (Unit {0})
update_status now id status message = call (update_intents id (put_status now status message))

abbrev pub scan : Option Intent → Exec Store OrchestratorError Intent
scan none = fail not_found
scan (some row) = pure row

unfoldable pub select : (Intent → Bool) → Store → Result OrchestratorError (Option Intent) × Store
select p store = (ok (find? p store.intents), store)

unfoldable pub get_by_id : Text → Exec Store OrchestratorError Intent
get_by_id id = do row ← call (select (has_id id)); scan row

-- A null tx_hash equals no string.
abbrev pub has_tx : Text → Option Text → Bool
has_tx hash none = false
has_tx hash (some own) = text_eq own hash

abbrev pub of_chain_tx : Text → Text → Intent → Bool
of_chain_tx chain_id hash row = text_eq row.chain_id chain_id && has_tx hash row.tx_hash

unfoldable pub find_by_chain_tx : Text → Text → Exec Store OrchestratorError Intent
find_by_chain_tx chain_id hash = do row ← call (select (of_chain_tx chain_id hash)); scan row

-- The foreign key on the intent.
unfoldable pub insert_audit : Audit → Store → Result OrchestratorError (Unit {0}) × Store
insert_audit audit store =
    if any (has_id audit.intent_id) store.intents
    then (ok tt, record store { audits = audit ∷ store.audits })
    else (err database_error, store)

unfoldable pub insert_session_intent_audit : Audit → Exec Store OrchestratorError (Unit {0})
insert_session_intent_audit audit = call (insert_audit audit)

-- The callers ignore the cache's error: the status is stored, or Redis has failed.
unfoldable pub set_intent_status :
    Bool → IntentStatusPayload → Exec Store OrchestratorError (Unit {0})
set_intent_status works payload store =
    (ok tt, if works then record store { cache = payload ∷ store.cache } else store)
