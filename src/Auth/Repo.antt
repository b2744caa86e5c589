-- ===== src/Auth/Repo.antt =====
-- services/auth-service/internal/infrastructure/repository/repository.go, over the tables, the
-- constraints and the function try_use_nonce of services/auth-service/db/up.sql.
use mathlib.Core.List.{tail}
use zuno_marketplace_api.Common.{
  ℕ, ◌+◌, ◌*◌, ◌-◌, Text, codes, Bool, true, false, ◌&&◌, ◌||◌, not, List, ◌∷◌, ◌++◌, map, Option,
  none, some, if◌then◌else◌, head_or_false, leb, ltb, ◌==◌, all, any, find?, keep, length, text_eq,
  to_lower, Result, ok, err, Exec, pure, fail, attempt, ◌>>=◌, ◌>>◌,
}
use zuno_marketplace_api.Auth.Model.{
  Nonce, AuthError, NonceRow, Store, nonce_not_found, nonce_exists, database_error, minute,
}

-- One call of a server: it fails, or it runs.
unfoldable pub call : {A : Type 0} → (Store → Result AuthError A × Store) → Exec Store AuthError A
call run store =
    let rest = record store { faults = tail store.faults } in
    if head_or_false store.faults then (err database_error, rest) else run rest

abbrev pub lower_hex : ℕ → Bool
lower_hex c = (leb b'0' c && leb c b'9') || (leb b'a' c && leb c b'f')

-- The regular expression ^0x[0-9a-f]{40}$
abbrev pub is_0x_lower_hex : Text → Bool
is_0x_lower_hex (a ∷ b ∷ digits) =
    (a == b'0' && b == b'x') && (length digits == 40 && all lower_hex digits)
is_0x_lower_hex _ = false

-- The column widths and the CHECK constraints of auth_nonces.
unfoldable pub admissible : NonceRow → Bool
admissible row =
    (leb (length row.value) 64 && (leb (length row.domain) 255 && leb (length row.chain_id) 32))
    && ((ltb row.created_at row.expires_at && leb row.expires_at (row.created_at + 10 * minute))
        && (text_eq row.account_id (to_lower row.account_id) && is_0x_lower_hex row.account_id))

abbrev pub has_value : Text → NonceRow → Bool
has_value value row = text_eq row.value value

unfoldable pub insert_nonce : NonceRow → Store → Result AuthError (Unit {0}) × Store
insert_nonce row store =
    if any (has_value row.value) store.nonces
    then (err nonce_exists, store)
    else if admissible row
    then (ok tt, record store { nonces = row ∷ store.nonces })
    else (err database_error, store)

abbrev pub nonce_key : Text → Text
nonce_key value = codes "siwe:nonce:" ++ value

-- SET with a TTL
unfoldable pub set_key : ℕ → Text → ℕ → Store → Result AuthError (Unit {0}) × Store
set_key now key ttl store = (ok tt, record store { cache = (key, now + ttl) ∷ store.cache })

-- `if ttl > 0`; a failure to cache is ignored
unfoldable pub cache_nonce : ℕ → Nonce → Exec Store AuthError (Unit {0})
cache_nonce now nonce store =
    if ltb now nonce.expires_at
    then (ok tt, (call (set_key now (nonce_key nonce.value) (nonce.expires_at - now)) store).1)
    else (ok tt, store)

unfoldable pub create_nonce : ℕ → Nonce → Exec Store AuthError (Unit {0})
create_nonce now nonce = do
  call (insert_nonce (record { nonce = nonce; used_at = none }))
  cache_nonce now nonce

abbrev pub is_cached : ℕ → Text → List (Text × ℕ) → Bool
is_cached now key cache = any (λ entry. text_eq entry.0 key && ltb now entry.1) cache

-- EXISTS
unfoldable pub exists_key : ℕ → Text → Store → Result AuthError Bool × Store
exists_key now key store = (ok (is_cached now key store.cache), store)

abbrev pub scan_nonce : Option NonceRow → Exec Store AuthError Nonce
scan_nonce none = fail nonce_not_found
scan_nonce (some row) = pure row.nonce

unfoldable pub select_nonce : Text → Store → Result AuthError (Option NonceRow) × Store
select_nonce value store = (ok (find? (has_value value) store.nonces), store)

-- `err == nil && exists == 0` answers without the database.
abbrev pub surely_absent : Result AuthError Bool → Bool
surely_absent (ok false) = true
surely_absent _ = false

unfoldable pub read_nonce : Bool → Text → Exec Store AuthError Nonce
read_nonce true value = fail nonce_not_found
read_nonce false value = do row ← call (select_nonce value); scan_nonce row

unfoldable pub get_nonce : ℕ → Text → Exec Store AuthError Nonce
get_nonce now value = do
  exists ← attempt (call (exists_key now (nonce_key value)))
  read_nonce (surely_absent exists) value

-- The WHERE clause of try_use_nonce.
abbrev pub is_usable : ℕ → Text → Text → Text → Text → NonceRow → Bool
is_usable now value account_id chain_id domain row =
    (text_eq row.value value
      && (text_eq row.account_id account_id && text_eq row.chain_id chain_id))
    && (text_eq row.domain domain && (not row.used && ltb now row.expires_at))

abbrev pub consume : ℕ → (NonceRow → Bool) → NonceRow → NonceRow
consume now p row =
    if p row
    then record row { nonce = record (row.nonce) { used = true }; used_at = some now }
    else row

-- SELECT try_use_nonce($1, $2, $3, $4): was exactly one row updated?
unfoldable pub use_rows : ℕ → (NonceRow → Bool) → Store → Result AuthError Bool × Store
use_rows now p store = (
  ok (length (keep p store.nonces) == 1),
  record store { nonces = map (consume now p) store.nonces },
)

-- DEL
unfoldable pub delete_key : Text → Store → Result AuthError (Unit {0}) × Store
delete_key key store =
    (ok tt, record store { cache = keep (λ entry. not (text_eq entry.0 key)) store.cache })

unfoldable pub forget_nonce : Bool → Text → Exec Store AuthError (Unit {0})
forget_nonce false value store = (ok tt, store)
forget_nonce true value store = (ok tt, (call (delete_key (nonce_key value)) store).1)

-- `usedAt` is not passed to the database.
unfoldable pub try_use_nonce : ℕ → Text → Text → Text → Text → Exec Store AuthError Bool
try_use_nonce now value account_id chain_id domain = do
  success ← call (use_rows now (is_usable now value account_id chain_id domain))
  forget_nonce success value
  pure success
