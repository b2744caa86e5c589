-- ===== src/Wallet/Repo.antt =====
-- services/wallet-service/internal/infrastructure/repository/repository.go, with the constraints
-- and the trigger of services/wallet-service/db/up.sql. `now` is the transaction's time and
-- `new_id` the next value of `uuid.New()`.
use Prim.Native.Nat.{◌^◌, ◌%◌, bit_xor}
use mathlib.Core.List.{tail}
use mathlib.Core.Option.{get_or}
use zuno_marketplace_api.Common.{
  ℕ, ◌*◌, Text, codes, Bool, true, false, ◌&&◌, ◌||◌, not, List, [], ◌∷◌, ◌++◌, map, Option, none,
  some, if◌then◌else◌, head_or_false, leb, all, any, find?, is_empty, text_eq, split, Result, ok,
  err, Exec, pure, fail, ◌>>=◌, ◌>>◌,
}
use zuno_marketplace_api.Wallet.Model.{
  WalletLink, Row, WalletError, Tx, wallet_not_found, database_unavailable, statement_failed,
  commit_failed,
}
use zuno_marketplace_api.Wallet.Validate.{is_valid_ethereum_address}

-- Does the server refuse the next statement?
abbrev pub refused : Tx → Bool
refused tx = tx.aborted || head_or_false tx.faults

-- How a statement ends: `none` is a violated constraint or a refusal.
unfoldable pub settle : {A : Type 0} → Tx → Option (A × List Row) → Result WalletError A × Tx
settle tx none = (err statement_failed, record tx { aborted = true; faults = tail tx.faults })
settle tx (some (a, rows)) = (ok a, record tx { rows = rows; faults = tail tx.faults })

-- One SQL statement.
unfoldable pub statement : {A : Type 0} → (List Row → Option (A × List Row)) → Exec Tx WalletError A
unfolding settle
statement run tx = settle tx (if refused tx then none else run tx.rows)

-- hashString: FNV-1a over 64 bits, as a bit pattern.
abbrev fnv_from : ℕ → Text → ℕ
fnv_from h [] = h
fnv_from h (b ∷ s) = fnv_from ((bit_xor h b * 1099511628211) % 2 ^ 64) s

unfoldable pub hash_string : Text → ℕ
hash_string s = fnv_from 14695981039346656037 s

-- The lock is held to the end of the transaction.
abbrev pub hold : ℕ → Exec Tx WalletError (Unit {0})
hold key tx = (ok tt, record tx { locks = key ∷ tx.locks })

-- SELECT pg_advisory_xact_lock($1)
unfoldable pub lock : Text → Exec Tx WalletError (Unit {0})
unfolding statement hash_string
lock key = do statement (λ rows. some (tt, rows)); hold (hash_string key)

abbrev pub account_key : Text → Text
account_key account_id = codes "account_" ++ account_id

abbrev pub address_key : Text → Text → Text
address_key chain_id address = codes "address_" ++ (chain_id ++ codes "_" ++ address)

unfoldable pub acquire_account_lock : Text → Exec Tx WalletError (Unit {0})
unfolding lock
acquire_account_lock account_id = lock (account_key account_id)

unfoldable pub acquire_address_lock : Text → Text → Exec Tx WalletError (Unit {0})
unfolding lock
acquire_address_lock chain_id address = lock (address_key chain_id address)

-- `sql.ErrNoRows` becomes ErrWalletNotFound; a row is scanned into a link.
abbrev pub scan : Option Row → Exec Tx WalletError WalletLink
scan none = fail wallet_not_found
scan (some row) = pure row.link

-- SELECT … WHERE p LIMIT 1
unfoldable pub select : (Row → Bool) → Exec Tx WalletError WalletLink
unfolding statement
select p = do row ← statement (λ rows. some (find? p rows, rows)); scan row

abbrev pub has_account : Text → Row → Bool
has_account account_id row = text_eq row.account_id account_id

abbrev pub has_address : Text → Text → Row → Bool
has_address chain_id address row = text_eq row.chain_id chain_id && text_eq row.address address

abbrev pub is_primary_on : Text → Text → Row → Bool
is_primary_on user_id chain_id row =
    (text_eq row.user_id user_id && text_eq row.chain_id chain_id) && row.is_primary

unfoldable pub get_by_account_id_tx : Text → Exec Tx WalletError WalletLink
unfolding select
get_by_account_id_tx account_id = select (has_account account_id)

unfoldable pub get_by_address_tx : Text → Text → Exec Tx WalletError WalletLink
unfolding select
get_by_address_tx chain_id address = select (has_address chain_id address)

unfoldable pub get_primary_by_user_tx : Text → Exec Tx WalletError WalletLink
unfolding select
get_primary_by_user_tx user_id = select (λ row. text_eq row.user_id user_id && row.is_primary)

unfoldable pub get_primary_by_user_chain_tx : Text → Text → Exec Tx WalletError WalletLink
unfolding select
get_primary_by_user_chain_tx user_id chain_id = select (is_primary_on user_id chain_id)

-- The CHECK constraint `chain_id ~ '^[a-zA-Z0-9]+:[0-9]+$'`.
abbrev pub is_alnum : ℕ → Bool
is_alnum c =
    (leb b'0' c && leb c b'9') || ((leb b'a' c && leb c b'z') || (leb b'A' c && leb c b'Z'))

abbrev pub is_digit : ℕ → Bool
is_digit c = leb b'0' c && leb c b'9'

abbrev caip2_parts : List Text → Bool
caip2_parts (namespace ∷ reference ∷ []) =
    (not (is_empty namespace) && all is_alnum namespace)
    && (not (is_empty reference) && all is_digit reference)
caip2_parts _ = false

unfoldable pub chain_id_check : Text → Bool
chain_id_check chain_id = caip2_parts (split b':' chain_id)

-- Does the unique index on (user_id, address, chain_id) forbid `row` beside `other`?
abbrev pub collides : Row → Row → Bool
collides row other =
    not (text_eq other.id row.id)
    && (text_eq other.user_id row.user_id
        && (text_eq other.address row.address && text_eq other.chain_id row.chain_id))

-- The CHECK constraints of a new version of a row, and the unique index.
unfoldable pub admissible : Row → List Row → Bool
unfolding chain_id_check
admissible row rows =
    (is_valid_ethereum_address row.address && chain_id_check row.chain_id)
    && not (any (collides row) rows)

-- A column that is set only if a value is given.
abbrev pub if_given : {A : Type 0} → Option A → Option A → Option A
if_given none old = old
if_given (some a) old = some a

module _ (now : ℕ) where
  abbrev pub demote_row : Text → Text → (Row → Bool) → Row → Row
  demote_row user_id chain_id spared row =
      if is_primary_on user_id chain_id row && not (spared row)
      then record row { link = record (row.link) { is_primary = false; updated_at = now } }
      else row

  -- The trigger ensure_single_primary_wallet, before a row is written.
  unfoldable pub ensure_single_primary_wallet : Row → List Row → List Row
  ensure_single_primary_wallet row rows =
      if row.is_primary
      then map (demote_row row.user_id row.chain_id (λ other. text_eq other.id row.id)) rows
      else rows

  -- INSERT INTO wallets, under the constraints of the table.
  unfoldable pub insert_row : Row → List Row → Option (Row × List Row)
  unfolding ensure_single_primary_wallet admissible
  insert_row row rows =
      if any (λ other. text_eq other.id row.id) rows || not (admissible row rows)
      then none
      else some (row, row ∷ ensure_single_primary_wallet row rows)

  -- UPDATE wallets … WHERE id = $1 RETURNING …; the update sets updated_at.
  unfoldable pub write_row : Text → Row → List Row → Option (Option Row × List Row)
  unfolding ensure_single_primary_wallet admissible
  write_row id row rows =
      if admissible row rows
      then some (
        some row,
        map (λ other. if text_eq other.id id then row else other)
            (ensure_single_primary_wallet row rows),
      )
      else none

  unfoldable pub update_row : Text → (Row → Row) → List Row → Option (Option Row × List Row)
  unfolding write_row
  update_row id change rows = elim (find? (λ row. text_eq row.id id) rows) [
    | none ↦ some (none, rows)
    | some row ↦ write_row id (change row) rows
  ]

  abbrev pub change_meta : Option Bool → Option ℕ → Option ℕ → Option Text → Row → Row
  change_meta is_primary verified_at last_seen label row = record row {
    link = record (row.link) {
      is_primary = get_or is_primary row.is_primary;
      verified_at = if_given verified_at row.verified_at;
      updated_at = now;
    };
    last_seen_at = if_given last_seen row.last_seen_at;
    label = if_given label row.label;
  }

  unfoldable pub update_wallet_meta_tx :
      Text → Option Bool → Option ℕ → Option ℕ → Option Text → Exec Tx WalletError WalletLink
  unfolding statement update_row
  update_wallet_meta_tx id is_primary verified_at last_seen label = do
    row ← statement (update_row id (change_meta is_primary verified_at last_seen label))
    scan row

  abbrev pub change_address : Text → Text → Row → Row
  change_address chain_id address row = record row {
    link = record (row.link) {
      chain_id = chain_id;
      address = address;
      updated_at = now;
      verified_at = some (get_or row.verified_at now);
    };
  }

  unfoldable pub update_wallet_address_tx : Text → Text → Text → Exec Tx WalletError WalletLink
  unfolding statement update_row
  update_wallet_address_tx id chain_id address = do
    row ← statement (update_row id (change_address chain_id address))
    scan row

  -- `keep_id` is "" to spare no row.
  unfoldable pub demote_other_primaries_tx : Text → Text → Text → Exec Tx WalletError (Unit {0})
  unfolding statement
  demote_other_primaries_tx user_id chain_id keep_id = statement λ rows. some (
    tt,
    map (demote_row user_id chain_id (λ row. not (is_empty keep_id) && text_eq row.id keep_id))
        rows,
  )

  abbrev pub new_row : Text → WalletLink → Row
  new_row new_id link = record {
    link = record link {
      id = if is_empty link.id then new_id else link.id;
      verified_at = some (get_or link.verified_at now);
      created_at = now;
      updated_at = now;
    };
    last_seen_at = none;
    label = none;
  }

  unfoldable pub insert_wallet_tx : Text → WalletLink → Exec Tx WalletError WalletLink
  unfolding statement insert_row
  insert_wallet_tx new_id link = do
    row ← statement (insert_row (new_row new_id link))
    pure row.link

-- Rollback after an error, COMMIT after success; a commit that the server refuses rolls back too.
unfoldable pub end_tx :
    {A : Type 0} → List Row → Result WalletError A × Tx → Result WalletError A × List Row
end_tx rows (err e, tx) = (err e, rows)
end_tx rows (ok a, tx) = if refused tx then (err commit_failed, rows) else (ok a, tx.rows)

abbrev pub begin_tx : List Bool → List Row → Tx
begin_tx faults rows = record { rows = rows; locks = []; aborted = false; faults = faults }

-- WithTx: `begins` tells whether a client is configured and BEGIN succeeds.
unfoldable pub with_tx :
    {A : Type 0} → Bool → List Bool → Exec Tx WalletError A → Exec (List Row) WalletError A
unfolding end_tx
with_tx false faults body rows = (err database_unavailable, rows)
with_tx true faults body rows = end_tx rows (body (begin_tx faults rows))
