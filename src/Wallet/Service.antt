-- ===== src/Wallet/Service.antt =====
-- UpsertLink of services/wallet-service/internal/service/service.go. Its `switch` is `decide`, with
-- one function for each case.
use zuno_marketplace_api.Common.{
  ℕ, Text, Bool, true, false, ◌&&◌, not, List, [], Option, none, some, text_eq, Result, ok, err,
  Exec, pure, fail, attempt, ◌>>=◌, ◌>>◌,
}
use zuno_marketplace_api.Wallet.Model.{
  WalletLink, Row, WalletUpsertResult, WalletError, Tx, wallet_not_found, unauthorized_access,
  linked_to_another_account, linked_to_another_user,
}
use zuno_marketplace_api.Wallet.Validate.{
  normalize_address, normalize_chain_id, validate_wallet_link,
}
use zuno_marketplace_api.Wallet.Repo.{
  acquire_account_lock, acquire_address_lock, get_by_account_id_tx, get_by_address_tx,
  get_primary_by_user_chain_tx, update_wallet_meta_tx, update_wallet_address_tx,
  demote_other_primaries_tx, insert_wallet_tx, with_tx,
}

-- `if err != nil && err != ErrWalletNotFound { return err }`
abbrev pub unless_missing : Result WalletError WalletLink → Exec Tx WalletError (Option WalletLink)
unless_missing (ok link) = pure (some link)
unless_missing (err wallet_not_found) = pure none
unless_missing (err e) = fail e

unfoldable pub optional : Exec Tx WalletError WalletLink → Exec Tx WalletError (Option WalletLink)
optional m = do found ← attempt m; unless_missing found

abbrev pub is_ok : {A : Type 0} → Result WalletError A → Bool
is_ok (ok a) = true
is_ok (err e) = false

abbrev pub is_missing : {A : Type 0} → Result WalletError A → Bool
is_missing (err wallet_not_found) = true
is_missing _ = false

abbrev pub ok_or : {A : Type 0} → Result WalletError A → A → A
ok_or (ok a) d = a
ok_or (err e) d = d

abbrev pub when_true : Bool → Option Bool
when_true true = some true
when_true false = none

module _ (now : ℕ) (new_id : Text) where
  -- The demotion that goes with a promotion; has it succeeded?
  unfoldable pub make_room : Bool → WalletLink → Exec Tx WalletError Bool
  make_room false acc = pure false
  make_room true acc = do
    demoted ← attempt (demote_other_primaries_tx now acc.user_id acc.chain_id acc.id)
    pure (is_ok demoted)

  -- The account and the address are known, and stand in one row or in two.
  unfoldable pub refresh_row :
      Bool → WalletLink → WalletLink → Exec Tx WalletError WalletUpsertResult
  unfolding make_room
  refresh_row false link acc = fail unauthorized_access
  refresh_row true link acc = do
    let promote = link.is_primary && not acc.is_primary
    primary_changed ← make_room promote acc
    updated ← attempt (update_wallet_meta_tx now acc.id (when_true promote) none (some now) none)
    pure (record { link = ok_or updated acc; created = false; primary_changed = primary_changed })

  -- The address is known and the account is not.
  unfoldable pub refuse_address : Bool → Exec Tx WalletError WalletUpsertResult
  refuse_address true = fail linked_to_another_account
  refuse_address false = fail unauthorized_access

  unfoldable pub demote_after : Bool → WalletLink → Exec Tx WalletError Bool
  demote_after false updated = pure false
  demote_after true updated = do
    _ ← attempt (demote_other_primaries_tx now updated.user_id updated.chain_id updated.id)
    pure true

  unfoldable pub promote_row : Bool → WalletLink → Exec Tx WalletError Bool
  unfolding demote_after
  promote_row false updated = pure false
  promote_row true updated = do
    promoted ← attempt (update_wallet_meta_tx now updated.id (some true) none none none)
    demote_after (is_ok promoted) updated

  -- The second look at the address: `none` is the way on.
  abbrev pub claimed : Option WalletLink → Exec Tx WalletError (Unit {0})
  claimed none = pure tt
  claimed (some other) = fail linked_to_another_user

  -- The account is known and the address is not: the account's row moves.
  unfoldable pub move_row : Bool → WalletLink → WalletLink → Exec Tx WalletError WalletUpsertResult
  unfolding promote_row optional
  move_row false link acc = fail unauthorized_access
  move_row true link acc = do
    other ← optional (get_by_address_tx link.chain_id link.address)
    claimed other
    updated ← update_wallet_address_tx now acc.id link.chain_id link.address
    primary_changed ← promote_row (link.is_primary && not updated.is_primary) updated
    pure (record { link = updated; created = false; primary_changed = primary_changed })

  -- The new link's primary flag, which is also PrimaryChanged.
  unfoldable pub choose_primary : Bool → WalletLink → Exec Tx WalletError Bool
  choose_primary true link = do
    _ ← attempt (demote_other_primaries_tx now link.user_id link.chain_id [])
    pure true
  choose_primary false link = do
    primary ← attempt (get_primary_by_user_chain_tx link.user_id link.chain_id)
    pure (is_missing primary)

  -- Neither is known.
  unfoldable pub insert_new : WalletLink → Exec Tx WalletError WalletUpsertResult
  unfolding choose_primary
  insert_new link = do
    primary ← choose_primary link.is_primary link
    inserted ← insert_wallet_tx now new_id (record link { is_primary = primary })
    pure (record { link = inserted; created = true; primary_changed = primary })

  unfoldable pub decide :
      WalletLink → Option WalletLink → Option WalletLink → Exec Tx WalletError WalletUpsertResult
  unfolding refresh_row refuse_address move_row insert_new
  decide link (some addr) (some acc) = refresh_row (text_eq addr.id acc.id) link acc
  decide link (some addr) none = refuse_address (text_eq addr.user_id link.user_id)
  decide link none (some acc) = move_row (text_eq acc.user_id link.user_id) link acc
  decide link none none = insert_new link

  -- The body of the transaction.
  unfoldable pub upsert_tx : WalletLink → Exec Tx WalletError WalletUpsertResult
  unfolding optional decide
  upsert_tx link = do
    acquire_account_lock link.account_id
    acquire_address_lock link.chain_id link.address
    addr ← optional (get_by_address_tx link.chain_id link.address)
    acc ← optional (get_by_account_id_tx link.account_id)
    decide link addr acc

  abbrev pub normalized : WalletLink → WalletLink
  normalized link = record link {
    address = normalize_address link.address;
    chain_id = normalize_chain_id link.chain_id;
  }

  unfoldable pub checked :
      Option WalletError
      → Bool
      → List Bool
      → WalletLink
      → Exec (List Row) WalletError WalletUpsertResult
  checked (some e) begins faults link = fail e
  checked none begins faults link = with_tx begins faults (upsert_tx (normalized link))

  unfoldable pub upsert_link :
      Bool → List Bool → WalletLink → Exec (List Row) WalletError WalletUpsertResult
  unfolding checked
  upsert_link begins faults link = checked (validate_wallet_link link) begins faults link
