-- ===== src/Wallet/Tests.antt =====
-- Runs of UpsertLink on small tables.
use zuno_marketplace_api.Common.{
  split, find?, to_lower, lower, text_eq, ◌>>=◌, codes, ◌≡◌, ◌↔◌, refl, Bool, true, false, [], List,
  none, some, ok, Memᴰ, Result, err, Text,
}
use zuno_marketplace_api.Wallet.Model.{
  WalletLink, Row, WalletError, WalletUpsertResult, unauthorized_access,
}
use zuno_marketplace_api.Wallet.Service.{
  optional, make_room, refresh_row, refuse_address, demote_after, promote_row, move_row,
  choose_primary, insert_new, decide, upsert_tx, checked, upsert_link,
}
use zuno_marketplace_api.Wallet.Validate.{
  normalize_address, normalize_chain_id, is_valid_ethereum_address, is_valid_chain_id,
  validate_wallet_link,
}
use zuno_marketplace_api.Wallet.Repo.{
  settle, statement, hash_string, lock, acquire_account_lock, acquire_address_lock, select,
  get_by_account_id_tx, get_by_address_tx, get_primary_by_user_chain_tx, chain_id_check, admissible,
  ensure_single_primary_wallet, insert_row, write_row, update_row, update_wallet_meta_tx,
  update_wallet_address_tx, demote_other_primaries_tx, insert_wallet_tx, end_tx, with_tx,
}
use zuno_marketplace_api.Wallet.Table.{WellFormed}
use zuno_marketplace_api.Wallet.Invariant.{upsert_link-WellFormed}
use zuno_marketplace_api.Wallet.Linked.{upsert_link-stores}
use zuno_marketplace_api.Wallet.Validity.{IsValid, validate_wallet_link-IsValid}

abbrev address_a : Text
address_a = codes "0x00000000000000000000000000000000000000aA"

abbrev address_b : Text
address_b = codes "0x00000000000000000000000000000000000000bb"

abbrev request : Text → Text → Text → Bool → WalletLink
request user account address primary = record {
  id = [];
  user_id = user;
  account_id = account;
  address = address;
  chain_id = codes "eip155:1";
  is_primary = primary;
  verified_at = none;
  created_at = 0;
  updated_at = 0;
}

abbrev first : Result WalletError WalletUpsertResult × List Row
first = upsert_link 7 (codes "w1") true [] (request (codes "u") (codes "a") address_a false) []

empty-WellFormed : WellFormed []
empty-WellFormed = record {
  ids = tt;
  accounts = λ a b m m' e. elim m [ ];
  addresses = λ a b m m' e e'. elim m [ ];
  primaries = λ a b m m' p p' u c. elim m [ ];
}

first-WellFormed : WellFormed first.1
first-WellFormed =
    upsert_link-WellFormed 7 (codes "w1") true [] (request (codes "u") (codes "a") address_a false)
      [] empty-WellFormed

-- A second wallet of the user, asked to be the primary one.
upsert_link-WellFormed_example :
    WellFormed
      (upsert_link 8
        (codes "w2")
        true
        []
        (request (codes "u") (codes "b") address_b true)
        first.1).1
upsert_link-WellFormed_example =
    upsert_link-WellFormed 8 (codes "w2") true [] (request (codes "u") (codes "b") address_b true)
      first.1 first-WellFormed

-- Another user asks for the account of the first wallet.
abbrev stolen : Result WalletError WalletUpsertResult × List Row
stolen = upsert_link 8 (codes "w2") true [] (request (codes "v") (codes "a") address_b true) first.1

stolen-err : stolen.0 ≡ err unauthorized_access
unfolding normalize_address normalize_chain_id is_valid_ethereum_address is_valid_chain_id
    validate_wallet_link settle statement hash_string lock acquire_account_lock acquire_address_lock
    select get_by_account_id_tx get_by_address_tx get_primary_by_user_chain_tx chain_id_check
    admissible ensure_single_primary_wallet insert_row write_row update_row update_wallet_meta_tx
    update_wallet_address_tx demote_other_primaries_tx insert_wallet_tx end_tx with_tx optional
    make_room refresh_row refuse_address demote_after promote_row move_row choose_primary insert_new
    decide upsert_tx checked upsert_link split find? to_lower lower text_eq ◌>>=◌
stolen-err = refl

-- The first wallet's account asks for another address: its row moves.
abbrev moved : Result WalletError WalletUpsertResult × List Row
moved = upsert_link 8 (codes "w2") true [] (request (codes "u") (codes "a") address_b false) first.1

abbrev moved_link : WalletLink
moved_link = record {
  id = codes "w1";
  user_id = codes "u";
  account_id = codes "a";
  address = address_b;
  chain_id = codes "eip155:1";
  is_primary = true;
  verified_at = some 7;
  created_at = 7;
  updated_at = 8;
}

moved-ok : moved.0 ≡ ok (record { link = moved_link; created = false; primary_changed = false })
unfolding normalize_address normalize_chain_id is_valid_ethereum_address is_valid_chain_id
    validate_wallet_link settle statement hash_string lock acquire_account_lock acquire_address_lock
    select get_by_account_id_tx get_by_address_tx get_primary_by_user_chain_tx chain_id_check
    admissible ensure_single_primary_wallet insert_row write_row update_row update_wallet_meta_tx
    update_wallet_address_tx demote_other_primaries_tx insert_wallet_tx end_tx with_tx optional
    make_room refresh_row refuse_address demote_after promote_row move_row choose_primary insert_new
    decide upsert_tx checked upsert_link split find? to_lower lower text_eq ◌>>=◌
moved-ok = refl

upsert_link-stores_example :
    (row : Row) × Memᴰ row moved.1
    × (row.account_id ≡ codes "a")
    × (row.chain_id ≡ normalize_chain_id (codes "eip155:1"))
    × (row.address ≡ normalize_address address_b)
upsert_link-stores_example =
    upsert_link-stores 8 (codes "w2") true [] (request (codes "u") (codes "a") address_b false)
      first.1 (record { link = moved_link; created = false; primary_changed = false })
      first-WellFormed moved-ok

validate_wallet_link-IsValid_example :
    (validate_wallet_link (request (codes "u") (codes "a") address_a false) ≡ none)
    ↔ IsValid (request (codes "u") (codes "a") address_a false)
validate_wallet_link-IsValid_example =
    validate_wallet_link-IsValid (request (codes "u") (codes "a") address_a false)
