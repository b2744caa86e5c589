-- ===== src/Users/Tests.antt =====
-- The theorems on users at concrete calls.
use zuno_marketplace_api.Common.{
  Text, codes, ◌≡◌, refl, true, false, [], ◌∷◌, some, ok, find?, text_eq, to_lower, lower, ◌>>=◌,
}
use zuno_marketplace_api.Common.Faults.{server_call}
use zuno_marketplace_api.Users.Model.{Store}
use zuno_marketplace_api.Users.Repo.{
  account_of, select_user, get_user_id_by_account, statement, begin_tx, with_tx,
  acquire_account_lock, get_user_id_by_account_tx, create_user_tx, create_profile_tx,
  upsert_user_account_tx,
}
use zuno_marketplace_api.Users.Service.{
  validate_account_id, validate_address, validate_chain_id, ensure_in_tx, ensure_user, result,
}
use zuno_marketplace_api.Users.Mapping.{ensure_user-keeps_user}
use zuno_marketplace_api.Users.Answer.{ensure_user-answers}

abbrev known : Store
known = record {
  tables = record {
    tables = record {
      users = codes "u1" ∷ [];
      profiles = [];
      accounts =
          record {
            account_id = codes "a1";
            user_id = codes "u1";
            address = codes "0x";
            chain_id = codes "eip155:1";
          }
          ∷ [];
    };
    aborted = false;
  };
  faults = [];
}

abbrev address : Text
address = codes "0x00000000000000000000000000000000000000Aa"

has_user : account_of (codes "a1") known.tables.tables ≡ some (codes "u1")
unfolding find? text_eq
has_user = refl

creates :
    (ensure_user (codes "u2") (codes "a2") address (codes "eip155:1") known).0
    ≡ ok (result (codes "u2") true)
unfolding ensure_user validate_account_id validate_address validate_chain_id get_user_id_by_account
    server_call select_user ◌>>=◌ find? text_eq with_tx begin_tx ensure_in_tx acquire_account_lock
    statement get_user_id_by_account_tx create_user_tx create_profile_tx upsert_user_account_tx
    to_lower lower
creates = refl

ensure_user-keeps_user_example :
    account_of
      (codes "a1")
      (ensure_user (codes "u2") (codes "a2") address (codes "eip155:1") known).1.tables.tables
    ≡ some (codes "u1")
ensure_user-keeps_user_example =
    ensure_user-keeps_user (codes "a1") (codes "u1") (codes "u2") (codes "a2") address
      (codes "eip155:1") known has_user

ensure_user-answers_example :
    account_of
      (codes "a2")
      (ensure_user (codes "u2") (codes "a2") address (codes "eip155:1") known).1.tables.tables
    ≡ some (codes "u2")
ensure_user-answers_example =
    ensure_user-answers (codes "u2") (codes "a2") address (codes "eip155:1") known
      (result (codes "u2") true) creates
