-- ===== src/Users/Repo.antt =====
-- services/user-service/internal/infrastructure/repository/repository.go
use mathlib.Core.List.{tail}
use zuno_marketplace_api.Common.{
  Text, Bool, true, false, ◌||◌, ◌∷◌, map, Option, none, some, if◌then◌else◌, any, find?,
  head_or_false, text_eq, to_lower, Result, ok, err, Exec, pure, fail, ◌>>=◌,
}
use zuno_marketplace_api.Common.Faults.{server_call}
use zuno_marketplace_api.Users.Model.{
  AccountRow, Tables, Database, Store, UserError, user_not_found, database_error,
}

abbrev pub of_account : Text → AccountRow → Bool
of_account account_id row = text_eq row.account_id account_id

abbrev pub user_of : Option AccountRow → Option Text
user_of none = none
user_of (some row) = some (row.user_id)

abbrev pub account_of : Text → Tables → Option Text
account_of account_id t = user_of (find? (of_account account_id) t.accounts)

abbrev pub or_not_found : Option Text → Exec Store UserError Text
or_not_found none = fail user_not_found
or_not_found (some user_id) = pure user_id

unfoldable pub select_user : Text → Database → Result UserError (Option Text) × Database
select_user account_id d = (ok (account_of account_id d.tables), d)

unfoldable pub get_user_id_by_account : Text → Exec Store UserError Text
get_user_id_by_account account_id = do
  found ← server_call database_error (select_user account_id)
  or_not_found found

abbrev pub abort : Store → Store
abort s = record { tables = record (s.tables) { aborted = true }; faults = tail s.faults }

-- A statement of a transaction: after one that failed, all fail.
unfoldable pub statement : {A : Type 0} → (Tables → A × Tables) → Exec Store UserError A
statement run s =
    if head_or_false s.faults || s.tables.aborted then (err database_error, abort s) else (
      ok (run s.tables.tables).0,
      record {
        tables = record (s.tables) { tables = (run s.tables.tables).1 };
        faults = tail s.faults;
      },
    )

unfoldable pub begin_tx : Database → Result UserError (Unit {0}) × Database
begin_tx d = (ok tt, record d { aborted = false })

-- The commit of an aborted transaction rolls it back and is an error.
abbrev pub end_tx : {A : Type 0} → Tables → Result UserError A × Store → Result UserError A × Store
end_tx before (err e, s) =
    (err e, record s { tables = record { tables = before; aborted = false } })
end_tx before (ok a, s) =
    if head_or_false s.faults || s.tables.aborted
    then (
      err database_error,
      record { tables = record { tables = before; aborted = false }; faults = tail s.faults },
    )
    else (ok a, record s { faults = tail s.faults })

abbrev pub in_tx : {A : Type 0} → Exec Store UserError A → Exec Store UserError A
in_tx body s = end_tx s.tables.tables (body s)

unfoldable pub with_tx : {A : Type 0} → Exec Store UserError A → Exec Store UserError A
with_tx body = server_call database_error begin_tx >>= λ u. in_tx body

abbrev pub locked : Tables → Unit {0} × Tables
locked t = (tt, t)

-- Transactions run one after the other: the lock is never waited for.
unfoldable pub acquire_account_lock : Text → Exec Store UserError (Unit {0})
acquire_account_lock account_id = statement locked

abbrev pub selected : Text → Tables → Option Text × Tables
selected account_id t = (account_of account_id t, t)

unfoldable pub get_user_id_by_account_tx : Text → Exec Store UserError Text
get_user_id_by_account_tx account_id = statement (selected account_id) >>= or_not_found

abbrev pub inserted_user : Text → Tables → Text × Tables
inserted_user new_id t = (new_id, record t { users = new_id ∷ t.users })

-- The database draws the id.
unfoldable pub create_user_tx : Text → Exec Store UserError Text
create_user_tx new_id = statement (inserted_user new_id)

abbrev pub inserted_profile : Text → Tables → Unit {0} × Tables
inserted_profile user_id t = (
  tt,
  if any (text_eq user_id) t.profiles then t else record t { profiles = user_id ∷ t.profiles },
)

unfoldable pub create_profile_tx : Text → Exec Store UserError (Unit {0})
create_profile_tx user_id = statement (inserted_profile user_id)

abbrev pub seen : Text → Text → Text → AccountRow → AccountRow
seen account_id address chain_id row =
    if of_account account_id row then record row { address = address; chain_id = chain_id } else row

abbrev pub upserted : AccountRow → Tables → Unit {0} × Tables
upserted row t = (
  tt,
  record t {
    accounts =
        if any (of_account row.account_id) t.accounts
        then map (seen row.account_id row.address row.chain_id) t.accounts
        else row ∷ t.accounts;
  },
)

unfoldable pub upsert_user_account_tx : Text → Text → Text → Text → Exec Store UserError (Unit {0})
upsert_user_account_tx user_id account_id address chain_id = statement (
    upserted (record {
      account_id = account_id;
      user_id = user_id;
      address = to_lower address;
      chain_id = chain_id;
    }))

abbrev pub touch : Text → Text → AccountRow → AccountRow
touch account_id address row =
    if of_account account_id row then record row { address = address } else row

abbrev pub touched : Text → Text → Tables → Unit {0} × Tables
touched account_id address t =
    (tt, record t { accounts = map (touch account_id address) t.accounts })

unfoldable pub touch_user_account_tx : Text → Text → Exec Store UserError (Unit {0})
touch_user_account_tx account_id address = statement (touched account_id (to_lower address))
