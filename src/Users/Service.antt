-- ===== src/Users/Service.antt =====
-- services/user-service/internal/service/service.go, and the checks of internal/domain/domain.go.
use zuno_marketplace_api.Common.{
  ℕ, Text, Bool, true, false, not, ◌&&◌, ◌||◌, ◌∷◌, leb, ◌==◌, length, all, is_empty, to_lower,
  Result, ok, err, Exec, pure, fail, attempt, require, ◌>>=◌, ◌>>◌,
}
use zuno_marketplace_api.Users.Model.{
  EnsureUserResult, Store, UserError, user_not_found, invalid_input,
}
use zuno_marketplace_api.Users.Repo.{
  get_user_id_by_account, with_tx, acquire_account_lock, get_user_id_by_account_tx, create_user_tx,
  create_profile_tx, upsert_user_account_tx, touch_user_account_tx,
}

abbrev pub is_hex : ℕ → Bool
is_hex c = (leb 48 c && leb c 57) || ((leb 97 c && leb c 102) || (leb 65 c && leb c 70))

abbrev pub is_0x_hex : Text → Bool
is_0x_hex (z ∷ x ∷ digits) = (z == 48 && x == 120) && all is_hex digits
is_0x_hex _ = false

unfoldable pub validate_account_id : Text → Bool
validate_account_id account_id = not (is_empty account_id) && leb (length account_id) 255

unfoldable pub validate_address : Text → Bool
validate_address address = length address == 42 && is_0x_hex address

unfoldable pub validate_chain_id : Text → Bool
validate_chain_id chain_id = not (is_empty chain_id)

abbrev pub result : Text → Bool → EnsureUserResult
result user_id created = record { user_id = user_id; created = created }

abbrev pub or_error : UserError → Result UserError Text → Exec Store UserError EnsureUserResult
or_error e (ok other) = pure (result other false)
or_error e (err x) = fail e

-- An upsert that fails is looked at once more.
abbrev pub or_read_again :
    Text → Text → Result UserError (Unit {0}) → Exec Store UserError EnsureUserResult
or_read_again account_id user_id (ok u) = pure (result user_id true)
or_read_again account_id user_id (err e) =
    attempt (get_user_id_by_account_tx account_id) >>= or_error e

abbrev pub create_user : Text → Text → Text → Text → Exec Store UserError EnsureUserResult
create_user new_id account_id address chain_id = do
  user_id ← create_user_tx new_id
  _ ← attempt (create_profile_tx user_id)
  outcome ← attempt (upsert_user_account_tx user_id account_id address chain_id)
  or_read_again account_id user_id outcome

abbrev pub found_or_created :
    Text → Text → Text → Text → Result UserError Text → Exec Store UserError EnsureUserResult
found_or_created new_id account_id address chain_id (ok user_id) =
    attempt (touch_user_account_tx account_id address) >>= λ r. pure (result user_id false)
found_or_created new_id account_id address chain_id (err user_not_found) =
    create_user new_id account_id address chain_id
found_or_created new_id account_id address chain_id (err e) = fail e

unfoldable pub ensure_in_tx : Text → Text → Text → Text → Exec Store UserError EnsureUserResult
ensure_in_tx new_id account_id address chain_id = do
  acquire_account_lock account_id
  found ← attempt (get_user_id_by_account_tx account_id)
  found_or_created new_id account_id address chain_id found

abbrev pub fast_or_slow :
    Text → Text → Text → Text → Result UserError Text → Exec Store UserError EnsureUserResult
fast_or_slow new_id account_id address chain_id (ok user_id) = pure (result user_id false)
fast_or_slow new_id account_id address chain_id (err user_not_found) =
    with_tx (ensure_in_tx new_id account_id address chain_id)
fast_or_slow new_id account_id address chain_id (err e) = fail e

unfoldable pub ensure_user : Text → Text → Text → Text → Exec Store UserError EnsureUserResult
ensure_user new_id account_id address chain_id = do
  require (validate_account_id account_id) invalid_input
  require (validate_address address) invalid_input
  require (validate_chain_id chain_id) invalid_input
  found ← attempt (get_user_id_by_account account_id)
  fast_or_slow new_id account_id (to_lower address) chain_id found
