-- ===== src/Wallet/Validate.antt =====
-- The input checks of services/wallet-service/internal/service/service.go, and the normalisers of
-- shared/redis/cacheKeys.go.
use zuno_marketplace_api.Common.{
  ℕ, Text, Bool, false, ◌&&◌, ◌||◌, not, List, [], ◌∷◌, leb, ◌==◌, if◌then◌else◌, length, all,
  is_empty, to_lower, split,
}
use zuno_marketplace_api.Wallet.Model.{
  WalletLink, WalletError, user_id_required, account_id_required, address_required,
  chain_id_required, invalid_address, invalid_chain_id,
}
use zuno_marketplace_api.Common.{Option, none, some}

-- redis.NormalizeAddress
unfoldable pub normalize_address : Text → Text
normalize_address addr = to_lower addr

-- redis.NormalizeChainID
unfoldable pub normalize_chain_id : Text → Text
normalize_chain_id chain_id = to_lower chain_id

abbrev pub is_hex : ℕ → Bool
is_hex c = (leb b'0' c && leb c b'9') || (leb b'a' c && leb c b'f') || (leb b'A' c && leb c b'F')

-- `strings.HasPrefix(addr, "0x")` and the loop over `addr[2:]`
abbrev pub is_0x_hex : Text → Bool
is_0x_hex (a ∷ b ∷ digits) = (a == b'0' && b == b'x') && all is_hex digits
is_0x_hex _ = false

unfoldable pub is_valid_ethereum_address : Text → Bool
is_valid_ethereum_address addr = length addr == 42 && is_0x_hex addr

-- `len(parts) != 2`, then both parts are tested
abbrev pub is_pair : List Text → Bool
is_pair (namespace ∷ reference ∷ []) = not (is_empty namespace) && not (is_empty reference)
is_pair _ = false

unfoldable pub is_valid_chain_id : Text → Bool
is_valid_chain_id chain_id = is_pair (split b':' chain_id)

-- `none` is the nil error.
unfoldable pub validate_wallet_link : WalletLink → Option WalletError
validate_wallet_link link =
    if is_empty link.user_id
    then some user_id_required
    else if is_empty link.account_id
    then some account_id_required
    else if is_empty link.address
    then some address_required
    else if is_empty link.chain_id
    then some chain_id_required
    else if not (is_valid_ethereum_address link.address)
    then some invalid_address
    else if not (is_valid_chain_id link.chain_id)
    then some invalid_chain_id
    else none
