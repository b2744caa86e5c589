-- ===== src/Orchestrator/Validate.antt =====
-- services/orchestrator-service/internal/service/validate.go
use zuno_marketplace_api.Common.{
  ℕ, Text, Bool, false, not, ◌&&◌, ◌||◌, List, [], ◌∷◌, Option, none, some, if◌then◌else◌, ltb, leb,
  ◌==◌, length, all, is_empty, text_eq, split,
}
use zuno_marketplace_api.Orchestrator.Model.{PrepareCreateCollectionInput, std_erc721, std_erc1155}

abbrev is_hex : ℕ → Bool
is_hex c = (leb b'0' c && leb c b'9') || ((leb b'a' c && leb c b'f') || (leb b'A' c && leb c b'F'))

abbrev is_0x_hex : Text → Bool
is_0x_hex (a ∷ b ∷ digits) = (a == b'0' && b == b'x') && all is_hex digits
is_0x_hex _ = false

unfoldable pub is_valid_ethereum_address : Text → Bool
is_valid_ethereum_address address = length address == 42 && is_0x_hex address

abbrev caip2_pair : List Text → Bool
caip2_pair (namespace ∷ reference ∷ []) = not (is_empty namespace) && not (is_empty reference)
caip2_pair _ = false

unfoldable pub is_valid_caip2_chain_id : Text → Bool
is_valid_caip2_chain_id chain_id = caip2_pair (split b':' chain_id)

abbrev pub is_supported : Text → Bool
is_supported standard = text_eq standard std_erc721 || text_eq standard std_erc1155

-- `p != nil && test(*p)`
abbrev present : Option ℕ → (ℕ → Bool) → Bool
present none test = false
present (some n) test = test n

abbrev too_short_or_long : ℕ → Text → Bool
too_short_or_long limit text = ltb limit (length text) || ltb (length text) 1

-- Is the error nil? Which check has failed is not told. `now` is the Unix time in seconds.
unfoldable pub validate_create_collection_input : ℕ → PrepareCreateCollectionInput → Bool
validate_create_collection_input now input =
    if (is_empty input.chain_id || is_empty input.name)
      || (is_empty input.symbol || (is_empty input.creator || is_empty input.collection_type))
    then false
    else if not (is_supported input.collection_type)
    then false
    else if too_short_or_long 100 input.name || too_short_or_long 10 input.symbol
    then false
    else if not (is_valid_ethereum_address input.creator)
        || not (is_valid_caip2_chain_id input.chain_id)
    then false
    else if present input.royalty_fee (ltb 10000)
    then false
    else if present input.max_supply (λ n. n == 0 || ltb 1000000 n)
    then false
    else if present input.mint_limit_per_wallet (λ n. n == 0)
    then false
    else not (present input.mint_start_time (λ n. ltb 0 n && ltb n now))
