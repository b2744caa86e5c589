-- ===== src/Auth/Service.antt =====
-- services/auth-service/internal/service/service.go. Each method takes the time `now` of its run.
use Prim.Native.Nat.{◌/◌, ◌%◌}
use zuno_marketplace_api.Common.{
  ℕ, ◌+◌, ◌-◌, ◌*◌, Text, Bool, false, ◌&&◌, ◌||◌, not, List, [], ◌∷◌, Option, none, some,
  if◌then◌else◌, leb, ltb, all, is_empty, to_lower, split, Exec, pure, fail, ◌>>=◌, ◌>>◌,
}
use zuno_marketplace_api.Auth.Model.{
  Nonce, AuthError, Store, invalid_account_id, invalid_chain_id, domain_required, nonce_generation,
  minute, hour,
}
use zuno_marketplace_api.Auth.Repo.{is_0x_lower_hex, create_nonce}

-- The fields of a parsed sign-in message that the service reads; the address as `Hex()` prints it.
pub record SiweMessage : Type 0 where
  pub address : Text
  pub expiration_time : Option Text
  pub not_before : Option Text
  pub nonce : Text
  pub chain_id : ℕ
  pub domain : Text

pub record Claims : Type 0 where
  pub sub : Text
  pub session_id : Text
  pub iat : ℕ
  pub exp : ℕ
  pub iss : Text

-- What the service calls and does not implement: the siwe and go-ethereum libraries, RFC 3339,
-- SHA-256, UUID and JWT, and the clients of the user and wallet services (which answer a user id,
-- and whether the link succeeded).
pub record World : Type 1 where
  pub Account : Type 0
  pub same_account : Account → Account → Bool
  pub parse_message : Text → Option SiweMessage
  pub verify_eip191 : SiweMessage → Text → Option Account
  pub hex_to_address : Text → Account
  pub parse_time : Text → Option ℕ
  pub sha256 : Text → List ℕ
  pub is_uuid : Text → Bool
  pub sign_token : Claims → Option Text
  -- The JSON object of the collection context, of the time and the correlation id.
  pub context_json : ℕ → Text → Text
  pub ensure_user : Text → Text → Text → Option Text
  pub upsert_link : Text → Text → Text → Text → Bool → Bool

abbrev hex_digit : ℕ → ℕ
hex_digit d = if ltb d 10 then b'0' + d else b'a' + (d - 10)

-- hex.EncodeToString
unfoldable pub encode_hex : List ℕ → Text
encode_hex [] = []
encode_hex (b ∷ bytes) = hex_digit (b / 16) ∷ hex_digit (b % 16) ∷ encode_hex bytes

-- The regular expression ^0x[0-9a-f]{40}$
unfoldable pub is_valid_ethereum_address : Text → Bool
is_valid_ethereum_address address = is_0x_lower_hex address

abbrev pub is_lower_alnum : ℕ → Bool
is_lower_alnum c = (leb b'a' c && leb c b'z') || (leb b'0' c && leb c b'9')

abbrev pub is_alnum : ℕ → Bool
is_alnum c = is_lower_alnum c || (leb b'A' c && leb c b'Z')

abbrev caip2_parts : List Text → Bool
caip2_parts (namespace ∷ reference ∷ []) =
    (not (is_empty namespace) && all is_lower_alnum namespace)
    && (not (is_empty reference) && all is_alnum reference)
caip2_parts _ = false

-- The regular expression ^[a-z0-9]+:[a-zA-Z0-9]+$; no colon is in either class.
unfoldable pub is_valid_caip2_chain_id : Text → Bool
is_valid_caip2_chain_id chain_id = caip2_parts (split b':' chain_id)

unfoldable pub validate_get_nonce_inputs : Text → Text → Text → Option AuthError
validate_get_nonce_inputs account_id chain_id domain =
    if is_empty account_id
    then some invalid_account_id
    else if is_empty chain_id
    then some invalid_chain_id
    else if is_empty domain
    then some domain_required
    else if not (is_valid_ethereum_address (to_lower account_id))
    then some invalid_account_id
    else if not (is_valid_caip2_chain_id chain_id)
    then some invalid_chain_id
    else none

abbrev pub check : Option AuthError → Exec Store AuthError (Unit {0})
check none = pure tt
check (some e) = fail e

-- rand.Read gives 32 bytes or an error.
abbrev pub random : Option (List ℕ) → Exec Store AuthError (List ℕ)
random none = fail nonce_generation
random (some bytes) = pure bytes

-- NewAuthService sets the two lifetimes.
abbrev pub nonce_ttl : ℕ
nonce_ttl = 5 * minute

abbrev pub session_ttl : ℕ
session_ttl = 24 * hour

abbrev pub nonce_record : ℕ → Text → Text → Text → Text → Nonce
nonce_record now value account_id chain_id domain = record {
  value = value;
  account_id = to_lower account_id;
  chain_id = chain_id;
  domain = domain;
  used = false;
  expires_at = now + nonce_ttl;
  created_at = now;
}

unfoldable pub get_nonce : ℕ → Option (List ℕ) → Text → Text → Text → Exec Store AuthError Text
get_nonce now entropy account_id chain_id domain = do
  check (validate_get_nonce_inputs account_id chain_id domain)
  bytes ← random entropy
  create_nonce now (nonce_record now (encode_hex bytes) account_id chain_id domain)
  pure (encode_hex bytes)
