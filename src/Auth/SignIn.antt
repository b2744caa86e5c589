-- ===== src/Auth/SignIn.antt =====
-- VerifySiwe of services/auth-service/internal/service/service.go, with its helpers.
use Prim.Native.Nat.{◌/◌}
use zuno_marketplace_api.Common.{
  ℕ, ◌+◌, Text, codes, Bool, true, false, ◌&&◌, not, List, [], ◌∷◌, ◌++◌, Option, none, some,
  if◌then◌else◌, ltb, is_empty, to_lower, equal_fold, ok, Exec, pure, fail, require, ◌>>=◌, ◌>>◌,
}
use zuno_marketplace_api.Common.Decimal.{decimal}
use zuno_marketplace_api.Auth.Model.{
  Session, AuthResult, AuthUserLoggedInEvent, AuthError, Store, message_unparsable,
  address_mismatch, bad_time, message_expired, message_not_yet_valid, nonce_required, bad_signature,
  signer_mismatch, nonce_rejected, user_failed, wallet_failed, signing_failed, second, hour,
}
use zuno_marketplace_api.Auth.Repo.{try_use_nonce}
use zuno_marketplace_api.Auth.Sessions.{create_session}
use zuno_marketplace_api.Auth.Service.{SiweMessage, Claims, World, encode_hex, check, session_ttl}

-- The service's settings: is there a publisher, and is the collection context enabled?
pub record Config : Type 0 where
  pub has_publisher : Bool
  pub enable_collection_context : Bool

-- What one sign-in draws: the session's UUID, the refresh token's 32 bytes, the correlation UUID,
-- and the values of the header x-prepare-collection.
pub record Draw : Type 0 where
  pub session_id : Text
  pub token_bytes : List ℕ
  pub correlation_id : Text
  pub prepare_collection : List Text

-- fmt.Sprintf("eip155:%d", siweMessage.GetChainID())
unfoldable pub chain_id_text : ℕ → Text
chain_id_text n = codes "eip155:" ++ decimal n

module _ (world : World) (now : ℕ) where
  open world use {
    Account, same_account, parse_message, verify_eip191, hex_to_address, parse_time, sha256,
    sign_token, context_json, ensure_user, upsert_link,
  }

  abbrev pub after_expiry : Option ℕ → Option AuthError
  after_expiry none = some bad_time
  after_expiry (some t) = if ltb t now then some message_expired else none

  -- `if message.GetExpirationTime() != nil`
  abbrev pub check_expiry : Option Text → Option AuthError
  check_expiry none = none
  check_expiry (some text) = after_expiry (parse_time text)

  abbrev pub before_start : Option ℕ → Option AuthError
  before_start none = some bad_time
  before_start (some t) = if ltb now t then some message_not_yet_valid else none

  abbrev pub check_start : Option Text → Option AuthError
  check_start none = none
  check_start (some text) = before_start (parse_time text)

  unfoldable pub validate_siwe_message : SiweMessage → Text → Exec Store AuthError (Unit {0})
  validate_siwe_message message expected_account_id = do
    require (equal_fold message.address expected_account_id) address_mismatch
    check (check_expiry message.expiration_time)
    check (check_start message.not_before)
    require (not (is_empty message.nonce)) nonce_required

  abbrev pub or_fail : {A : Type 0} → Option A → AuthError → Exec Store AuthError A
  or_fail none e = fail e
  or_fail (some a) e = pure a

  unfoldable pub hash_refresh_token : Text → Text
  hash_refresh_token token = encode_hex (sha256 token)

  abbrev pub claims : Text → Text → Claims
  claims user_id session_id = record {
    sub = user_id;
    session_id = session_id;
    iat = now / second;
    exp = (now + hour) / second;
    iss = codes "nft-marketplace-auth";
  }

  -- The signed token and its expiry, one hour from now.
  unfoldable pub generate_access_token : Text → Text → Exec Store AuthError (Text × ℕ)
  generate_access_token user_id session_id = do
    token ← or_fail (sign_token (claims user_id session_id)) signing_failed
    pure (token, now + hour)

  abbrev pub first_is_true : List Text → Bool
  first_is_true [] = false
  first_is_true (value ∷ values) = equal_fold value (codes "true")

  abbrev pub intent_context : Config → Draw → Option Text
  intent_context config draw =
      if config.enable_collection_context && first_is_true draw.prepare_collection
      then some (context_json now draw.correlation_id)
      else none

  abbrev pub new_session : Config → Draw → Text → Session
  new_session config draw user_id = record {
    id = draw.session_id;
    user_id = user_id;
    refresh_hash = hash_refresh_token (encode_hex draw.token_bytes);
    expires_at = now + session_ttl;
    created_at = now;
    revoked_at = none;
    device_id = none;
    ip = none;
    ua = none;
    last_used_at = some now;
    collection_intent_context = intent_context config draw;
  }

  -- The event goes out in a goroutine of its own, and only if there is a publisher.
  unfoldable pub publish_user_logged_in :
      Config → AuthUserLoggedInEvent → Exec Store AuthError (Unit {0})
  publish_user_logged_in config event store = (
    ok tt,
    if config.has_publisher then record store { published = event ∷ store.published } else store,
  )

  -- From the consumed nonce on: the user, the wallet, the session, the tokens and the event.
  unfoldable pub open_session : Config → Draw → Text → Text → Exec Store AuthError AuthResult
  open_session config draw account_id chain_id = do
    user_id ← or_fail (ensure_user account_id (to_lower account_id) chain_id) user_failed
    require (upsert_link user_id account_id (to_lower account_id) chain_id true) wallet_failed
    create_session (new_session config draw user_id)
    (access_token, expires_at) ← generate_access_token user_id draw.session_id
    publish_user_logged_in config (record {
      user_id = user_id;
      account_id = account_id;
      address = to_lower account_id;
      chain_id = chain_id;
      session_id = draw.session_id;
      logged_in_at = now;
    })
    pure (record {
      access_token = access_token;
      refresh_token = encode_hex draw.token_bytes;
      expires_at = expires_at;
      user_id = user_id;
      address = to_lower account_id;
      chain_id = chain_id;
    })

  -- The checks before the nonce is touched: the parsed message.
  unfoldable pub authenticate : Text → Text → Text → Exec Store AuthError SiweMessage
  authenticate account_id message signature = do
    siwe_message ← or_fail (parse_message message) message_unparsable
    validate_siwe_message siwe_message account_id
    recovered ← or_fail (verify_eip191 siwe_message signature) bad_signature
    require (same_account recovered (hex_to_address account_id)) signer_mismatch
    pure siwe_message

  unfoldable pub verify_siwe : Config → Draw → Text → Text → Text → Exec Store AuthError AuthResult
  verify_siwe config draw account_id message signature = do
    siwe_message ← authenticate account_id message signature
    success ←
        try_use_nonce now siwe_message.nonce account_id (chain_id_text siwe_message.chain_id)
          siwe_message.domain
    require success nonce_rejected
    open_session config draw account_id (chain_id_text siwe_message.chain_id)
