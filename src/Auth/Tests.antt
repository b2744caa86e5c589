-- ===== src/Auth/Tests.antt =====
-- Runs of the auth service on a small world, and the theorems applied to them.
use mathlib.Core.Bool.{false≢true}
use zuno_marketplace_api.Common.{
  arith, ℕ, zero, suc, Text, codes, ◌≡◌, ◌≢◌, refl, true, false, List, [], ◌∷◌, none, some, text_eq,
  to_lower, Result, ok, ◌>>=◌, ◌+◌, lower, equal_fold, find?, keep, text_eq_iff, split,
}
use zuno_marketplace_api.Common.Decimal.{digits_from, decimal}
use zuno_marketplace_api.Auth.Model.{AuthError, AuthResult, Store, hour}
use zuno_marketplace_api.Auth.Repo.{
  call, admissible, insert_nonce, set_key, cache_nonce, create_nonce, use_rows, delete_key,
  forget_nonce, try_use_nonce,
}
use zuno_marketplace_api.Auth.Sessions.{
  insert_session, create_session, select_session, get_session_by_refresh_hash, update_session,
  revoke_session,
}
use zuno_marketplace_api.Auth.Service.{
  World, SiweMessage, encode_hex, get_nonce, validate_get_nonce_inputs, is_valid_ethereum_address,
  is_valid_caip2_chain_id,
}
use zuno_marketplace_api.Auth.SignIn.{
  Config, Draw, chain_id_text, validate_siwe_message, hash_refresh_token, generate_access_token,
  publish_user_logged_in, open_session, authenticate, verify_siwe,
}
use zuno_marketplace_api.Auth.Tokens.{check_token, refresh, logout_by_refresh_token}
use zuno_marketplace_api.Auth.Replay.{
  empty_store, Reach, Authentic, reach_start, reach_step, step_get_nonce, step_verify_siwe,
  verify_siwe-refused_again,
}
use zuno_marketplace_api.Auth.Renewal.{refresh-refused_after_logout}
use zuno_marketplace_api.Auth.RoundTrip.{renewed, refresh-verify_siwe}
use zuno_marketplace_api.Auth.Grants.{
  Consumes, Signs, verify_siwe-Signs, verify_siwe-refused_mixed_case,
}

abbrev account : Text
account = codes "0x00000000000000000000000000000000000000aa"

abbrev mixed_account : Text
mixed_account = codes "0x00000000000000000000000000000000000000AA"

abbrev nonce_bytes : List ℕ
nonce_bytes = 171 ∷ 1 ∷ []

abbrev sign_in : SiweMessage
sign_in = record {
  address = mixed_account;
  expiration_time = none;
  not_before = none;
  nonce = codes "ab01";
  chain_id = 1;
  domain = codes "zuno";
}

abbrev small_world : World
small_world = record {
  Account = Text;
  same_account = text_eq;
  parse_message = λ message. some sign_in;
  verify_eip191 = λ message signature. some account;
  hex_to_address = to_lower;
  parse_time = λ text. none;
  sha256 = λ token. token;
  is_uuid = λ text. true;
  sign_token = λ claims. some (codes "jwt");
  context_json = λ now id. id;
  ensure_user = λ account_id address chain_id. some (codes "user");
  upsert_link = λ user account_id address chain_id primary. true;
}

abbrev config : Config
config = record { has_publisher = true; enable_collection_context = false }

abbrev sevens : ℕ → List ℕ
sevens zero = []
sevens (suc n) = 7 ∷ sevens n

abbrev draw : Draw
draw = record {
  session_id = codes "s1";
  token_bytes = sevens 32;
  correlation_id = codes "c";
  prepare_collection = [];
}

abbrev issued : Store
issued =
    (get_nonce 1 (some nonce_bytes) account (codes "eip155:1") (codes "zuno") (empty_store [])).1

abbrev signed : Result AuthError AuthResult × Store
signed = verify_siwe small_world 2 config draw account (codes "m") (codes "sig") issued

issued-Reach : Reach small_world (empty_store []) issued
issued-Reach =
    reach_step reach_start
      (step_get_nonce 1 (some nonce_bytes) account (codes "eip155:1") (codes "zuno"))

abbrev granted : AuthResult
granted = record {
  access_token = codes "jwt";
  refresh_token = encode_hex draw.token_bytes;
  expires_at = 2 + hour;
  user_id = codes "user";
  address = account;
  chain_id = codes "eip155:1";
}

signed-granted : signed.0 ≡ ok granted
unfolding get_nonce validate_get_nonce_inputs is_valid_ethereum_address is_valid_caip2_chain_id
    split create_nonce insert_nonce admissible cache_nonce set_key call encode_hex to_lower lower
    text_eq ◌>>=◌ verify_siwe authenticate validate_siwe_message equal_fold try_use_nonce use_rows
    keep forget_nonce delete_key chain_id_text decimal digits_from open_session create_session
    insert_session generate_access_token publish_user_logged_in
signed-granted = refl

verify_siwe-refused_again_example :
    (verify_siwe small_world 3 config draw mixed_account (codes "n") (codes "gis") signed.1).0
    ≢ ok granted
verify_siwe-refused_again_example =
    verify_siwe-refused_again small_world [] issued signed.1 2 3 config config draw draw account
      mixed_account (codes "m") (codes "n") (codes "sig") (codes "gis") sign_in sign_in granted
      issued-Reach signed-granted reach_start refl refl refl granted

verify_siwe-Signs_example :
    (m : SiweMessage) × Authentic small_world 2 account (codes "m") (codes "sig") m
    × Consumes small_world 2 account m issued
    × Signs small_world 2 config draw account (chain_id_text m.chain_id) granted signed.1
verify_siwe-Signs_example =
    verify_siwe-Signs small_world 2 config draw account (codes "m") (codes "sig") issued granted
      signed-granted

mixed-differs : mixed_account ≢ to_lower mixed_account
unfolding to_lower lower text_eq
mixed-differs h = false≢true ((text_eq_iff mixed_account (to_lower mixed_account)).1 h)

verify_siwe-refused_mixed_case_example :
    (verify_siwe small_world 2 config draw mixed_account (codes "m") (codes "sig") issued).0
    ≢ ok granted
verify_siwe-refused_mixed_case_example =
    verify_siwe-refused_mixed_case small_world 2 [] issued config draw mixed_account (codes "m")
      (codes "sig") issued-Reach mixed-differs granted

abbrev refreshed : AuthResult
refreshed = record granted { expires_at = 3 + hour; address = []; chain_id = [] }

abbrev logged_out : Result AuthError (Unit {0}) × Store
logged_out = logout_by_refresh_token small_world 3 granted.refresh_token signed.1

module _ where
  logged_out-ok : logged_out.0 ≡ ok tt
  unfolding get_nonce validate_get_nonce_inputs is_valid_ethereum_address is_valid_caip2_chain_id
      split create_nonce insert_nonce admissible cache_nonce set_key call encode_hex to_lower lower
      text_eq ◌>>=◌ verify_siwe authenticate validate_siwe_message equal_fold try_use_nonce use_rows
      keep forget_nonce delete_key chain_id_text decimal digits_from open_session create_session
      insert_session generate_access_token publish_user_logged_in logout_by_refresh_token
      check_token get_session_by_refresh_hash select_session find? hash_refresh_token revoke_session
      update_session
  logged_out-ok = refl

signed-Reach : Reach small_world (empty_store []) signed.1
signed-Reach =
    reach_step issued-Reach (step_verify_siwe 2 config draw account (codes "m") (codes "sig"))

refresh-refused_after_logout_example :
    (refresh small_world 4 granted.refresh_token logged_out.1).0 ≢ ok refreshed
refresh-refused_after_logout_example =
    refresh-refused_after_logout small_world [] signed.1 logged_out.1 3 4 granted.refresh_token
      signed-Reach logged_out-ok reach_start refreshed

refresh-verify_siwe_example :
    (refresh small_world 3 granted.refresh_token (record signed.1 { faults = [] })).0
    ≡ ok (renewed small_world 3 (codes "jwt") granted.refresh_token (codes "user"))
refresh-verify_siwe_example =
    refresh-verify_siwe small_world 3 2 config draw account (codes "m") (codes "sig") (codes "jwt")
      issued granted signed-granted refl (omega arith) refl
