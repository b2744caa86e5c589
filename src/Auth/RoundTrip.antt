-- ===== src/Auth/RoundTrip.antt =====
-- A refresh with the token that a sign-in has answered.
use zuno_marketplace_api.Common.{
  ℕ, Text, ◌+◌, ◌*◌, ◌<◌, ◌≡◌, refl, sym, subst₂, true, false, List, [], ◌∷◌, none, some, arith,
  length, ltb, ◌==◌, ==_iff, is_empty, text_eq, text_eq_refl, find?, ok, ◌>>=◌,
}
use zuno_marketplace_api.Auth.Model.{
  AuthResult, AuthUserLoggedInEvent, NonceRow, Session, Store, hour,
}
use zuno_marketplace_api.Auth.Repo.{call}
use zuno_marketplace_api.Auth.Sessions.{is_open, select_session, get_session_by_refresh_hash}
use zuno_marketplace_api.Auth.Service.{World, encode_hex, session_ttl}
use zuno_marketplace_api.Auth.SignIn.{
  Config, Draw, claims, new_session, hash_refresh_token, generate_access_token, verify_siwe,
}
use zuno_marketplace_api.Auth.Tokens.{check_token, refresh}
use zuno_marketplace_api.Auth.Grants.{verify_siwe-Signs}

length-encode_hex : (bytes : List ℕ) → length (encode_hex bytes) ≡ 2 * length bytes
unfolding encode_hex
length-encode_hex [] = refl
length-encode_hex (b ∷ bytes) = let rest = length-encode_hex bytes in omega arith

is_empty-length : (s : Text) → (length s == 64) ≡ true → is_empty s ≡ false
is_empty-length [] h = cc
is_empty-length (c ∷ s) h = refl

module _ (world : World) (now : ℕ) where
  -- The answer of a refresh.
  abbrev pub renewed : Text → Text → Text → AuthResult
  renewed access_token refresh_token user_id = record {
    access_token = access_token;
    refresh_token = refresh_token;
    expires_at = now + hour;
    user_id = user_id;
    address = [];
    chain_id = [];
  }

  find?-first :
      (hash : Text) (row : Session) (older : List Session)
      → text_eq row.refresh_hash hash ≡ true
      → row.revoked_at ≡ none
      → ltb now row.expires_at ≡ true
      → find? (is_open now hash) (row ∷ older) ≡ some row
  unfolding find?
  find?-first hash row older same live soon = rw (same, live, soon) refl

  get_session-found :
      (hash : Text) (row : Session) (rows : List Session) (nonces : List NonceRow)
      (cache : List (Text × ℕ)) (published : List AuthUserLoggedInEvent)
      → find? (is_open now hash) rows ≡ some row
      → let store : Store = record {
        nonces = nonces;
        sessions = rows;
        cache = cache;
        published = published;
        faults = [];
      } in
        get_session_by_refresh_hash now hash store
        ≡ (ok (record row { collection_intent_context = none }), store)
  unfolding get_session_by_refresh_hash select_session call ◌>>=◌ find?
  get_session-found hash row rows nonces cache published found = rw found refl

  refresh-found :
      (token access_token : Text) (row : Session) (store : Store)
      → is_empty token ≡ false
      → (length token == 64) ≡ true
      → get_session_by_refresh_hash now (hash_refresh_token world now token) store
        ≡ (ok (record row { collection_intent_context = none }), store)
      → ltb row.expires_at now ≡ false
      → world.sign_token (claims world now row.user_id row.id) ≡ some access_token
      → (refresh world now token store).0 ≡ ok (renewed access_token token row.user_id)
  unfolding refresh check_token ◌>>=◌ generate_access_token get_session_by_refresh_hash call
  refresh-found token access_token row store some_token well found later signed =
      rw (some_token, well, found, later, signed) refl

  -- The token that a sign-in has answered renews its session at once, on a database that answers,
  -- within 24 hours and if the access token can be signed, and is the token that comes back.
  pub refresh-verify_siwe :
      (before : ℕ) (config : Config) (draw : Draw)
      (account_id message signature access_token : Text) (s : Store) (result : AuthResult)
      → (verify_siwe world before config draw account_id message signature s).0 ≡ ok result
      → length draw.token_bytes ≡ 32
      → now < before + session_ttl
      → world.sign_token (claims world now result.user_id draw.session_id) ≡ some access_token
      → (refresh world now result.refresh_token
          (record (verify_siwe world before config draw account_id message signature s).1 {
            faults = [];
          })).0
        ≡ ok (renewed access_token result.refresh_token result.user_id)
  unfolding hash_refresh_token
  refresh-verify_siwe before config draw account_id message signature access_token s result h bytes
        soon signed =
      let (m, authentic, row, signs) =
        verify_siwe-Signs world before config draw account_id message signature s result h in
      let after = (verify_siwe world before config draw account_id message signature s).1 in
      let session = new_session world before config draw result.user_id in
      let token = encode_hex draw.token_bytes in
      let sized : length token ≡ 64 =
        let double = length-encode_hex draw.token_bytes in omega arith in
      let well = (==_iff (length token) 64).1 sized in
      let same_hash = text_eq_refl (hash_refresh_token world now token) in
      let first =
        refresh-found token access_token session _ (is_empty-length token well) well
          (get_session-found (hash_refresh_token world now token) session (session ∷ signs.older)
            after.nonces after.cache after.published
            (find?-first (hash_refresh_token world now token) session signs.older same_hash refl
              (ground arith)))
          (ground arith) signed in
      subst₂
        (λ (l : List Session) (t : Text).
          (refresh world now t (record {
            nonces = after.nonces;
            sessions = l;
            cache = after.cache;
            published = after.published;
            faults = [];
          })).0
          ≡ ok (renewed access_token t result.user_id))
        (sym signs.sessions) (sym signs.token) first
