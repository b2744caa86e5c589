-- ===== src/Auth/Tables.antt =====
-- Claims about the tables of nonces and of sessions that each kind of write keeps: every method of
-- the service keeps them.
use mathlib.Core.List.{tail}
use zuno_marketplace_api.Common.{
  ℕ, Text, ◌≡◌, inl, inr, Bool, true, false, List, ◌∷◌, map, Option, none, some, Bool-cases, ltb,
  if◌then◌else◌, ◌-◌, any, head_or_false, Result,
}
use zuno_marketplace_api.Common.Keeps.{
  Keeps, Keeps-pure, Keeps-fail, Keeps-bind, Keeps-attempt, Keeps-require,
}
use zuno_marketplace_api.Auth.Model.{
  Nonce, NonceRow, AuthError, Store, Session, AuthUserLoggedInEvent,
}
use zuno_marketplace_api.Auth.Repo.{
  call, admissible, nonce_key, has_value, insert_nonce, set_key, cache_nonce, create_nonce,
  is_usable, consume, use_rows, delete_key, forget_nonce, try_use_nonce,
}
use zuno_marketplace_api.Auth.Sessions.{
  create_session, insert_session, clashes, change_session, touch, revoke, is_live_session, is_open,
  get_session_by_refresh_hash, select_session, scan_session, update_session,
  update_session_last_used, revoke_session,
}
use zuno_marketplace_api.Auth.Service.{World, SiweMessage, check, random, get_nonce}
use zuno_marketplace_api.Auth.SignIn.{
  Config, Draw, or_fail, validate_siwe_message, generate_access_token, publish_user_logged_in,
  open_session, authenticate, verify_siwe, check_expiry, check_start,
}
use zuno_marketplace_api.Auth.Tokens.{check_token, refresh, logout, logout_by_refresh_token}

-- A claim that survives a new row of a fresh value, rows marked as used, a new session that clashes
-- with none, and the two updates of a live session.
pub record Stable (P : List NonceRow → List Session → Type 0) : Type 0 where
  pub inserted :
      (row : NonceRow) (rows : List NonceRow) (sessions : List Session)
      → any (has_value row.value) rows ≡ false
      → admissible row ≡ true
      → P rows sessions
      → P (row ∷ rows) sessions
  pub consumed :
      (now : ℕ) (p : NonceRow → Bool) (rows : List NonceRow) (sessions : List Session)
      → P rows sessions
      → P (map (consume now p) rows) sessions
  pub opened :
      (session : Session) (rows : List NonceRow) (sessions : List Session)
      → any (clashes session) sessions ≡ false
      → P rows sessions
      → P rows (session ∷ sessions)
  pub touched :
      (now : ℕ) (id : Text) (rows : List NonceRow) (sessions : List Session)
      → P rows sessions
      → P rows (map (change_session id (touch now)) sessions)
  pub revoked :
      (now : ℕ) (id : Text) (rows : List NonceRow) (sessions : List Session)
      → P rows sessions
      → P rows (map (change_session id (revoke now)) sessions)

abbrev pub OfTables : (List NonceRow → List Session → Type 0) → Store → Type 0
OfTables P store = P store.nonces store.sessions

module _ (P : List NonceRow → List Session → Type 0) (stable : Stable P) where
  Keeps-call :
      {A : Type 0} (run : Store → Result AuthError A × Store)
      → ((store : Store) → OfTables P store → OfTables P (run store).1)
      → Keeps (OfTables P) (call run)
  unfolding call
  Keeps-call run h = record {
    at = λ store s. elim (Bool-cases (head_or_false store.faults)) [
      | inl no_ ↦ rw no_ s
      | inr yes_ ↦ rw yes_ (h (record store { faults = tail store.faults }) s)
    ];
  }

  insert_nonce_keeps :
      (row : NonceRow) (store : Store) → OfTables P store → OfTables P (insert_nonce row store).1
  unfolding insert_nonce
  insert_nonce_keeps row store s = elim (Bool-cases (any (has_value row.value) store.nonces)) [
    | inl taken ↦ rw taken s
    | inr fresh ↦ elim (Bool-cases (admissible row)) [
      | inl fits ↦ rw (fresh, fits) (stable.inserted row store.nonces store.sessions fresh fits s)
      | inr bad ↦ rw (fresh, bad) s
    ]
  ]

  cache_nonce-Keeps : (now : ℕ) (nonce : Nonce) → Keeps (OfTables P) (cache_nonce now nonce)
  unfolding cache_nonce
  cache_nonce-Keeps now nonce = record {
    at = λ store s. elim (Bool-cases (ltb now nonce.expires_at)) [
      | inl later ↦
          let ttl = nonce.expires_at - now in
          rw later (
            (Keeps-call (set_key now (nonce_key nonce.value) ttl) (unfold set_key in λ t h. h)).at
              store s)
      | inr past ↦ rw past s
    ];
  }

  pub create_nonce-Keeps : (now : ℕ) (nonce : Nonce) → Keeps (OfTables P) (create_nonce now nonce)
  unfolding create_nonce
  create_nonce-Keeps now nonce =
      let row : NonceRow = record { nonce = nonce; used_at = none } in
      Keeps-bind _ _ (Keeps-call _ (insert_nonce_keeps row)) (λ _. cache_nonce-Keeps now nonce)

  forget_nonce-Keeps : (b : Bool) (v : Text) → Keeps (OfTables P) (forget_nonce b v)
  unfolding forget_nonce
  forget_nonce-Keeps false v = record { at = λ store s. s }
  forget_nonce-Keeps true v = record {
    at = (Keeps-call (delete_key (nonce_key v)) (unfold delete_key in λ store s. s)).at;
  }

  pub try_use_nonce-Keeps :
      (now : ℕ) (v account_id chain_id domain : Text)
      → Keeps (OfTables P) (try_use_nonce now v account_id chain_id domain)
  unfolding try_use_nonce
  try_use_nonce-Keeps now v account_id chain_id domain =
      let p = is_usable now v account_id chain_id domain in
      Keeps-bind _ _
        (Keeps-call (use_rows now p)
          (unfold use_rows in λ store s. stable.consumed now p store.nonces store.sessions s))
        λ success. Keeps-bind _ _ (forget_nonce-Keeps success v) λ _. Keeps-pure success

  insert_session_keeps :
      (session : Session) (store : Store)
      → OfTables P store
      → OfTables P (insert_session session store).1
  unfolding insert_session
  insert_session_keeps session store s = elim (Bool-cases (any (clashes session) store.sessions)) [
    | inl taken ↦ rw taken s
    | inr fresh ↦ elim (Bool-cases (ltb session.created_at session.expires_at)) [
      | inl fits ↦ rw (fresh, fits) (stable.opened session store.nonces store.sessions fresh s)
      | inr bad ↦ rw (fresh, bad) s
    ]
  ]

  pub create_session-Keeps : (session : Session) → Keeps (OfTables P) (create_session session)
  unfolding create_session
  create_session-Keeps session = Keeps-call (insert_session session) (insert_session_keeps session)

  get_session_by_refresh_hash-Keeps :
      (now : ℕ) (hash : Text) → Keeps (OfTables P) (get_session_by_refresh_hash now hash)
  unfolding get_session_by_refresh_hash
  get_session_by_refresh_hash-Keeps now hash =
      Keeps-bind _ _
        (Keeps-call (select_session (is_open now hash)) (unfold select_session in λ store s. s))
        scanned
    where
      scanned : (o : Option Session) → Keeps (OfTables P) (scan_session o)
      scanned none = Keeps-fail _
      scanned (some row) = Keeps-pure _

  update_session_keeps :
      (id : Text) (change : Session → Session)
      → ((rows : List NonceRow) (sessions : List Session)
          → P rows sessions
          → P rows (map (change_session id change) sessions))
      → (store : Store) → OfTables P store
      → OfTables P (update_session id change store).1
  unfolding update_session
  update_session_keeps id change h store s =
      elim (Bool-cases (any (is_live_session id) store.sessions)) [
        | inl live ↦ rw live (h store.nonces store.sessions s)
        | inr gone ↦ rw gone s
      ]

  pub update_session_last_used-Keeps :
      (now : ℕ) (id : Text) → Keeps (OfTables P) (update_session_last_used now id)
  unfolding update_session_last_used
  update_session_last_used-Keeps now id =
      Keeps-call (update_session id (touch now))
        (update_session_keeps id (touch now) (stable.touched now id))

  pub revoke_session-Keeps : (now : ℕ) (id : Text) → Keeps (OfTables P) (revoke_session now id)
  unfolding revoke_session
  revoke_session-Keeps now id =
      Keeps-call (update_session id (revoke now))
        (update_session_keeps id (revoke now) (stable.revoked now id))

  check-Keeps : (e : Option AuthError) → Keeps (OfTables P) (check e)
  check-Keeps none = Keeps-pure tt
  check-Keeps (some e) = Keeps-fail e

  random-Keeps : (bytes : Option (List ℕ)) → Keeps (OfTables P) (random bytes)
  random-Keeps none = Keeps-fail _
  random-Keeps (some bytes) = Keeps-pure bytes

  pub get_nonce-Keeps :
      (now : ℕ) (entropy : Option (List ℕ)) (account_id chain_id domain : Text)
      → Keeps (OfTables P) (get_nonce now entropy account_id chain_id domain)
  unfolding get_nonce
  get_nonce-Keeps now entropy account_id chain_id domain = Keeps-bind _ _ (check-Keeps _) λ _.
      Keeps-bind _ _ (random-Keeps entropy)
        λ bytes. Keeps-bind _ _ (create_nonce-Keeps now _) λ _. Keeps-pure _

  module _ (world : World) (now : ℕ) where
    or_fail-Keeps :
        {A : Type 0} (o : Option A) (e : AuthError) → Keeps (OfTables P) (or_fail world now o e)
    or_fail-Keeps none e = Keeps-fail e
    or_fail-Keeps (some a) e = Keeps-pure a

    validate_siwe_message-Keeps :
        (m : SiweMessage) (account_id : Text)
        → Keeps (OfTables P) (validate_siwe_message world now m account_id)
    unfolding validate_siwe_message
    validate_siwe_message-Keeps m account_id = Keeps-bind _ _ (Keeps-require _ _) λ _.
        Keeps-bind _ _ (check-Keeps (check_expiry world now m.expiration_time)) λ _.
          Keeps-bind _ _ (check-Keeps (check_start world now m.not_before)) λ _. Keeps-require _ _

    authenticate-Keeps :
        (account_id message signature : Text)
        → Keeps (OfTables P) (authenticate world now account_id message signature)
    unfolding authenticate
    authenticate-Keeps account_id message signature = Keeps-bind _ _ (or_fail-Keeps _ _) λ m.
        Keeps-bind _ _ (validate_siwe_message-Keeps m account_id) λ _.
          Keeps-bind _ _ (or_fail-Keeps _ _)
            λ recovered. Keeps-bind _ _ (Keeps-require _ _) λ _. Keeps-pure m

    generate_access_token-Keeps :
        (user_id session_id : Text)
        → Keeps (OfTables P) (generate_access_token world now user_id session_id)
    unfolding generate_access_token
    generate_access_token-Keeps user_id session_id =
        Keeps-bind _ _ (or_fail-Keeps _ _) λ token. Keeps-pure _

    publish-Keeps :
        (config : Config) (event : AuthUserLoggedInEvent)
        → Keeps (OfTables P) (publish_user_logged_in world now config event)
    unfolding publish_user_logged_in
    publish-Keeps config event = record { at = λ store s. same config.has_publisher store s }
      where
        same :
            (b : Bool) (store : Store)
            → OfTables P store
            → OfTables P (if b then record store { published = event ∷ store.published } else store)
        same true store s = s
        same false store s = s

    pub open_session-Keeps :
        (config : Config) (draw : Draw) (account_id chain_id : Text)
        → Keeps (OfTables P) (open_session world now config draw account_id chain_id)
    unfolding open_session
    open_session-Keeps config draw account_id chain_id =
        Keeps-bind _ _ (or_fail-Keeps _ _) λ user_id. Keeps-bind _ _ (Keeps-require _ _) λ _.
          Keeps-bind _ _ (create_session-Keeps _) λ _.
            Keeps-bind _ _ (generate_access_token-Keeps user_id draw.session_id)
              λ token. Keeps-bind _ _ (publish-Keeps config _) λ _. Keeps-pure _

    pub verify_siwe-Keeps :
        (config : Config) (draw : Draw) (account_id message signature : Text)
        → Keeps (OfTables P) (verify_siwe world now config draw account_id message signature)
    unfolding verify_siwe
    verify_siwe-Keeps config draw account_id message signature =
        Keeps-bind _ _ (authenticate-Keeps account_id message signature) λ m.
          Keeps-bind _ _ (try_use_nonce-Keeps now _ _ _ _) λ success.
            Keeps-bind _ _ (Keeps-require _ _) λ _. open_session-Keeps config draw account_id _

    check_token-Keeps : (token : Text) → Keeps (OfTables P) (check_token world now token)
    unfolding check_token
    check_token-Keeps token = Keeps-bind _ _ (Keeps-require _ _) λ _. Keeps-require _ _

    pub refresh-Keeps : (token : Text) → Keeps (OfTables P) (refresh world now token)
    unfolding refresh
    refresh-Keeps token = Keeps-bind _ _ (check_token-Keeps token) λ _.
        Keeps-bind _ _ (get_session_by_refresh_hash-Keeps now _) λ session.
          Keeps-bind _ _ (Keeps-require _ _) λ _.
            Keeps-bind _ _ (Keeps-attempt _ (update_session_last_used-Keeps now session.id)) λ _.
              Keeps-bind _ _ (generate_access_token-Keeps session.user_id session.id)
                λ t. Keeps-pure _

    pub logout-Keeps : (session_id : Text) → Keeps (OfTables P) (logout world now session_id)
    unfolding logout
    logout-Keeps session_id =
        Keeps-bind _ _ (Keeps-require _ _)
          λ _. Keeps-bind _ _ (Keeps-require _ _) λ _. revoke_session-Keeps now session_id

    pub logout_by_refresh_token-Keeps :
        (token : Text) → Keeps (OfTables P) (logout_by_refresh_token world now token)
    unfolding logout_by_refresh_token
    logout_by_refresh_token-Keeps token = Keeps-bind _ _ (check_token-Keeps token) λ _.
        Keeps-bind _ _ (get_session_by_refresh_hash-Keeps now _)
          λ session. revoke_session-Keeps now session.id
