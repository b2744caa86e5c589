-- ===== src/Auth/Grants.antt =====
-- What a sign-in that succeeds has consumed and opened, and the accounts that cannot sign in.
use mathlib.Core.List.Memᴰ
use zuno_marketplace_api.Common.{
  ℕ, Text, ◌≡◌, ◌≢◌, refl, sym, ◌∙◌, ap, subst, inl, inr, Bool, true, false, not, List, ◌∷◌, Memᴰ,
  some, arith, Bool-cases, any, ltb, text_eq_iff, to_lower, Result, ok, require, bind-eq-ok,
  bind-eq-ok_same, require-eq-ok, ◌<◌, ◌||◌,
}
use zuno_marketplace_api.Auth.Model.{
  AuthError, AuthResult, AuthUserLoggedInEvent, NonceRow, Session, Store, user_failed,
  wallet_failed,
}
use zuno_marketplace_api.Auth.Repo.{admissible, try_use_nonce}
use zuno_marketplace_api.Auth.Sessions.{create_session, insert_session, clashes}
use zuno_marketplace_api.Auth.Service.{World, SiweMessage, encode_hex}
use zuno_marketplace_api.Auth.SignIn.{
  Config, Draw, or_fail, chain_id_text, new_session, generate_access_token, publish_user_logged_in,
  open_session, verify_siwe,
}
use zuno_marketplace_api.Auth.Calls.{next, call-eq-ok}
use zuno_marketplace_api.Auth.Tables.{Stable}
use zuno_marketplace_api.Auth.Spent.{Nonces, consumed_from, one_usable, try_use_nonce-eq-ok}
use zuno_marketplace_api.Auth.Replay.{
  empty_store, Reach, Reach-keeps, Authentic, or_fail-eq-ok, verify_siwe-eq-ok,
}
use zuno_marketplace_api.Auth.Renewal.{generate_access_token-eq-ok}

-- Every account in the table is in lower case.
pub record AllLower (rows : List NonceRow) : Type 0 where
  pub lower : (r : NonceRow) → Memᴰ r rows → r.account_id ≡ to_lower r.account_id

admissible-lower :
    (row : NonceRow) → admissible row ≡ true → row.account_id ≡ to_lower row.account_id
unfolding admissible
admissible-lower row h =
    (text_eq_iff row.account_id (to_lower row.account_id)).0 (ground (arith, h))

AllLower-Stable : Stable (Nonces AllLower)
AllLower-Stable = record {
  inserted = λ row rows sessions fresh fits o. record {
    lower = λ r m. elim (Memᴰ.cases_cons m) [
      | inl e ↦
          subst (λ (n : NonceRow). n.account_id ≡ to_lower n.account_id) (sym e)
            (admissible-lower row fits)
      | inr k ↦ o.lower r k
    ];
  };
  consumed = λ now p rows sessions o. record {
    lower = λ r m.
        let (y, k, q, v) = consumed_from now p rows r m in
        subst (λ (n : NonceRow). n.account_id ≡ to_lower n.account_id) q
          (ground (arith, o.lower y k));
  };
  opened = λ session rows sessions fresh o. o;
  touched = λ now id rows sessions o. o;
  revoked = λ now id rows sessions o. o;
}

insert_session-eq-ok :
    (session : Session) (t : Store) {u : Unit {0}}
    → (insert_session session t).0 ≡ ok u
    → (insert_session session t).1.sessions ≡ session ∷ t.sessions
unfolding insert_session
insert_session-eq-ok session t h =
    elim (Bool-cases
      (any (clashes session) t.sessions || not (ltb session.created_at session.expires_at))) [
        | inl bad ↦ absurd (ground (arith, h, bad))
        | inr good ↦ rw good refl
      ]

module _ (world : World) (now : ℕ) where
  -- The nonce that a sign-in consumes.
  pub record Consumes (account_id : Text) (m : SiweMessage) (store : Store) : Type 0 where
    pub row : NonceRow
    pub in_table : Memᴰ row store.nonces
    pub value : row.value ≡ m.nonce
    pub account : row.account_id ≡ account_id
    pub chain : row.chain_id ≡ chain_id_text m.chain_id
    pub domain : row.domain ≡ m.domain
    pub unused : row.used ≡ false
    pub unexpired : now < row.expires_at

  usable-Consumes :
      (account_id : Text) (m : SiweMessage) (store : Store)
      → (try_use_nonce now m.nonce account_id (chain_id_text m.chain_id) m.domain store).0 ≡ ok true
      → Consumes account_id m store
  usable-Consumes account_id m store h =
      let chain = chain_id_text m.chain_id in
      let (one, rows) = try_use_nonce-eq-ok now m.nonce account_id chain m.domain store h in
      let (r, k, q) = one_usable now m.nonce account_id chain m.domain store store.nonces one in
      record {
        row = r;
        in_table = k;
        value = (text_eq_iff r.value m.nonce).0 (ground (arith, q));
        account = (text_eq_iff r.account_id account_id).0 (ground (arith, q));
        chain = (text_eq_iff r.chain_id chain).0 (ground (arith, q));
        domain = (text_eq_iff r.domain m.domain).0 (ground (arith, q));
        unused = ground (arith, q);
        unexpired = ground (arith, q);
      }

  -- The session and the answer of a sign-in.
  pub record Signs (config : Config) (draw : Draw) (account_id chain_id : Text)
      (result : AuthResult) (after : Store) : Type 0 where
    pub user : world.ensure_user account_id (to_lower account_id) chain_id ≡ some result.user_id
    pub wallet :
        world.upsert_link result.user_id account_id (to_lower account_id) chain_id true ≡ true
    pub older : List Session
    pub sessions : after.sessions ≡ new_session world now config draw result.user_id ∷ older
    pub token : result.refresh_token ≡ encode_hex draw.token_bytes
    pub chain : result.chain_id ≡ chain_id

  create_session-eq-ok :
      (session : Session) (s : Store) {u : Unit {0}}
      → (create_session session s).0 ≡ ok u
      → (create_session session s).1.sessions ≡ session ∷ s.sessions
  unfolding create_session
  create_session-eq-ok session s h =
      let (ran, same) = call-eq-ok (insert_session session) s h in
      ap (λ (r : Result AuthError (Unit {0}) × Store). r.1.sessions) same
      ∙ insert_session-eq-ok session (next s) ran

  publish-sessions :
      (config : Config) (event : AuthUserLoggedInEvent) (s : Store)
      → (publish_user_logged_in world now config event s).1.sessions ≡ s.sessions
  unfolding publish_user_logged_in
  publish-sessions config event s = ground arith

  open_session-Signs :
      (config : Config) (draw : Draw) (account_id chain_id : Text) (s : Store) (result : AuthResult)
      → (open_session world now config draw account_id chain_id s).0 ≡ ok result
      → Signs config draw account_id chain_id result
          (open_session world now config draw account_id chain_id s).1
  unfolding open_session
  open_session-Signs config draw account_id chain_id s result h =
      let ensured = world.ensure_user account_id (to_lower account_id) chain_id in
      let (user_id, user, rest, e) =
        bind-eq-ok_same (or_fail world now ensured user_failed) _ s
          (λ user_id. ensured ≡ some user_id) (λ _. or_fail-eq-ok world now ensured user_failed s)
          h in
      let linked = world.upsert_link user_id account_id (to_lower account_id) chain_id true in
      let (u, link, rest, e') =
        bind-eq-ok_same (require linked wallet_failed) _ s (λ _. linked ≡ true)
          (λ _. require-eq-ok linked _ s) rest in
      let session = new_session world now config draw user_id in
      let (u, created, rest, e'') = bind-eq-ok (create_session session) _ s rest in
      let s1 = (create_session session s).1 in
      let (pair, signed, rest, e''') =
        bind-eq-ok_same (generate_access_token world now user_id draw.session_id) _ s1
          (λ pair. Unit {0})
          (λ _ q. (tt, (generate_access_token-eq-ok world now user_id draw.session_id s1 q).1))
          rest in
      let event : AuthUserLoggedInEvent = record {
        user_id = user_id;
        account_id = account_id;
        address = to_lower account_id;
        chain_id = chain_id;
        session_id = draw.session_id;
        logged_in_at = now;
      } in
      let (u, published, rest, e4) =
        bind-eq-ok (publish_user_logged_in world now config event) _ s1 rest in
      let same : user_id ≡ result.user_id = ground (arith, rest) in
      let final : (open_session world now config draw account_id chain_id s).1.sessions
          ≡ session ∷ s.sessions =
        ap (λ (t : Store). t.sessions) (e ∙ e' ∙ e'' ∙ e''' ∙ e4)
        ∙ publish-sessions config event s1
        ∙ create_session-eq-ok session s created in
      record {
        user = user ∙ ap some same;
        wallet =
            subst
              (λ (v : Text).
                world.upsert_link v account_id (to_lower account_id) chain_id true ≡ true)
              same link;
        older = s.sessions;
        sessions = final ∙ ap (λ (v : Text). new_session world now config draw v ∷ s.sessions) same;
        token = ground (arith, rest);
        chain = ground (arith, rest);
      }

  -- A sign-in that succeeds had a parsed message of the account, unexpired and already valid, whose
  -- signature recovers the account; a row of its nonce for that account, chain and domain, unused
  -- and unexpired; a user and a wallet link; and it leaves a live session of the user for the hash
  -- of the refresh token, that expires in 24 hours.
  pub verify_siwe-Signs :
      (config : Config) (draw : Draw) (account_id message signature : Text) (s : Store)
      (result : AuthResult)
      → (verify_siwe world now config draw account_id message signature s).0 ≡ ok result
      → (m : SiweMessage) × Authentic world now account_id message signature m
        × Consumes account_id m s
        × Signs config draw account_id
            (chain_id_text m.chain_id)
            result
            (verify_siwe world now config draw account_id message signature s).1
  verify_siwe-Signs config draw account_id message signature s result h =
      let (m, authentic, (used, opened, e)) =
        verify_siwe-eq-ok world now config draw account_id message signature s h in
      let chain = chain_id_text m.chain_id in
      let s1 = (try_use_nonce now m.nonce account_id chain m.domain s).1 in
      (
        m,
        authentic,
        usable-Consumes account_id m s used,
        subst (Signs config draw account_id chain result) (sym e)
            (open_session-Signs config draw account_id chain s1 result opened),
      )

  -- An account that is not written in lower case never signs in, since its nonces are stored for
  -- the lower-case account.
  pub verify_siwe-refused_mixed_case :
      (faults : List Bool) (s : Store) (config : Config) (draw : Draw)
      (account_id message signature : Text)
      → Reach world (empty_store faults) s
      → account_id ≢ to_lower account_id
      → (result : AuthResult)
      → (verify_siwe world now config draw account_id message signature s).0 ≢ ok result
  verify_siwe-refused_mixed_case faults s config draw account_id message signature reach mixed
        result h =
      let (m, authentic, row, signs) =
        verify_siwe-Signs config draw account_id message signature s result h in
      let all_lower : AllLower s.nonces =
        Reach-keeps world (Nonces AllLower) AllLower-Stable reach
          (record { lower = λ r k. elim k [ ] }) in
      mixed
        (subst (λ (a : Text). a ≡ to_lower a) row.account (all_lower.lower row.row row.in_table))
