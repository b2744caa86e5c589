-- ===== src/Auth/Renewal.antt =====
-- Refresh, Logout and LogoutByRefreshToken against the sessions of the table.
use mathlib.Core.Bool.{false≢true}
use zuno_marketplace_api.Common.{
  ℕ, Text, ◌≡◌, ◌≢◌, refl, sym, ◌∙◌, ap, subst, Bool, true, false, not, List, map, Memᴰ, arith,
  length, ltb, ◌==◌, is_empty, text_eq_iff, ok, attempt, require, bind-eq-ok, bind-eq-ok_same,
  require-eq-ok, ◌<◌, ◌+◌, any-true, text_eq_refl,
}
use zuno_marketplace_api.Auth.Model.{
  AuthResult, Session, Store, token_required, token_malformed, session_expired, signing_failed,
  hour,
}
use zuno_marketplace_api.Auth.Sessions.{
  is_live, change_session, revoke, get_session_by_refresh_hash, update_session_last_used,
}
use zuno_marketplace_api.Auth.Service.{World}
use zuno_marketplace_api.Auth.SignIn.{hash_refresh_token, generate_access_token, claims, or_fail}
use zuno_marketplace_api.Auth.Tokens.{check_token, refresh, logout_by_refresh_token}
use zuno_marketplace_api.Auth.Closed.{
  Sessions, has_hash, OneHash, IsClosed, OneHash-Stable, IsClosed-Stable,
  get_session_by_refresh_hash-eq-ok, revoke_session-eq-ok, any_change, changed_from,
}
use zuno_marketplace_api.Auth.Replay.{empty_store, Reach, Reach-keeps, or_fail-eq-ok}

module _ (world : World) (now : ℕ) where
  check_token-eq-ok :
      (token : Text) (s : Store) {u : Unit {0}}
      → (check_token world now token s).0 ≡ ok u
      → ((length token == 64) ≡ true) × ((check_token world now token s).1 ≡ s)
  unfolding check_token
  check_token-eq-ok token s h =
      let (u, some_token, rest, e) =
        bind-eq-ok_same (require (not (is_empty token)) token_required) _ s
          (λ _. not (is_empty token) ≡ true) (λ _. require-eq-ok _ _ s) h in
      let (well, same) = require-eq-ok (length token == 64) token_malformed s rest in
      (well, e ∙ same)

  -- A token of 64 characters that finds a session.
  pub record Opens (token : Text) (store : Store) (user_id : Text) : Type 0 where
    pub well_formed : (length token == 64) ≡ true
    pub row : Session
    pub in_table : Memᴰ row store.sessions
    pub hash : row.refresh_hash ≡ hash_refresh_token world now token
    pub live : is_live row ≡ true
    pub unexpired : now < row.expires_at
    pub user : user_id ≡ row.user_id

  found-Opens :
      (token : Text) (store : Store) (session : Session)
      → (length token == 64) ≡ true
      → (get_session_by_refresh_hash now (hash_refresh_token world now token) store).0 ≡ ok session
      → Opens token store session.user_id
  found-Opens token store session well h =
      let hash = hash_refresh_token world now token in
      let (row, m, q, same, kept) = get_session_by_refresh_hash-eq-ok now hash store h in
      record {
        well_formed = well;
        row = row;
        in_table = m;
        hash = (text_eq_iff row.refresh_hash hash).0 (ground (arith, q));
        live = ground (arith, q);
        unexpired = ground (arith, q);
        user = ap (λ (s : Session). s.user_id) same;
      }

  pub generate_access_token-eq-ok :
      (user_id session_id : Text) (s : Store) {pair : Text × ℕ}
      → (generate_access_token world now user_id session_id s).0 ≡ ok pair
      → (pair.1 ≡ now + hour) × ((generate_access_token world now user_id session_id s).1 ≡ s)
  unfolding generate_access_token
  generate_access_token-eq-ok user_id session_id s {pair} h =
      let claimed = claims world now user_id session_id in
      let (token, u, rest, e) =
        bind-eq-ok_same (or_fail world now (world.sign_token claimed) signing_failed) _ s
          (λ _. Unit {0})
          (λ _ q. (tt, (or_fail-eq-ok world now (world.sign_token claimed) signing_failed s q).1))
          h in
      (ground (arith, rest), e)

  pub refresh-Opens :
      (token : Text) (store : Store) (result : AuthResult)
      → (refresh world now token store).0 ≡ ok result
      → Opens token store result.user_id
        × (result.refresh_token ≡ token)
        × (result.expires_at ≡ now + hour)
  unfolding refresh
  refresh-Opens token store result h =
      let hash = hash_refresh_token world now token in
      let (u, well, rest, e) =
        bind-eq-ok_same (check_token world now token) _ store (λ _. (length token == 64) ≡ true)
          (λ _. check_token-eq-ok token store) h in
      let (session, found, rest, e) =
        bind-eq-ok (get_session_by_refresh_hash now hash) _ store rest in
      let s1 = (get_session_by_refresh_hash now hash store).1 in
      let (u, fresh, rest, e) =
        bind-eq-ok_same (require (not (ltb session.expires_at now)) session_expired) _ s1
          (λ _. Unit {0}) (λ _ q. (tt, (require-eq-ok _ _ s1 q).1)) rest in
      let (r, touched, rest, e) =
        bind-eq-ok (attempt (update_session_last_used now session.id)) _ s1 rest in
      let s2 = (attempt (update_session_last_used now session.id) s1).1 in
      let (pair, (signed, hour_on), rest, e) =
        bind-eq-ok_same (generate_access_token world now session.user_id session.id) _ s2
          (λ pair. Unit {0} × (pair.1 ≡ now + hour))
          (λ pair q.
            let (expiry, same) = generate_access_token-eq-ok session.user_id session.id s2 q in
            ((tt, expiry), same))
          rest in
      let answer : session.user_id ≡ result.user_id = ground (arith, rest) in
      (
        subst (Opens token store) answer (found-Opens token store session well found),
        ground (arith, rest),
        ground (arith, rest, hour_on),
      )

  -- What a logout by token has run.
  logout_by_refresh_token-eq-ok :
      (token : Text) (store : Store) {u : Unit {0}}
      → (logout_by_refresh_token world now token store).0 ≡ ok u
      → (row : Session) × Memᴰ row store.sessions
        × (row.refresh_hash ≡ hash_refresh_token world now token)
        × (is_live row ≡ true)
        × ((logout_by_refresh_token world now token store).1.sessions
            ≡ map (change_session row.id (revoke now)) store.sessions)
  unfolding logout_by_refresh_token
  logout_by_refresh_token-eq-ok token store h =
      let hash = hash_refresh_token world now token in
      let (u, well, rest, e) =
        bind-eq-ok_same (check_token world now token) _ store (λ _. (length token == 64) ≡ true)
          (λ _. check_token-eq-ok token store) h in
      let (session, found, rest, e') =
        bind-eq-ok (get_session_by_refresh_hash now hash) _ store rest in
      let s1 = (get_session_by_refresh_hash now hash store).1 in
      let (row, m, q, same, kept) = get_session_by_refresh_hash-eq-ok now hash store found in
      let id : session.id ≡ row.id = ap (λ (s : Session). s.id) same in
      let after = revoke_session-eq-ok now session.id s1 rest in
      (
        row,
        m,
        (text_eq_iff row.refresh_hash hash).0 (ground (arith, q)),
        ground (arith, q),
        ap (λ (t : Store). t.sessions) (e ∙ e')
            ∙ after
            ∙ ap (map (change_session session.id (revoke now))) kept
            ∙ ap (λ (i : Text). map (change_session i (revoke now)) store.sessions) id,
      )

  -- From then on the session of the token is closed.
  logout_by_refresh_token-IsClosed :
      (token : Text) (store : Store) {u : Unit {0}}
      → OneHash store.sessions
      → (logout_by_refresh_token world now token store).0 ≡ ok u
      → IsClosed
          (hash_refresh_token world now token)
          (logout_by_refresh_token world now token store).1.sessions
  logout_by_refresh_token-IsClosed token store one h =
      let hash = hash_refresh_token world now token in
      let (row, m, e, live, after) = logout_by_refresh_token-eq-ok token store h in
      let same_hash : (r : Session) → (revoke now r).refresh_hash ≡ r.refresh_hash = λ r. refl in
      subst (IsClosed hash) (sym after) (record {
        known =
            any_change row.id (revoke now) same_hash hash store.sessions
              (any-true (has_hash hash) store.sessions m ((text_eq_iff row.refresh_hash hash).1 e));
        closed = λ r k q.
            let (y, n, p, v) = changed_from row.id (revoke now) same_hash store.sessions r k in
            let same : row ≡ y = one.same row y m n (e ∙ sym (v ∙ q)) in
            subst (λ (s : Session). is_live s ≡ false)
              (ap (change_session row.id (revoke now)) same ∙ p)
              (ground (arith, live, text_eq_refl row.id));
      })

module _ (world : World) where
  -- After a logout by token that succeeds, no later refresh with the token succeeds, whatever runs
  -- in between.
  pub refresh-refused_after_logout :
      (faults : List Bool) (before later : Store) (now now' : ℕ) (token : Text)
      → Reach world (empty_store faults) before
      → (logout_by_refresh_token world now token before).0 ≡ ok tt
      → Reach world (logout_by_refresh_token world now token before).1 later
      → (result : AuthResult) → (refresh world now' token later).0 ≢ ok result
  refresh-refused_after_logout faults before later now now' token reach out after result again =
      let hash = hash_refresh_token world now token in
      let one : OneHash before.sessions =
        Reach-keeps world (Sessions OneHash) OneHash-Stable reach
          (record { same = λ r r' k k' q. elim k [ ] }) in
      let closed = logout_by_refresh_token-IsClosed world now token before one out in
      let there =
        Reach-keeps world (Sessions (IsClosed hash)) (IsClosed-Stable hash) after closed in
      let found = (refresh-Opens world now' token later result again).0 in
      let same : hash_refresh_token world now' token ≡ hash = unfold hash_refresh_token in refl in
      false≢true (sym (there.closed found.row found.in_table (found.hash ∙ same)) ∙ found.live)
