-- ===== src/Auth/Closed.antt =====
-- Sessions by their refresh hash: unique, and closed for good once they are revoked.
use mathlib.Core.List.Memᴰ
use zuno_marketplace_api.Common.{
  ℕ, Text, ◌≡◌, ◌≢◌, refl, sym, ◌∙◌, ap, subst, ◌⊎◌, inl, inr, Bool, true, false, List, [], ◌∷◌,
  map, Memᴰ, Option, none, some, arith, Bool-cases, any, any-false, find?, find?-some, text_eq,
  text_eq_iff, Result, ok, bind-eq-ok,
}
use zuno_marketplace_api.Auth.Model.{AuthError, NonceRow, Session, Store}
use zuno_marketplace_api.Auth.Repo.{call}
use zuno_marketplace_api.Auth.Sessions.{
  is_live, clashes, is_live_session, change_session, touch, revoke, is_open, select_session,
  scan_session, get_session_by_refresh_hash, update_session, revoke_session,
}
use zuno_marketplace_api.Auth.Calls.{next, call-eq-ok}
use zuno_marketplace_api.Auth.Tables.{Stable}

abbrev pub has_hash : Text → Session → Bool
has_hash hash row = text_eq row.refresh_hash hash

-- The unique index on refresh_hash.
pub record OneHash (sessions : List Session) : Type 0 where
  pub same :
      (r r' : Session)
      → Memᴰ r sessions
      → Memᴰ r' sessions
      → r.refresh_hash ≡ r'.refresh_hash
      → r ≡ r'

-- The hash is in the table, and every session of it is revoked.
pub record IsClosed (hash : Text) (sessions : List Session) : Type 0 where
  pub known : any (has_hash hash) sessions ≡ true
  pub closed : (row : Session) → Memᴰ row sessions → row.refresh_hash ≡ hash → is_live row ≡ false

module _ (row : Session) (sessions : List Session)
    (fresh : any (clashes row) sessions ≡ false) where
  fresh_hash : (r : Session) → Memᴰ r sessions → r.refresh_hash ≢ row.refresh_hash
  fresh_hash r m e =
      let miss = any-false (clashes row) sessions fresh m in
      absurd (ground (arith, miss, text_eq_iff r.refresh_hash row.refresh_hash))

  OneHash-open : OneHash sessions → OneHash (row ∷ sessions)
  OneHash-open o = record {
    same = λ r r' m m' e. pair r r' (Memᴰ.cases_cons m) (Memᴰ.cases_cons m') e;
  }
    where
      pair :
          (r r' : Session)
          → (r ≡ row) ⊎ Memᴰ r sessions
          → (r' ≡ row) ⊎ Memᴰ r' sessions
          → r.refresh_hash ≡ r'.refresh_hash
          → r ≡ r'
      pair r r' (inl q) (inl q') e = q ∙ sym q'
      pair r r' (inl q) (inr m') e =
          absurd (fresh_hash r' m' (sym e ∙ ap (λ (s : Session). s.refresh_hash) q))
      pair r r' (inr m) (inl q') e =
          absurd (fresh_hash r m (e ∙ ap (λ (s : Session). s.refresh_hash) q'))
      pair r r' (inr m) (inr m') e = o.same r r' m m' e

  IsClosed-open : (hash : Text) → IsClosed hash sessions → IsClosed hash (row ∷ sessions)
  IsClosed-open hash c = record {
    known = ground (arith, c.known);
    closed = λ r m e. still r (Memᴰ.cases_cons m) e;
  }
    where
      witness_of :
          (l : List Session)
          → any (has_hash hash) l ≡ true
          → (r : Session) × Memᴰ r l × (r.refresh_hash ≡ hash)
      witness_of [] h = cc
      witness_of (x ∷ l) h = elim (Bool-cases (has_hash hash x)) [
        | inl hit ↦ (x, Memᴰ.head refl, (text_eq_iff x.refresh_hash hash).0 hit)
        | inr miss ↦ let (r, m, e) = witness_of l (ground (arith, h)) in (r, Memᴰ.tail m, e)
      ]

      still :
          (r : Session) → (r ≡ row) ⊎ Memᴰ r sessions → r.refresh_hash ≡ hash → is_live r ≡ false
      still r (inl q) e =
          let (y, m, v) = witness_of sessions c.known in
          absurd (fresh_hash y m (v ∙ sym e ∙ ap (λ (s : Session). s.refresh_hash) q))
      still r (inr m) e = c.closed r m e

-- An update of a live session that leaves its hash and does not bring a session back.
module _ (id : Text) (change : Session → Session)
    (same_hash : (r : Session) → (change r).refresh_hash ≡ r.refresh_hash) where
  change_hash : (r : Session) → (change_session id change r).refresh_hash ≡ r.refresh_hash
  change_hash r = ground (arith, same_hash r)

  change_closed : (r : Session) → is_live r ≡ false → is_live (change_session id change r) ≡ false
  change_closed r h = ground (arith, h)

  pub any_change :
      (hash : Text) (sessions : List Session)
      → any (has_hash hash) sessions ≡ true
      → any (has_hash hash) (map (change_session id change) sessions) ≡ true
  any_change hash [] h = h
  any_change hash (x ∷ l) h = rw (change_hash x) (ground (arith, any_change hash l))

  pub changed_from :
      (sessions : List Session) (r : Session)
      → Memᴰ r (map (change_session id change) sessions)
      → (y : Session) × Memᴰ y sessions
        × (change_session id change y ≡ r)
        × (y.refresh_hash ≡ r.refresh_hash)
  changed_from sessions r m =
      let (y, k, q) = Memᴰ.of_map (change_session id change) sessions m in
      (y, k, q, sym (change_hash y) ∙ ap (λ (s : Session). s.refresh_hash) q)

  OneHash-change :
      (sessions : List Session)
      → OneHash sessions
      → OneHash (map (change_session id change) sessions)
  OneHash-change sessions o = record {
    same = λ r r' m m' e.
        let (y, k, q, v) = changed_from sessions r m in
        let (y', k', q', v') = changed_from sessions r' m' in
        sym q ∙ ap (change_session id change) (o.same y y' k k' (v ∙ e ∙ sym v')) ∙ q';
  }

  IsClosed-change :
      (hash : Text) (sessions : List Session)
      → IsClosed hash sessions
      → IsClosed hash (map (change_session id change) sessions)
  IsClosed-change hash sessions c = record {
    known = any_change hash sessions c.known;
    closed = λ r m e.
        let (y, k, q, v) = changed_from sessions r m in
        subst (λ (s : Session). is_live s ≡ false) q (change_closed y (c.closed y k (v ∙ e)));
  }

-- A claim about the sessions alone.
abbrev pub Sessions : (List Session → Type 0) → List NonceRow → List Session → Type 0
Sessions P rows sessions = P sessions

pub OneHash-Stable : Stable (Sessions OneHash)
OneHash-Stable = record {
  inserted = λ row rows sessions fresh fits o. o;
  consumed = λ now p rows sessions o. o;
  opened = λ session rows sessions. OneHash-open session sessions;
  touched = λ now id rows sessions. OneHash-change id (touch now) (λ r. refl) sessions;
  revoked = λ now id rows sessions. OneHash-change id (revoke now) (λ r. refl) sessions;
}

pub IsClosed-Stable : (hash : Text) → Stable (Sessions (IsClosed hash))
IsClosed-Stable hash = record {
  inserted = λ row rows sessions fresh fits c. c;
  consumed = λ now p rows sessions c. c;
  opened = λ session rows sessions fresh. IsClosed-open session sessions fresh hash;
  touched = λ now id rows sessions. IsClosed-change id (touch now) (λ r. refl) hash sessions;
  revoked = λ now id rows sessions. IsClosed-change id (revoke now) (λ r. refl) hash sessions;
}

scan_session-eq-ok :
    (o : Option Session) (s : Store) {session : Session}
    → (scan_session o s).0 ≡ ok session
    → (row : Session) × (o ≡ some row)
      × (session ≡ record row { collection_intent_context = none })
      × ((scan_session o s).1 ≡ s)
scan_session-eq-ok none s h = cc
scan_session-eq-ok (some row) s h = (row, refl, ground (arith, h), refl)

-- The session that a refresh hash finds: it is in the table, live, unexpired and of that hash.
pub get_session_by_refresh_hash-eq-ok :
    (now : ℕ) (hash : Text) (store : Store) {session : Session}
    → (get_session_by_refresh_hash now hash store).0 ≡ ok session
    → (row : Session) × Memᴰ row store.sessions
      × (is_open now hash row ≡ true)
      × (session ≡ record row { collection_intent_context = none })
      × ((get_session_by_refresh_hash now hash store).1.sessions ≡ store.sessions)
unfolding get_session_by_refresh_hash
get_session_by_refresh_hash-eq-ok now hash store {session} h =
    let find_it = select_session (is_open now hash) in
    let (o, ho, rest, e) = bind-eq-ok (call find_it) scan_session store h in
    let (ran, same) = call-eq-ok find_it store ho in
    let found : find? (is_open now hash) store.sessions ≡ o =
      unfold select_session in ground (arith, ran) in
    let (row, some_row, session', kept) = scan_session-eq-ok o (call find_it store).1 rest in
    let (m, q) = find?-some (is_open now hash) store.sessions (found ∙ some_row) in
    let left : (call find_it store).1.sessions ≡ store.sessions =
      ap (λ (r : Result AuthError (Option Session) × Store). r.1.sessions) same
      ∙ (unfold select_session in refl) in
    (row, m, q, session', ap (λ (t : Store). t.sessions) (e ∙ kept) ∙ left)

update_session-eq-ok :
    (id : Text) (change : Session → Session) (store : Store) {u : Unit {0}}
    → (update_session id change store).0 ≡ ok u
    → (update_session id change store).1.sessions ≡ map (change_session id change) store.sessions
unfolding update_session
update_session-eq-ok id change store h =
    elim (Bool-cases (any (is_live_session id) store.sessions)) [
      | inl live ↦ rw live refl
      | inr gone ↦ absurd (ground (arith, h, gone))
    ]

-- A revocation that succeeds has updated the live sessions of the id.
pub revoke_session-eq-ok :
    (now : ℕ) (id : Text) (store : Store) {u : Unit {0}}
    → (revoke_session now id store).0 ≡ ok u
    → (revoke_session now id store).1.sessions ≡ map (change_session id (revoke now)) store.sessions
unfolding revoke_session
revoke_session-eq-ok now id store h =
    let (ran, same) = call-eq-ok (update_session id (revoke now)) store h in
    ap (λ (r : Result AuthError (Unit {0}) × Store). r.1.sessions) same
    ∙ update_session-eq-ok id (revoke now) (next store) ran
