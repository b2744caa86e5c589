-- ===== src/Auth/Sessions.antt =====
-- The session operations of services/auth-service/internal/infrastructure/repository/repository.go,
-- over the table `sessions` of services/auth-service/db/up.sql.
use zuno_marketplace_api.Common.{
  ℕ, Text, Bool, true, false, ◌&&◌, ◌||◌, not, ◌∷◌, map, Option, none, some, if◌then◌else◌, ltb,
  any, find?, text_eq, Result, ok, err, Exec, pure, fail, ◌>>=◌,
}
use zuno_marketplace_api.Auth.Model.{Session, AuthError, Store, database_error, session_not_found}
use zuno_marketplace_api.Auth.Repo.{call}

abbrev pub is_live : Session → Bool
is_live row = elim row.revoked_at [ none ↦ true | some t ↦ false ]

abbrev pub clashes : Session → Session → Bool
clashes session row = text_eq row.id session.id || text_eq row.refresh_hash session.refresh_hash

-- The primary key, the unique index on refresh_hash and the CHECK on the expiry.
unfoldable pub insert_session : Session → Store → Result AuthError (Unit {0}) × Store
insert_session session store =
    if any (clashes session) store.sessions || not (ltb session.created_at session.expires_at)
    then (err database_error, store)
    else (ok tt, record store { sessions = session ∷ store.sessions })

unfoldable pub create_session : Session → Exec Store AuthError (Unit {0})
create_session session = call (insert_session session)

-- The columns that the queries return: the collection context is not among them.
abbrev pub scan_session : Option Session → Exec Store AuthError Session
scan_session none = fail session_not_found
scan_session (some row) = pure (record row { collection_intent_context = none })

unfoldable pub select_session : (Session → Bool) → Store → Result AuthError (Option Session) × Store
select_session p store = (ok (find? p store.sessions), store)

unfoldable pub get_session : Text → Exec Store AuthError Session
get_session session_id = do
  row ← call (select_session (λ row. text_eq row.id session_id && is_live row))
  scan_session row

abbrev pub is_open : ℕ → Text → Session → Bool
is_open now refresh_hash row =
    text_eq row.refresh_hash refresh_hash && (is_live row && ltb now row.expires_at)

unfoldable pub get_session_by_refresh_hash : ℕ → Text → Exec Store AuthError Session
get_session_by_refresh_hash now refresh_hash = do
  row ← call (select_session (is_open now refresh_hash))
  scan_session row

abbrev pub is_live_session : Text → Session → Bool
is_live_session session_id row = text_eq row.id session_id && is_live row

abbrev pub change_session : Text → (Session → Session) → Session → Session
change_session session_id change row = if is_live_session session_id row then change row else row

-- UPDATE sessions … WHERE session_id = $1 AND revoked_at IS NULL; no row is an error.
unfoldable pub update_session :
    Text → (Session → Session) → Store → Result AuthError (Unit {0}) × Store
update_session session_id change store =
    if any (is_live_session session_id) store.sessions
    then (ok tt, record store { sessions = map (change_session session_id change) store.sessions })
    else (err session_not_found, store)

abbrev pub touch : ℕ → Session → Session
touch now row = record row { last_used_at = some now }

abbrev pub revoke : ℕ → Session → Session
revoke now row = record row { revoked_at = some now }

unfoldable pub update_session_last_used : ℕ → Text → Exec Store AuthError (Unit {0})
update_session_last_used now session_id = call (update_session session_id (touch now))

unfoldable pub revoke_session : ℕ → Text → Exec Store AuthError (Unit {0})
revoke_session now session_id = call (update_session session_id (revoke now))
