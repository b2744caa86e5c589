-- ===== src/Auth/Tokens.antt =====
-- Refresh, Logout and LogoutByRefreshToken of services/auth-service/internal/service/service.go.
use zuno_marketplace_api.Common.{
  ℕ, Text, not, [], length, ltb, ◌==◌, is_empty, Exec, pure, attempt, require, ◌>>=◌, ◌>>◌,
}
use zuno_marketplace_api.Auth.Model.{
  AuthResult, AuthError, Store, token_required, token_malformed, session_expired,
  session_id_required, session_id_malformed,
}
use zuno_marketplace_api.Auth.Sessions.{
  get_session_by_refresh_hash, update_session_last_used, revoke_session,
}
use zuno_marketplace_api.Auth.Service.{World}
use zuno_marketplace_api.Auth.SignIn.{hash_refresh_token, generate_access_token}

module _ (world : World) (now : ℕ) where
  unfoldable pub check_token : Text → Exec Store AuthError (Unit {0})
  check_token refresh_token = do
    require (not (is_empty refresh_token)) token_required
    require (length refresh_token == 64) token_malformed

  unfoldable pub refresh : Text → Exec Store AuthError AuthResult
  refresh refresh_token = do
    check_token refresh_token
    session ← get_session_by_refresh_hash now (hash_refresh_token world now refresh_token)
    require (not (ltb session.expires_at now)) session_expired
    _ ← attempt (update_session_last_used now session.id)
    (access_token, expires_at) ← generate_access_token world now session.user_id session.id
    pure (record {
      access_token = access_token;
      refresh_token = refresh_token;
      expires_at = expires_at;
      user_id = session.user_id;
      address = [];
      chain_id = [];
    })

  unfoldable pub logout : Text → Exec Store AuthError (Unit {0})
  logout session_id = do
    require (not (is_empty session_id)) session_id_required
    require (world.is_uuid session_id) session_id_malformed
    revoke_session now session_id

  unfoldable pub logout_by_refresh_token : Text → Exec Store AuthError (Unit {0})
  logout_by_refresh_token refresh_token = do
    check_token refresh_token
    session ← get_session_by_refresh_hash now (hash_refresh_token world now refresh_token)
    revoke_session now session.id
