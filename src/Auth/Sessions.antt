-- ===== src/Auth/Sessions.antt =====
-- SessionService (domain/sessions.py), UserPreferenceService (domain/preferences.py) and the
-- checks of get_current_session (api/auth/dependencies.py).
pub mod Laws
use growth_track.Prelude.{ℕ, not, Option, none, some, if◌then◌else◌}
use growth_track.Models.{is_administrator, is_active_user, ThemePreference, User}
use growth_track.Session.{Session, return, external, ◌>>=◌, ◌>>◌, Env}
use growth_track.Persistence.Users
use growth_track.Persistence.Tokens
use growth_track.Directory.Audit.{audit_at}

-- The claims of an access token that has been decoded (api/auth/tokens.py).
pub record AccessTokenClaims : Type 0 where
  pub user_id : ℕ
  pub jti : ℕ

pub record CurrentSession : Type 0 where
  pub user : User
  pub jti : ℕ

-- The answers of the choke point: a session, 401 `unauthorized` or 401 `account_deactivated`.
pub data Access : Type 0 where
  granted : CurrentSession → Access
  unauthorized deactivated : Access

module _ (env : Env) where
  unfoldable pub logout : ℕ → ℕ → Session (Unit {0})
  unfolding Tokens.revoke audit_at
  logout user_id jti = do
    now ← external env.now
    Tokens.revoke jti now
    audit_at env now (some user_id) "logout" none none none

unfoldable pub update_theme_preference : ℕ → ThemePreference → Session (Unit {0})
unfolding Users.update_theme_preference
update_theme_preference user_id theme_preference =
    Users.update_theme_preference user_id theme_preference

unfoldable pub check_user : AccessTokenClaims → Option User → Session Access
unfolding Tokens.is_revoked
check_user claims none = return Access.unauthorized
check_user claims (some user) =
    if not (is_administrator user.role)
    then return Access.unauthorized
    else (if not (is_active_user user.status) then return Access.deactivated else (do
      revoked ← Tokens.is_revoked claims.jti
      return (
          if revoked
          then Access.unauthorized
          else Access.granted (record { user = user; jti = claims.jti }))))

-- `none` stands for a missing cookie, or for one that does not decode.
unfoldable pub get_current_session : Option AccessTokenClaims → Session Access
unfolding Users.get_by_id check_user
get_current_session none = return Access.unauthorized
get_current_session (some claims) = do user ← Users.get_by_id claims.user_id; check_user claims user
