-- ===== src/Api/Auth.antt =====
-- /auth (api/auth/routes.py) and the dependency of the other routes (api/auth/dependencies.py).
use growth_track.Models.{Role, ThemePreference, User}
use growth_track.Session.{Exc, Session, return, ◌>>=◌, ◌>>◌, commit, Env}
use growth_track.Api.Replies.{Reply, done, refused, HttpError, refuse_listed, answering}
use growth_track.Auth.Login as Login
use growth_track.Auth.Login.{LockoutPolicy}
use growth_track.Auth.PasswordReset as PasswordReset
use growth_track.Auth.Bootstrap as Bootstrap
use growth_track.Auth.Tokens.{TokenContext, create_access_token}
use growth_track.Auth.Sessions as Sessions
use growth_track.Auth.Sessions.{
  AccessTokenClaims, CurrentSession, Access, granted, unauthorized, deactivated,
  get_current_session,
}
use growth_track.Prelude.{ℕ, String, Bool, Option, none, some}

pub record UserResponse : Type 0 where
  pub id : ℕ
  pub username : Option String
  pub role : Role
  pub theme_preference : ThemePreference

abbrev pub to_user_response : User → UserResponse
to_user_response user = record {
  id = user.id;
  username = user.username;
  role = user.role;
  theme_preference = user.theme_preference;
}

-- Depends(get_current_session) and Depends(get_current_user), with the claims of the cookie.
abbrev pub when_granted :
    {A : Type 0} → (CurrentSession → Session (Reply A)) → Access → Session (Reply A)
when_granted route (granted current) = route current
when_granted route unauthorized = return (refused 401 "unauthorized")
when_granted route deactivated = return (refused 401 "account_deactivated")

abbrev pub as_current :
    {A : Type 0}
    → Option AccessTokenClaims
    → (CurrentSession → Session (Reply A))
    → Session (Reply A)
as_current claims route = do access ← get_current_session claims; when_granted route access

abbrev pub login_errors : Exc → Option HttpError
login_errors (Exc.account_locked seconds) = some (401, "account_locked")
login_errors Exc.invalid_credentials = some (401, "invalid_credentials")
login_errors e = none

abbrev pub bootstrap_errors : Exc → Option HttpError
bootstrap_errors Exc.bootstrap_already_complete = some (409, "administrator_exists")
bootstrap_errors e = none

abbrev pub reset_errors : Exc → Option HttpError
reset_errors Exc.invalid_reset_token = some (400, "invalid_reset_token")
reset_errors e = none

-- The theme of `replace(current_user, theme_preference=...)`.
abbrev pub with_theme : User → ThemePreference → UserResponse
with_theme user theme_preference = record (to_user_response user) {
  theme_preference = theme_preference;
}

unfoldable pub me : CurrentSession → Session (Reply UserResponse)
me current = return (done (to_user_response current.user))

unfoldable pub update_theme_preference :
    ThemePreference → CurrentSession → Session (Reply UserResponse)
update_theme_preference theme_preference current = do
  Sessions.update_theme_preference current.user.id theme_preference
  commit
  return (done (with_theme current.user theme_preference))

unfoldable pub bootstrap_status : Session (Reply Bool)
unfolding Bootstrap.is_required
bootstrap_status = do required ← Bootstrap.is_required; return (done required)

module _ (env : Env) (tokens : TokenContext) where
  -- The token is created before the commit.
  abbrev pub signed_in : User → Session (Reply (UserResponse × String))
  signed_in user = do
    token ← create_access_token tokens env user.id
    commit
    return (done (to_user_response user, token))

  unfoldable pub login : LockoutPolicy → String → String → Session (Reply (UserResponse × String))
  login policy username password =
      answering (λ e. refuse_listed (login_errors e)) signed_in
        (Login.login env policy username password)

  unfoldable pub logout : CurrentSession → Session (Reply (Unit {0}))
  logout current = do Sessions.logout env current.user.id current.jti; commit; return (done tt)

  unfoldable pub bootstrap : String → String → Session (Reply (UserResponse × String))
  bootstrap username password =
      answering (λ e. refuse_listed (bootstrap_errors e)) signed_in
        (Bootstrap.bootstrap env username password)

  -- The link of the token goes to the log; the reply is the same for every username.
  unfoldable pub forgot_password : ℕ → String → Session (Reply (Unit {0}))
  forgot_password token_ttl username = do
    raw_token ← PasswordReset.request_reset env token_ttl username
    commit
    return (done tt)

  unfoldable pub reset_password : String → String → Session (Reply (Unit {0}))
  reset_password token new_password =
      answering (λ e. refuse_listed (reset_errors e)) (λ u. commit >> return (done tt))
        (PasswordReset.complete_reset env token new_password)
