-- ===== src/Effects/Accounts.antt =====
-- What the services of sign-in, password reset, bootstrap, sessions and schedule write
-- (domain/auth.py, password_reset.py, bootstrap.py, sessions.py, preferences.py,
-- report_schedule.py).
use growth_track.Effects.{
  Relation, Allows, Obeys, return-Obeys, raise-Obeys, bind-Obeys, effects, query-Obeys,
}
use growth_track.Effects.Directory.{audit_at-Obeys, audit_now-Obeys}
use growth_track.Session.{Exc, Env, Outcome, ok, raised}
use growth_track.Models.{User, ThemePreference, PasswordResetToken, ReportSchedule}
use growth_track.Persistence.Settings
use growth_track.Auth.Login as Login
use growth_track.Auth.Login.{LockoutPolicy}
use growth_track.Auth.PasswordReset as PasswordReset
use growth_track.Auth.Bootstrap as Bootstrap
use growth_track.Auth.Sessions as Sessions
use growth_track.Auth.Sessions.{AccessTokenClaims}
use growth_track.Schedule as Schedule
use growth_track.Prelude.{ℕ, String, Bool, Option, none, some}

module _ (R : Relation) (allowed : Allows R) where
  require_token-Obeys : (o : Option PasswordResetToken) → Obeys R (PasswordReset.require_token o)
  require_token-Obeys none = raise-Obeys R allowed _
  require_token-Obeys (some t) = return-Obeys R allowed t

  require_row-Obeys : (o : Option ReportSchedule) → Obeys R (Settings.require_row o)
  require_row-Obeys none = raise-Obeys R allowed _
  require_row-Obeys (some s) = return-Obeys R allowed s

  check_user-Obeys :
      (claims : AccessTokenClaims) (o : Option User) → Obeys R (Sessions.check_user claims o)
  unfolding Sessions.check_user
  check_user-Obeys claims none = return-Obeys R allowed _
  check_user-Obeys claims (some u) = search (effects) depth 20

  pub get_current_session-Obeys :
      (claims : Option AccessTokenClaims) → Obeys R (Sessions.get_current_session claims)
  unfolding Sessions.get_current_session
  get_current_session-Obeys none = return-Obeys R allowed _
  get_current_session-Obeys (some claims) =
      bind-Obeys R allowed _ _ (query-Obeys R allowed _) (check_user-Obeys claims)

  pub get_schedule-Obeys : Obeys R Schedule.get_schedule
  unfolding Schedule.get_schedule
  get_schedule-Obeys = search (effects, require_row-Obeys) depth 12

  pub update_theme-Obeys :
      (user_id : ℕ) (theme : ThemePreference)
      → Obeys R (Sessions.update_theme_preference user_id theme)
  unfolding Sessions.update_theme_preference
  update_theme-Obeys user_id theme = search (effects, allowed.users) depth 12

  module _ (env : Env) where
    pub set_from_page-Obeys :
        (offset hour minute actor : ℕ)
        → Obeys R (Schedule.set_from_page env offset hour minute actor)
    unfolding Schedule.set_from_page
    set_from_page-Obeys offset hour minute actor =
        search (effects, require_row-Obeys, audit_at-Obeys, allowed.report_schedules) depth 60

    pub logout-Obeys : (user_id jti : ℕ) → Obeys R (Sessions.logout env user_id jti)
    unfolding Sessions.logout
    logout-Obeys user_id jti = search (effects, audit_at-Obeys, allowed.revoke) depth 20

    issue_token-Obeys : (ttl : ℕ) (o : Option User) → Obeys R (PasswordReset.issue_token env ttl o)
    unfolding PasswordReset.issue_token
    issue_token-Obeys ttl none = return-Obeys R allowed none
    issue_token-Obeys ttl (some u) = search (effects, audit_at-Obeys, allowed.add_token) depth 30

    pub request_reset-Obeys :
        (ttl : ℕ) (username : String) → Obeys R (PasswordReset.request_reset env ttl username)
    unfolding PasswordReset.request_reset
    request_reset-Obeys ttl username = search (effects, issue_token-Obeys) depth 20

    pub complete_reset-Obeys :
        (raw_token new_password : String)
        → Obeys R (PasswordReset.complete_reset env raw_token new_password)
    unfolding PasswordReset.complete_reset
    complete_reset-Obeys raw_token new_password =
        search (effects, require_token-Obeys, audit_at-Obeys, allowed.mark_used, allowed.users)
          depth 60

    pub bootstrap-Obeys :
        (username password : String) → Obeys R (Bootstrap.bootstrap env username password)
    unfolding Bootstrap.bootstrap
    bootstrap-Obeys username password = search (effects, audit_now-Obeys, allowed.users) depth 60

    module _ (policy : LockoutPolicy) where
      check_lockout-Obeys :
          (user : User) (now : ℕ) (lock : Option ℕ)
          → Obeys R (Login.check_lockout env policy user now lock)
      unfolding Login.check_lockout
      check_lockout-Obeys user now none = return-Obeys R allowed user
      check_lockout-Obeys user now (some t) = search (effects, allowed.users) depth 30

      settle-Obeys :
          (user : User) (now : ℕ) (b : Bool) → Obeys R (Login.settle env policy user now b)
      unfolding Login.settle
      settle-Obeys user now b = search (effects, audit_at-Obeys, allowed.users) depth 40

      authenticate_user-Obeys :
          (password : String) (o : Option User)
          → Obeys R (Login.authenticate_user env policy password o)
      unfolding Login.authenticate_user
      authenticate_user-Obeys password none = return-Obeys R allowed none
      authenticate_user-Obeys password (some user) =
          search (effects, check_lockout-Obeys, settle-Obeys) depth 20

      authenticate-Obeys :
          (username password : String) → Obeys R (Login.authenticate env policy username password)
      unfolding Login.authenticate
      authenticate-Obeys username password = search (effects, authenticate_user-Obeys) depth 20

      finish_login-Obeys :
          (username : String) (o : Outcome (Option User))
          → Obeys R (Login.finish_login env policy username o)
      unfolding Login.finish_login
      finish_login-Obeys username (raised (Exc.account_locked seconds)) =
          search (effects, audit_now-Obeys) depth 20
      finish_login-Obeys username (raised e) = raise-Obeys R allowed e
      finish_login-Obeys username (ok none) = search (effects, audit_now-Obeys) depth 20
      finish_login-Obeys username (ok (some user)) = search (effects, audit_now-Obeys) depth 20

      pub login-Obeys :
          (username password : String) → Obeys R (Login.login env policy username password)
      unfolding Login.login
      login-Obeys username password = record {
        obeys = λ w.
            allowed.follows w _ _ ((authenticate-Obeys username password).obeys w)
              ((finish_login-Obeys username _).obeys _);
      }
