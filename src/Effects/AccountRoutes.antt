-- ===== src/Effects/AccountRoutes.antt =====
-- What the routes of accounts, settings and callbacks write (api/auth/, api/settings/, api/webhooks/).
use growth_track.Effects.Replies.{routes}
use growth_track.Effects.{
  Relation, Allows, AllowsEnds, Obeys, return-Obeys, bind-Obeys, effects, ending,
}
use growth_track.Effects.Accounts.{
  get_current_session-Obeys, get_schedule-Obeys, set_from_page-Obeys, logout-Obeys, login-Obeys,
  request_reset-Obeys, complete_reset-Obeys, bootstrap-Obeys, update_theme-Obeys,
}
use growth_track.Effects.Messaging.{apply_status_update-Obeys}
use growth_track.Session.{Exc, Session, Env}
use growth_track.Models.{User, ThemePreference, WebhookOutcome}
use growth_track.Auth.Login.{LockoutPolicy}
use growth_track.Auth.Sessions.{
  AccessTokenClaims, CurrentSession, Access, granted, unauthorized, deactivated,
}
use growth_track.Auth.Tokens.{TokenContext, create_access_token}
use growth_track.Api.Replies.{Reply}
use growth_track.Api.Settings as Settings
use growth_track.Api.Auth as Auth
use growth_track.Api.Webhooks as Webhooks
use growth_track.Api.Webhooks.{Params}
use growth_track.Prelude.{ℕ, String, Bool, true, false, Option, none, some}

module _ (R : Relation) (allowed : Allows R) (ends : AllowsEnds R) where
  schedule_failed-Obeys : (e : Exc) → Obeys R (Settings.failed e)
  schedule_failed-Obeys Exc.invalid_schedule_fields = search (ending)
  schedule_failed-Obeys e = search (ending)

  pub route_get_schedule-Obeys : (offset : ℕ) → Obeys R (Settings.get_report_schedule offset)
  unfolding Settings.get_report_schedule
  route_get_schedule-Obeys offset =
      search (routes, schedule_failed-Obeys, get_schedule-Obeys) depth 40

  pub route_update_schedule-Obeys :
      (env : Env) (offset hour minute actor : ℕ)
      → Obeys R (Settings.update_report_schedule env offset hour minute actor)
  unfolding Settings.update_report_schedule
  route_update_schedule-Obeys env offset hour minute actor =
      search (routes, schedule_failed-Obeys, set_from_page-Obeys) depth 40

  pub route_update_theme-Obeys :
      (theme : ThemePreference) (current : CurrentSession)
      → Obeys R (Auth.update_theme_preference theme current)
  unfolding Auth.update_theme_preference
  route_update_theme-Obeys theme current = search (ending, update_theme-Obeys) depth 40

  module _ (env : Env) (tokens : TokenContext) where
    create_access_token-Obeys : (user_id : ℕ) → Obeys R (create_access_token tokens env user_id)
    unfolding create_access_token
    create_access_token-Obeys user_id = search (effects) depth 12

    signed_in-Obeys : (user : User) → Obeys R (Auth.signed_in env tokens user)
    signed_in-Obeys user = search (ending, create_access_token-Obeys) depth 12

    pub route_login-Obeys :
        (policy : LockoutPolicy) (username password : String)
        → Obeys R (Auth.login env tokens policy username password)
    unfolding Auth.login
    route_login-Obeys policy username password =
        search (routes, signed_in-Obeys, login-Obeys) depth 40

    pub route_logout-Obeys : (current : CurrentSession) → Obeys R (Auth.logout env tokens current)
    unfolding Auth.logout
    route_logout-Obeys current = search (ending, logout-Obeys) depth 40

    pub route_bootstrap-Obeys :
        (username password : String) → Obeys R (Auth.bootstrap env tokens username password)
    unfolding Auth.bootstrap
    route_bootstrap-Obeys username password =
        search (routes, signed_in-Obeys, bootstrap-Obeys) depth 40

    pub route_forgot-Obeys :
        (ttl : ℕ) (username : String) → Obeys R (Auth.forgot_password env tokens ttl username)
    unfolding Auth.forgot_password
    route_forgot-Obeys ttl username = search (ending, request_reset-Obeys) depth 40

    pub route_reset-Obeys :
        (token new_password : String) → Obeys R (Auth.reset_password env tokens token new_password)
    unfolding Auth.reset_password
    route_reset-Obeys token new_password = search (routes, complete_reset-Obeys) depth 40

  module _ (env : Env) (budget : ℕ) where
    apply_if_final-Obeys :
        (params : Params) (o : Option WebhookOutcome)
        → Obeys R (Webhooks.apply_if_final env budget params o)
    apply_if_final-Obeys params none = return-Obeys R allowed _
    apply_if_final-Obeys params (some outcome) = search (routes, apply_status_update-Obeys) depth 30

    if_verified-Obeys :
        (b : Bool) (m : Session (Reply (Unit {0})))
        → Obeys R m
        → Obeys R (Webhooks.if_verified env budget b m)
    if_verified-Obeys true m h = h
    if_verified-Obeys false m h = return-Obeys R allowed _

    pub route_webhook-Obeys :
        (verified : Params → String → Bool) (params : Params) (signature : String)
        → Obeys R (Webhooks.twilio_status_webhook env budget verified params signature)
    unfolding Webhooks.twilio_status_webhook
    route_webhook-Obeys verified params signature =
        if_verified-Obeys _ _ (apply_if_final-Obeys params _)

  module _ {A : Type 0} (route : CurrentSession → Session (Reply A))
      (h : (current : CurrentSession) → Obeys R (route current)) where
    when_granted-Obeys : (access : Access) → Obeys R (Auth.when_granted route access)
    when_granted-Obeys (granted current) = h current
    when_granted-Obeys unauthorized = return-Obeys R allowed _
    when_granted-Obeys deactivated = return-Obeys R allowed _

    pub as_current-Obeys :
        (claims : Option AccessTokenClaims) → Obeys R (Auth.as_current claims route)
    as_current-Obeys claims =
        bind-Obeys R allowed _ _ (get_current_session-Obeys R allowed claims) when_granted-Obeys
