-- ===== src/System/Rules.antt =====
-- What a relation that allows the statements of a transaction holds of: every request, whatever its
-- reply, and so every sequence of requests.
use growth_track.Effects.{
  Relation, Allows, AllowsEnds, Obeys, bind-Obeys, return-Obeys, query-Obeys, effects,
}
use growth_track.Effects.Messaging.{resolve-Obeys, active_consents-Obeys}
use growth_track.Effects.Jobs.{
  run_nightly_import-Obeys, run_daily_report_job-Obeys, run_retry-Obeys,
}
use growth_track.Effects.Routes.{
  route_create_user-Obeys, route_update_user-Obeys, route_remove_user-Obeys, route_grant-Obeys,
  route_revoke-Obeys, route_create_team-Obeys, route_update_team-Obeys, route_remove_team-Obeys,
  route_create_list-Obeys, route_update_list-Obeys, route_remove_list-Obeys,
  route_create_template-Obeys, route_update_template-Obeys, route_compose-Obeys,
}
use growth_track.Effects.AccountRoutes.{
  route_get_schedule-Obeys, route_update_schedule-Obeys, route_update_theme-Obeys,
  route_login-Obeys, route_logout-Obeys, route_bootstrap-Obeys, route_forgot-Obeys,
  route_reset-Obeys, route_webhook-Obeys, as_current-Obeys,
}
use growth_track.Session.{Session, World}
use growth_track.Models.{Notification}
use growth_track.Api.Replies.{Reply}
use growth_track.Auth.Sessions.{CurrentSession}
use growth_track.Persistence.Deliveries
use growth_track.Api.Auth as Auth
use growth_track.Api.Users as Users
use growth_track.Api.Teams as Teams
use growth_track.Api.RecipientLists as RecipientLists
use growth_track.Api.Notifications as Notifications
use growth_track.Api.Dashboard as Dashboard
use growth_track.System.{Setup, Action, Request, bare, act, handle, serve, serve_all}
use growth_track.Reports.Dashboard.{get_summary, get_brand_summary}
use growth_track.Notifications.Webhook.{latest_notification_status}
use growth_track.Prelude.{ℕ, String, Option, none, some, List, [], ◌∷◌}

module _ (R : Relation) (allowed : Allows R) (ends : AllowsEnds R) (s : Setup) where
  bare-Obeys : {A : Type 0} (m : Session (Reply A)) → Obeys R m → Obeys R (bare m)
  bare-Obeys m h = bind-Obeys R allowed m _ h (λ reply. return-Obeys R allowed _)

  me-Obeys : (current : CurrentSession) → Obeys R (Auth.me current)
  unfolding Auth.me
  me-Obeys current = search (effects)

  list_users-Obeys : Obeys R Users.list_users
  unfolding Users.list_users
  list_users-Obeys = search (effects, active_consents-Obeys) depth 20

  check_mobile-Obeys :
      (mobile : String) (exclude_user_id : Option ℕ)
      → Obeys R (Users.check_mobile_availability mobile exclude_user_id)
  unfolding Users.check_mobile_availability
  check_mobile-Obeys mobile exclude_user_id = search (effects) depth 20

  list_teams-Obeys : Obeys R Teams.list_teams
  unfolding Teams.list_teams
  list_teams-Obeys = search (effects) depth 20

  list_lists-Obeys : Obeys R RecipientLists.list_recipient_lists
  unfolding RecipientLists.list_recipient_lists
  list_lists-Obeys = search (effects) depth 20

  list_templates-Obeys : Obeys R Notifications.list_message_templates
  unfolding Notifications.list_message_templates
  list_templates-Obeys = search (effects) depth 20

  resolve_route-Obeys :
      (user_ids team_ids list_ids : List ℕ)
      → Obeys R (Notifications.resolve_recipients user_ids team_ids list_ids)
  unfolding Notifications.resolve_recipients
  resolve_route-Obeys user_ids team_ids list_ids = search (effects, resolve-Obeys) depth 20

  summary-Obeys : Obeys R (Dashboard.summary s.context s.env s.dhaka_day)
  unfolding Dashboard.summary get_summary
  summary-Obeys = search (effects) depth 40

  brands-Obeys : Obeys R (Dashboard.brand_performance s.context)
  unfolding Dashboard.brand_performance get_brand_summary
  brands-Obeys = search (effects) depth 40

  summary_of-Obeys : (o : Option Notification) → Obeys R (Deliveries.summary_of o)
  unfolding Deliveries.summary_of
  summary_of-Obeys none = return-Obeys R allowed _
  summary_of-Obeys (some n) = query-Obeys R allowed _

  status-Obeys : Obeys R (Dashboard.notification_status s.context)
  unfolding Dashboard.notification_status latest_notification_status
  status-Obeys = search (effects, summary_of-Obeys) depth 40

  status_only-Obeys : Obeys R Auth.bootstrap_status
  unfolding Auth.bootstrap_status
  status_only-Obeys = search (effects) depth 20

  act-Obeys : (action : Action) (current : CurrentSession) → Obeys R (act s action current)
  unfolding act
  act-Obeys Action.me current = bare-Obeys _ (me-Obeys current)
  act-Obeys Action.logout current = route_logout-Obeys R allowed ends _ _ current
  act-Obeys (Action.set_theme theme) current =
      bare-Obeys _ (route_update_theme-Obeys R allowed ends theme current)
  act-Obeys Action.list_users current = bare-Obeys _ list_users-Obeys
  act-Obeys Action.list_teams current = bare-Obeys _ list_teams-Obeys
  act-Obeys Action.list_recipient_lists current = bare-Obeys _ list_lists-Obeys
  act-Obeys Action.list_message_templates current = bare-Obeys _ list_templates-Obeys
  act-Obeys (Action.check_mobile_availability m e) current = bare-Obeys _ (check_mobile-Obeys m e)
  act-Obeys (Action.create_user name mobile role team_id) current =
      bare-Obeys _ (route_create_user-Obeys R allowed ends _ _ name mobile role team_id _)
  act-Obeys (Action.update_user id name mobile team_id version) current =
      bare-Obeys _ (route_update_user-Obeys R allowed ends _ _ id name mobile team_id version _)
  act-Obeys (Action.remove_user id) current = route_remove_user-Obeys R allowed ends _ _ id _
  act-Obeys (Action.grant_opt_in_consent id) current =
      bare-Obeys _ (route_grant-Obeys R allowed ends _ _ id _)
  act-Obeys (Action.revoke_opt_in_consent id) current = route_revoke-Obeys R allowed ends _ _ id _
  act-Obeys (Action.create_team name) current =
      bare-Obeys _ (route_create_team-Obeys R allowed ends _ _ name _)
  act-Obeys (Action.update_team id name version) current =
      bare-Obeys _ (route_update_team-Obeys R allowed ends _ _ id name version _)
  act-Obeys (Action.remove_team id) current = route_remove_team-Obeys R allowed ends _ _ id _
  act-Obeys (Action.create_recipient_list name kind members) current =
      bare-Obeys _ (route_create_list-Obeys R allowed ends _ _ name kind members _)
  act-Obeys (Action.update_recipient_list id name kind members version) current =
      bare-Obeys _ (route_update_list-Obeys R allowed ends _ _ id name kind members version _)
  act-Obeys (Action.remove_recipient_list id) current =
      route_remove_list-Obeys R allowed ends _ _ id _
  act-Obeys (Action.create_message_template name sid slots body) current =
      bare-Obeys _ (route_create_template-Obeys R allowed ends _ _ name sid slots body _)
  act-Obeys (Action.update_message_template id name sid slots body) current =
      bare-Obeys _ (route_update_template-Obeys R allowed ends _ _ id name sid slots body _)
  act-Obeys (Action.resolve_recipients user_ids team_ids list_ids) current =
      bare-Obeys _ (resolve_route-Obeys user_ids team_ids list_ids)
  act-Obeys (Action.compose_and_send id values user_ids team_ids list_ids) current =
      bare-Obeys _ (route_compose-Obeys R allowed ends _ _ _ id values user_ids team_ids list_ids _)
  act-Obeys Action.summary current = bare-Obeys _ summary-Obeys
  act-Obeys Action.brand_performance current = bare-Obeys _ brands-Obeys
  act-Obeys Action.notification_status current = bare-Obeys _ status-Obeys
  act-Obeys Action.get_report_schedule current =
      bare-Obeys _ (route_get_schedule-Obeys R allowed ends _)
  act-Obeys (Action.update_report_schedule hour minute) current =
      bare-Obeys _ (route_update_schedule-Obeys R allowed ends _ _ hour minute _)

  handle-Obeys : (request : Request) → Obeys R (handle s request)
  unfolding handle
  handle-Obeys (Request.login username password) =
      bare-Obeys _ (route_login-Obeys R allowed ends _ _ _ username password)
  handle-Obeys (Request.bootstrap username password) =
      bare-Obeys _ (route_bootstrap-Obeys R allowed ends _ _ username password)
  handle-Obeys Request.bootstrap_status = bare-Obeys _ status_only-Obeys
  handle-Obeys (Request.forgot_password username) = route_forgot-Obeys R allowed ends _ _ _ username
  handle-Obeys (Request.reset_password token new_password) =
      route_reset-Obeys R allowed ends _ _ token new_password
  handle-Obeys (Request.twilio_status params signature) =
      route_webhook-Obeys R allowed ends _ _ _ params signature
  handle-Obeys (Request.signed_in claims action) =
      as_current-Obeys R allowed ends (act s action) (act-Obeys action) claims
  handle-Obeys (Request.nightly_import source) =
      bind-Obeys R allowed _ _ (run_nightly_import-Obeys R allowed ends _ source)
        (λ u. return-Obeys R allowed _)
  handle-Obeys Request.daily_report =
      bind-Obeys R allowed _ _ (run_daily_report_job-Obeys R allowed ends _ _ _)
        (λ u. return-Obeys R allowed _)
  handle-Obeys Request.retry_failed_deliveries =
      bind-Obeys R allowed _ _ (run_retry-Obeys R allowed ends _ _ _)
        (λ u. return-Obeys R allowed _)

  pub serve-obeys : (request : Request) (w : World) → R w (serve s request w)
  unfolding serve
  serve-obeys request w =
      allowed.follows w (handle s request w).1 _ ((handle-Obeys request).obeys w)
        (ends.rolls_back (handle s request w).1)

  pub serve_all-obeys : (requests : List Request) (w : World) → R w (serve_all s requests w)
  unfolding serve_all
  serve_all-obeys [] w = allowed.stays w
  serve_all-obeys (request ∷ requests) w =
      allowed.follows w (serve s request w) _ (serve-obeys request w)
        (serve_all-obeys requests (serve s request w))
