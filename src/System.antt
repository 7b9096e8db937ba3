-- ===== src/System.antt =====
-- The program as a whole: the requests that api/main.py routes and the jobs that scheduler/main.py
-- registers, each in a session of its own, and what a sequence of them leaves.
pub mod Rules
pub mod Stable
pub mod AuditLog
pub mod DailyReport
pub mod SignOut
pub mod ResetTokens
use growth_track.Models.{Role, RecipientListKind, ThemePreference}
use growth_track.Session.{Session, return, ◌>>=◌, World, Env}
use growth_track.Persistence.Deliveries.{Backoff}
use growth_track.Ingestion.Source.{Source}
use growth_track.Reports.{Context}
use growth_track.Notifications.Compose.{VariableValues}
use growth_track.Auth.Login.{LockoutPolicy}
use growth_track.Auth.Tokens.{TokenContext}
use growth_track.Auth.Sessions.{AccessTokenClaims, CurrentSession}
use growth_track.Api.Replies.{Reply, done, refused, conflict, server_error}
use growth_track.Api.Auth as Auth
use growth_track.Api.Users as Users
use growth_track.Api.Teams as Teams
use growth_track.Api.RecipientLists as RecipientLists
use growth_track.Api.Notifications as Notifications
use growth_track.Api.Dashboard as Dashboard
use growth_track.Api.Settings as Settings
use growth_track.Api.Webhooks as Webhooks
use growth_track.Api.Webhooks.{Params}
use growth_track.Scheduler as Scheduler
use growth_track.Prelude.{ℕ, String, Bool, Option, List, [], ◌∷◌}

-- The settings (config.py), and what lies outside the repository.
pub record Setup : Type 0 where
  pub env : Env
  pub context : Context
  pub policy : LockoutPolicy
  pub password_reset_token_ttl : ℕ
  pub offset : ℕ
  pub dhaka_day : ℕ → ℕ
  pub backoff : Backoff
  pub races : ℕ → Bool
  pub tokens : TokenContext
  pub verified : Params → String → Bool

-- The routes behind the session check.
pub data Action : Type 0 where
  me logout : Action
  set_theme : ThemePreference → Action
  list_users list_teams list_recipient_lists list_message_templates : Action
  check_mobile_availability : String → Option ℕ → Action
  create_user : String → String → Role → ℕ → Action
  update_user : ℕ → String → String → ℕ → ℕ → Action
  remove_user grant_opt_in_consent revoke_opt_in_consent : ℕ → Action
  create_team : String → Action
  update_team : ℕ → String → ℕ → Action
  remove_team : ℕ → Action
  create_recipient_list : String → RecipientListKind → List ℕ → Action
  update_recipient_list : ℕ → String → RecipientListKind → List ℕ → ℕ → Action
  remove_recipient_list : ℕ → Action
  create_message_template : String → String → List String → String → Action
  update_message_template : ℕ → String → String → List String → String → Action
  resolve_recipients : List ℕ → List ℕ → List ℕ → Action
  compose_and_send : ℕ → VariableValues → List ℕ → List ℕ → List ℕ → Action
  summary brand_performance notification_status get_report_schedule : Action
  update_report_schedule : ℕ → ℕ → Action

-- The open routes, the others with the claims of the cookie, and the jobs.
pub data Request : Type 0 where
  login bootstrap : String → String → Request
  bootstrap_status : Request
  forgot_password : String → Request
  reset_password : String → String → Request
  twilio_status : Params → String → Request
  signed_in : Option AccessTokenClaims → Action → Request
  nightly_import : Source → Request
  daily_report retry_failed_deliveries : Request

-- A reply without its body.
abbrev pub without_body : {A : Type 0} → Reply A → Reply (Unit {0})
without_body (done a) = done tt
without_body (refused status code) = refused status code
without_body (conflict a) = conflict tt
without_body server_error = server_error

abbrev pub bare : {A : Type 0} → Session (Reply A) → Session (Reply (Unit {0}))
bare m = do reply ← m; return (without_body reply)

module _ (s : Setup) where
  unfoldable pub act : Action → CurrentSession → Session (Reply (Unit {0}))
  act Action.me current = bare (Auth.me current)
  act Action.logout current = Auth.logout s.env s.tokens current
  act (set_theme theme) current = bare (Auth.update_theme_preference theme current)
  act Action.list_users current = bare Users.list_users
  act Action.list_teams current = bare Teams.list_teams
  act Action.list_recipient_lists current = bare RecipientLists.list_recipient_lists
  act Action.list_message_templates current = bare Notifications.list_message_templates
  act (check_mobile_availability mobile exclude_user_id) current =
      bare (Users.check_mobile_availability mobile exclude_user_id)
  act (create_user name mobile role team_id) current =
      bare (Users.create_user s.env s.races name mobile role team_id current.user.id)
  act (update_user user_id name mobile team_id version) current =
      bare (Users.update_user s.env s.races user_id name mobile team_id version current.user.id)
  act (remove_user user_id) current = Users.remove_user s.env s.races user_id current.user.id
  act (grant_opt_in_consent user_id) current =
      bare (Users.grant_opt_in_consent s.env s.races user_id current.user.id)
  act (revoke_opt_in_consent user_id) current =
      Users.revoke_opt_in_consent s.env s.races user_id current.user.id
  act (create_team name) current = bare (Teams.create_team s.env s.races name current.user.id)
  act (update_team team_id name version) current =
      bare (Teams.update_team s.env s.races team_id name version current.user.id)
  act (remove_team team_id) current = Teams.remove_team s.env s.races team_id current.user.id
  act (create_recipient_list name kind member_user_ids) current =
      bare (
        RecipientLists.create_recipient_list s.env s.races name kind member_user_ids
          current.user.id)
  act (update_recipient_list recipient_list_id name kind member_user_ids version) current = bare (
      RecipientLists.update_recipient_list s.env s.races recipient_list_id name kind member_user_ids
        version current.user.id)
  act (remove_recipient_list recipient_list_id) current =
      RecipientLists.remove_recipient_list s.env s.races recipient_list_id current.user.id
  act (create_message_template name content_sid variable_slots body) current = bare (
      Notifications.create_message_template s.env s.races name content_sid variable_slots body
        current.user.id)
  act (update_message_template template_id name content_sid variable_slots body) current = bare (
      Notifications.update_message_template s.env s.races template_id name content_sid
        variable_slots body current.user.id)
  act (resolve_recipients user_ids team_ids recipient_list_ids) current =
      bare (Notifications.resolve_recipients user_ids team_ids recipient_list_ids)
  act (compose_and_send template_id values user_ids team_ids recipient_list_ids) current = bare (
      Notifications.compose_and_send_notification s.env s.races s.context.max_retry_attempts
        template_id values user_ids team_ids recipient_list_ids current.user.id)
  act Action.summary current = bare (Dashboard.summary s.context s.env s.dhaka_day)
  act Action.brand_performance current = bare (Dashboard.brand_performance s.context)
  act Action.notification_status current = bare (Dashboard.notification_status s.context)
  act Action.get_report_schedule current = bare (Settings.get_report_schedule s.offset)
  act (update_report_schedule send_hour send_minute) current =
      bare (Settings.update_report_schedule s.env s.offset send_hour send_minute current.user.id)

  unfoldable pub handle : Request → Session (Reply (Unit {0}))
  unfolding act
  handle (login username password) = bare (Auth.login s.env s.tokens s.policy username password)
  handle (bootstrap username password) = bare (Auth.bootstrap s.env s.tokens username password)
  handle bootstrap_status = bare Auth.bootstrap_status
  handle (forgot_password username) =
      Auth.forgot_password s.env s.tokens s.password_reset_token_ttl username
  handle (reset_password token new_password) = Auth.reset_password s.env s.tokens token new_password
  handle (twilio_status params signature) =
      Webhooks.twilio_status_webhook s.env s.context.max_retry_attempts s.verified params signature
  handle (signed_in claims action) = Auth.as_current claims (act action)
  handle (nightly_import source) = do
    result ← Scheduler.run_nightly_import s.env source
    return (done tt)
  handle daily_report = do
    result ← Scheduler.run_daily_report_job s.context s.env s.dhaka_day
    return (done tt)
  handle retry_failed_deliveries = do
    result ← Scheduler.run_retry_failed_deliveries s.context s.env s.backoff
    return (done tt)

  -- `async with session_factory() as session`: closing discards what was not committed.
  unfoldable pub serve : Request → World → World
  unfolding handle
  serve request w = let (reply, v) = handle request w in record v { db = v.committed }

  unfoldable pub serve_all : List Request → World → World
  unfolding serve
  serve_all [] w = w
  serve_all (request ∷ requests) w = serve_all requests (serve request w)
