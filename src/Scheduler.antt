-- ===== src/Scheduler.antt =====
-- The jobs of the scheduler process (scheduler/main.py). A job opens a session of its own; closing
-- the session discards what was not committed.
pub mod Laws
use growth_track.Models.{User, MessageTemplate, Notification, NotificationDelivery}
use growth_track.Session.{
  Session, return, external, ◌>>=◌, ◌>>◌, commit, rollback, Env, Outcome, ok, raised,
}
use growth_track.Ingestion.Source.{Source}
use growth_track.Ingestion.Run
use growth_track.Reports.{Context}
use growth_track.Reports.Scheduled.{run_daily_report}
use growth_track.Schedule.{should_run_daily_report}
use growth_track.Persistence.Settings
use growth_track.Persistence.Deliveries
use growth_track.Persistence.Deliveries.{Backoff}
use growth_track.Persistence.Notifications
use growth_track.Persistence.Templates
use growth_track.Persistence.Users
use growth_track.Notifications.Dispatch.{dispatch_deliveries}
use growth_track.Prelude.{ℕ, String, Bool, true, false, Option, none, some, List, [], ◌∷◌}

-- `async with session_factory() as session`, in a job that logs whatever is raised.
abbrev pub job : Session (Unit {0}) → Session (Unit {0})
job m w = let (o, w') = m w in (ok tt, record w' { db = w'.committed })

module _ (env : Env) where
  unfoldable pub run_nightly_import_async : Source → Session (Unit {0})
  unfolding Run.run
  run_nightly_import_async source = do result ← Run.run env source; commit

  -- _run_nightly_import
  unfoldable pub run_nightly_import : Source → Session (Unit {0})
  unfolding run_nightly_import_async
  run_nightly_import source = job (run_nightly_import_async source)

module _ (context : Context) (env : Env) where
  abbrev pub report_once : ℕ → ℕ → Bool → Session (Unit {0})
  report_once today now true = return tt
  report_once today now false = do result ← run_daily_report context env today now; commit

  abbrev pub report_if_due : ℕ → ℕ → Bool → Session (Unit {0})
  report_if_due today now false = return tt
  report_if_due today now true = do
    sent ← Deliveries.exists_for_operational_day today
    report_once today now sent

  -- `dhaka_day now` is the number of the day in Asia/Dhaka.
  unfoldable pub run_daily_report_async : (ℕ → ℕ) → Session (Unit {0})
  unfolding run_daily_report should_run_daily_report Settings.get
      Deliveries.exists_for_operational_day
  run_daily_report_async dhaka_day = do
    now ← external env.now
    schedule ← Settings.get
    report_if_due (dhaka_day now) now (should_run_daily_report now schedule)

  -- _run_daily_report
  unfoldable pub run_daily_report_job : (ℕ → ℕ) → Session (Unit {0})
  unfolding run_daily_report_async
  run_daily_report_job dhaka_day = job (run_daily_report_async dhaka_day)

  unfoldable pub template_of : Option Notification → Session (Option MessageTemplate)
  unfolding Templates.get_by_id
  template_of none = return none
  template_of (some notification) = Templates.get_by_id notification.template_id

  abbrev pub recipients_of : Option MessageTemplate → Option User → List User
  recipients_of none o = []
  recipients_of (some template) none = []
  recipients_of (some template) (some recipient) = recipient ∷ []

  abbrev pub content_sid_of : Option MessageTemplate → String
  content_sid_of none = ""
  content_sid_of (some template) = template.twilio_content_sid

  -- The `try` block of one row.
  unfoldable pub retry_row : NotificationDelivery → Session (Unit {0})
  unfolding Notifications.get_by_id template_of Users.get_by_id dispatch_deliveries
  retry_row row = do
    notification ← Notifications.get_by_id row.notification_id
    template ← template_of notification
    recipient ← Users.get_by_id row.recipient_user_id
    outcomes ←
        dispatch_deliveries env ((row.recipient_user_id, row.content_variables) ∷ [])
          (content_sid_of template) (recipients_of template recipient) context.max_retry_attempts
          (row ∷ [])
    return tt

  -- A row that raises is rolled back, and the others go on.
  abbrev pub settle_row : Outcome (Unit {0}) → Session (Unit {0})
  settle_row (raised e) = rollback
  settle_row (ok done) = commit

  abbrev pub isolated : Session (Unit {0}) → Session (Unit {0})
  isolated m w = let (o, w') = m w in settle_row o w'

  unfoldable pub retry_rows : List NotificationDelivery → Session (Unit {0})
  unfolding retry_row
  retry_rows [] = return tt
  retry_rows (row ∷ rows) = do isolated (retry_row row); retry_rows rows

  unfoldable pub run_retry_failed_deliveries_async : Backoff → Session (Unit {0})
  unfolding retry_rows Deliveries.list_retry_eligible
  run_retry_failed_deliveries_async backoff = do
    now ← external env.now
    rows ← Deliveries.list_retry_eligible backoff now
    retry_rows rows
    commit

  -- _run_retry_failed_deliveries
  unfoldable pub run_retry_failed_deliveries : Backoff → Session (Unit {0})
  unfolding run_retry_failed_deliveries_async
  run_retry_failed_deliveries backoff = job (run_retry_failed_deliveries_async backoff)
