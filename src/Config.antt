-- ===== src/Config.antt =====
-- The settings (config.py), and what the scheduler registers with them (scheduler/main.py). Reading the
-- environment is the settings library's; a value that it has read may be any integer or text.
pub mod Laws
use Prim.Native.String.{◌++◌ as concat}
use growth_track.Persistence.Deliveries.{Backoff}
use growth_track.Prelude.{
  ℕ, ℤ, pos, negsuc, String, Bool, true, false, ◌&&◌, not, List, [], ◌∷◌, ltb, leb, is_empty, strip,
}

pub record Settings : Type 0 where
  pub environment : String
  pub postgres_host : String
  pub postgres_port : ℤ
  pub postgres_db : String
  pub postgres_migrator_user : String
  pub postgres_migrator_password : String
  pub postgres_app_user : String
  pub postgres_app_password : String
  pub jwt_signing_key : String
  pub jwt_expiry_minutes : ℤ
  pub login_lockout_threshold : ℤ
  pub login_lockout_duration_minutes : ℤ
  pub password_reset_token_ttl_minutes : ℤ
  pub twilio_account_sid : String
  pub twilio_auth_token : String
  pub twilio_whatsapp_number : String
  pub webhook_public_base_url : String
  pub notification_max_retry_attempts : ℤ
  pub notification_retry_backoff_minutes_1 : ℤ
  pub notification_retry_backoff_minutes_2 : ℤ
  pub notification_retry_backoff_minutes_3 : ℤ
  pub notification_retry_poll_interval_seconds : ℤ
  pub source_system_import_dir : String
  pub nightly_import_cron_hour : ℤ
  pub nightly_import_cron_minute : ℤ
  pub dashboard_stale_after_hours : ℤ
  pub brand_top_n : ℤ
  pub brand_low_performing_n : ℤ
  pub brand_focus_n : ℤ
  pub report_schedule_poll_interval_seconds : ℤ
  pub report_top_doctors_n : ℤ

-- `Field(gt=0)`.
abbrev pub gt_0 : ℤ → Bool
gt_0 (pos n) = ltb 0 n
gt_0 (negsuc n) = false

-- `Field(ge=0, le=...)`.
abbrev pub ge_0_le : ℕ → ℤ → Bool
ge_0_le bound (pos n) = leb n bound
ge_0_le bound (negsuc n) = false

-- `Field(gt=0, le=...)`.
abbrev pub gt_0_le : ℕ → ℤ → Bool
gt_0_le bound n = gt_0 n && ge_0_le bound n

-- _source_system_import_dir_not_blank
abbrev pub import_dir_not_blank : String → Bool
import_dir_not_blank value = not (is_empty (strip value))

-- Whether the constructor takes the values.
unfoldable pub is_accepted : Settings → Bool
is_accepted s =
    gt_0 s.jwt_expiry_minutes
    && gt_0 s.login_lockout_threshold
    && gt_0 s.login_lockout_duration_minutes
    && gt_0 s.password_reset_token_ttl_minutes
    && ge_0_le 3 s.notification_max_retry_attempts
    && gt_0 s.notification_retry_backoff_minutes_1
    && gt_0 s.notification_retry_backoff_minutes_2
    && gt_0 s.notification_retry_backoff_minutes_3
    && gt_0 s.notification_retry_poll_interval_seconds
    && import_dir_not_blank s.source_system_import_dir
    && ge_0_le 23 s.nightly_import_cron_hour
    && ge_0_le 59 s.nightly_import_cron_minute
    && gt_0 s.dashboard_stale_after_hours
    && gt_0 s.brand_top_n
    && gt_0 s.brand_low_performing_n
    && gt_0 s.brand_focus_n
    && gt_0_le 3600 s.report_schedule_poll_interval_seconds
    && gt_0 s.report_top_doctors_n

-- An accepted number, which is not negative.
abbrev pub natural : ℤ → ℕ
natural (pos n) = n
natural (negsuc n) = 0

-- The waits that the retry job passes on.
abbrev pub backoff_of : Settings → Backoff
backoff_of s = record {
  minutes_1 = natural s.notification_retry_backoff_minutes_1;
  minutes_2 = natural s.notification_retry_backoff_minutes_2;
  minutes_3 = natural s.notification_retry_backoff_minutes_3;
}

-- `urllib.parse.quote_plus`, and `str` of an integer.
module _ (quote_plus : String → String) (str : ℤ → String) where
  unfoldable pub postgres_url : String → String → String → String → ℤ → String → String
  postgres_url scheme user password host port db = concat scheme (
      concat "://" (
        concat (quote_plus user) (
          concat ":" (
            concat (quote_plus password)
              (concat "@" (concat host (concat ":" (concat (str port) (concat "/" db)))))))))

  unfoldable pub database_url : Settings → String
  unfolding postgres_url
  database_url s =
      postgres_url "postgresql+asyncpg" s.postgres_app_user s.postgres_app_password s.postgres_host
        s.postgres_port s.postgres_db

  unfoldable pub database_migration_url : Settings → String
  unfolding postgres_url
  database_migration_url s =
      postgres_url "postgresql+psycopg" s.postgres_migrator_user s.postgres_migrator_password
        s.postgres_host s.postgres_port s.postgres_db

-- The triggers of APScheduler, and a job by its id.
pub data Trigger : Type 0 where
  interval : ℕ → Trigger
  cron : ℕ → ℕ → Trigger

-- _register_jobs
unfoldable pub register_jobs : Settings → List (String × Trigger)
register_jobs s =
    ("heartbeat", Trigger.interval 30)
    ∷ (
      "nightly_import",
      Trigger.cron (natural s.nightly_import_cron_hour) (natural s.nightly_import_cron_minute),
    )
    ∷ ("daily_report", Trigger.interval (natural s.report_schedule_poll_interval_seconds))
    ∷ (
      "retry_failed_deliveries",
      Trigger.interval (natural s.notification_retry_poll_interval_seconds),
    )
    ∷ []
