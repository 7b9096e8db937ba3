-- ===== src/Tests/Configuration.antt =====
-- The theorems on settings and on the time of the report, at the defaults.
use growth_track.Models.{ReportSchedule, report_schedule_id}
use growth_track.Config.{Settings, is_accepted, backoff_of}
use growth_track.Config.Laws.{is_retry_eligible-accepted, should_run_daily_report-some_tick}
use growth_track.Persistence.Deliveries.{is_failed_retryable, is_retry_eligible}
use growth_track.Notifications.Retry.{wait_after}
use growth_track.Schedule.{dhaka_to_utc, should_run_daily_report}
use growth_track.Schedule.Dhaka.{should_run_daily_report-in_Dhaka}
use growth_track.Tests.Samples.{failed_row}
use growth_track.Prelude.{
  ℕ, ◌+◌, ◌*◌, ◌/◌, ◌≤◌, ◌<◌, ◌≡◌, refl, ◌↔◌, ◌⊎◌, true, none, pos, arith, strip,
}

abbrev default_settings : Settings
default_settings = record {
  environment = "development";
  postgres_host = "localhost";
  postgres_port = pos 5432;
  postgres_db = "growthtrack";
  postgres_migrator_user = "migrator";
  postgres_migrator_password = "m";
  postgres_app_user = "app";
  postgres_app_password = "a";
  jwt_signing_key = "key";
  jwt_expiry_minutes = pos 480;
  login_lockout_threshold = pos 5;
  login_lockout_duration_minutes = pos 15;
  password_reset_token_ttl_minutes = pos 60;
  twilio_account_sid = "AC";
  twilio_auth_token = "T";
  twilio_whatsapp_number = "+1";
  webhook_public_base_url = "https://example.org";
  notification_max_retry_attempts = pos 3;
  notification_retry_backoff_minutes_1 = pos 1;
  notification_retry_backoff_minutes_2 = pos 5;
  notification_retry_backoff_minutes_3 = pos 15;
  notification_retry_poll_interval_seconds = pos 30;
  source_system_import_dir = "/data/source_system/incoming";
  nightly_import_cron_hour = pos 19;
  nightly_import_cron_minute = pos 30;
  dashboard_stale_after_hours = pos 24;
  brand_top_n = pos 5;
  brand_low_performing_n = pos 5;
  brand_focus_n = pos 5;
  report_schedule_poll_interval_seconds = pos 60;
  report_top_doctors_n = pos 5;
}

default_settings-accepted : is_accepted default_settings ≡ true
unfolding is_accepted strip
default_settings-accepted = refl

-- The row of the migration: 01:00 in UTC, 07:00 in Dhaka.
abbrev seeded : ReportSchedule
seeded = record {
  id = report_schedule_id;
  send_hour_utc = 1;
  send_minute_utc = 0;
  updated_at = 0;
  updated_by_user_id = none;
}

is_retry_eligible-accepted_example :
    (is_retry_eligible (backoff_of default_settings) 300000000 failed_row ≡ true) ↔ (
      (is_failed_retryable failed_row.status ≡ true)
      × (failed_row.updated_at
            + wait_after (backoff_of default_settings) failed_row.attempt_count * 60000000
          ≤ 300000000))
is_retry_eligible-accepted_example =
    is_retry_eligible-accepted default_settings 300000000 failed_row default_settings-accepted
      ((omega arith, omega arith), tt)

should_run_daily_report-some_tick_example :
    (k : ℕ) × ((5000000 + k * (60 * 1000000)) / 86400000000 ≡ 2)
    × (should_run_daily_report (5000000 + k * (60 * 1000000)) seeded ≡ true)
should_run_daily_report-some_tick_example =
    should_run_daily_report-some_tick default_settings seeded 5000000 2 default_settings-accepted
      (omega arith) (omega arith)

-- At midnight in Dhaka, 18:00 in UTC, the report that is set for 07:00 is due.
should_run_daily_report-in_Dhaka_example : (should_run_daily_report 64800000000 seeded ≡ true) ↔ (
    (360 ≤ 7 * 60 + 0 × (0 < 360 * 60000000 ⊎ (7 * 60 + 0) * 60000000 ≤ 0))
    ⊎ (7 * 60 + 0 < 360 × (7 * 60 + 0) * 60000000 ≤ 0 × 0 < 360 * 60000000))
unfolding dhaka_to_utc
should_run_daily_report-in_Dhaka_example =
    should_run_daily_report-in_Dhaka 360 7 0 0 0 64800000000 seeded (omega arith) (omega arith)
      (omega arith) refl (omega arith) (omega arith)

due_at_midnight : should_run_daily_report 64800000000 seeded ≡ true
unfolding should_run_daily_report
due_at_midnight = refl
