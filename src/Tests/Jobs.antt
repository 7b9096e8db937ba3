-- ===== src/Tests/Jobs.antt =====
-- The theorems on the jobs and on the life of a delivery, on the sample.
use growth_track.Models.{NotificationType, WebhookOutcome}
use growth_track.Session.{World}
use growth_track.RowLaws.{All}
use growth_track.Tests.Samples.{sample_env, sample_world, alice, queued_row, failed_row}
use growth_track.Reports.{Context}
use growth_track.Reports.Scheduled.{run_daily_report}
use growth_track.Reports.Scheduled.Laws.{run_daily_report-Dispatched, Dispatched}
use growth_track.Scheduler.{run_retry_failed_deliveries}
use growth_track.Scheduler.Laws.{run_retry_failed_deliveries-IsConsistent}
use growth_track.Persistence.Deliveries.{Backoff}
use growth_track.Notifications.Delivery.{IsConsistent}
use growth_track.Notifications.Dispatch.{dispatch_deliveries}
use growth_track.Notifications.Webhook.{apply_status_update}
use growth_track.Notifications.Lifecycle.{AllLive}
use growth_track.Notifications.Lifecycle.Refinement.{
  dispatch_deliveries-AllLive, apply_status_update-AllLive,
}
use growth_track.Prelude.{◌≡◌, refl, none, some, [], ◌∷◌, arith}

abbrev pub context : Context
context = record {
  stale_after = 24;
  brand_top_n = 5;
  brand_low_performing_n = 5;
  brand_focus_n = 5;
  report_top_doctors_n = 5;
  max_retry_attempts = 3;
  year_start = λ day. 0;
  month_start = λ day. 0;
  hex = λ k. "team";
  str = λ n. "7";
  unit_pred = 0;
}

abbrev pub waiting : Backoff
waiting = record { minutes_1 = 0; minutes_2 = 0; minutes_3 = 0 }

dispatch_deliveries-AllLive_example :
    AllLive 3 sample_world.db.notification_deliveries
      (dispatch_deliveries sample_env [] "HX1"
        (alice ∷ [])
        3
        (queued_row ∷ failed_row ∷ [])
        sample_world).1.db.notification_deliveries
dispatch_deliveries-AllLive_example =
    dispatch_deliveries-AllLive sample_env [] "HX1" (alice ∷ []) 3 (queued_row ∷ failed_row ∷ [])
      sample_world (refl, (refl, tt))
      ((λ e. refl, (λ e. cc, (λ e. cc, tt))), ((λ e. cc, (λ e. cc, (λ e. refl, tt))), tt))

apply_status_update-AllLive_example :
    AllLive 3 sample_world.db.notification_deliveries
      (apply_status_update sample_env 3 "SM1" WebhookOutcome.failure none
        sample_world).1.db.notification_deliveries
apply_status_update-AllLive_example =
    apply_status_update-AllLive sample_env 3 "SM1" WebhookOutcome.failure none sample_world
      (refl, (refl, (refl, tt)))

run_retry_failed_deliveries-IsConsistent_example :
    All
      (IsConsistent 3)
      (run_retry_failed_deliveries context sample_env waiting
        sample_world).1.committed.notification_deliveries
    × ((run_retry_failed_deliveries context sample_env waiting sample_world).1.db
        ≡ (run_retry_failed_deliveries context sample_env waiting sample_world).1.committed)
run_retry_failed_deliveries-IsConsistent_example =
    run_retry_failed_deliveries-IsConsistent context sample_env waiting sample_world (ground arith)
      (refl, (refl, (refl, tt)))

run_daily_report-Dispatched_example :
    Dispatched 5 sample_world (run_daily_report context sample_env 5 77 sample_world)
run_daily_report-Dispatched_example =
    run_daily_report-Dispatched context sample_env 5 77 sample_world

abbrev reported : World
reported = record sample_world {
  db = record sample_world.db {
    notification_deliveries =
        record queued_row {
          notification_type = NotificationType.scheduled;
          operational_day = some 5;
        }
        ∷ [];
  };
}
