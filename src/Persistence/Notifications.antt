-- ===== src/Persistence/Notifications.antt =====
-- SqlAlchemyNotificationRepository (adapters/persistence/notifications.py).
use growth_track.Prelude.{ℕ, Bool, Option, List, ◌∷◌, ◌++◌, ◌==◌, find?}
use growth_track.Models.{Notification, NotificationTarget}
use growth_track.Session.{Session, Env, query, write, external}

unfoldable pub add : Notification → List NotificationTarget → Session (Unit {0})
add notification targets = write (λ d. record d {
  notifications = notification ∷ d.notifications;
  notification_targets = targets ++ d.notification_targets;
})

unfoldable pub get_by_id : ℕ → Session (Option Notification)
get_by_id notification_id = query (λ d. find? (λ n. n.id == notification_id) d.notifications)

-- DAILY_REPORT_LOCK_KEY (adapters/persistence/advisory_locks.py).
abbrev pub daily_report_lock_key : ℕ
daily_report_lock_key = 738104259

module _ (env : Env) where
  unfoldable pub try_acquire_daily_report_lock : Session Bool
  try_acquire_daily_report_lock = external (env.try_lock daily_report_lock_key)
