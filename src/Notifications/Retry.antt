-- ===== src/Notifications/Retry.antt =====
-- The rows that the retry job reads (list_retry_eligible in adapters/persistence/notifications.py).
use growth_track.Prelude.{ℕ, ◌+◌, ◌*◌, ◌≤◌, ◌≡◌, ◌↔◌, true, arith, ◌==◌, if◌then◌else◌}
use growth_track.Models.{NotificationDelivery}
use growth_track.Persistence.Deliveries.{Backoff, is_failed_retryable, is_retry_eligible}
use growth_track.Notifications.Delivery.{IsConsistent}

-- The wait after the nth failure, in minutes.
abbrev pub wait_after : Backoff → ℕ → ℕ
wait_after b n = if n == 1 then b.minutes_1 else (if n == 2 then b.minutes_2 else b.minutes_3)

-- With a budget of at most three retries, which the configuration enforces, a row that keeps the
-- budget is read by the retry job exactly if it failed retryably and its wait is over: no such row
-- is left behind, and none is sent early.
pub is_retry_eligible_iff :
    (b : Backoff) (now budget : ℕ) (r : NotificationDelivery)
    → budget ≤ 3
    → IsConsistent budget r
    → (is_retry_eligible b now r ≡ true) ↔ (
        (is_failed_retryable r.status ≡ true)
        × (r.updated_at + wait_after b r.attempt_count * 60000000 ≤ now))
unfolding is_retry_eligible
is_retry_eligible_iff b now budget r l c = (λ h. ground arith, λ (f, t). ground arith)
