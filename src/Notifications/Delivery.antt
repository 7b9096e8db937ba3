-- ===== src/Notifications/Delivery.antt =====
-- The life of one delivery row: the invariant of the retry budget, and what each transition does.
use growth_track.Prelude.{ℕ, ◌+◌, ◌≤◌, ◌<◌, String, ◌≡◌, true, Option, none, some, arith}
use growth_track.Models.{DeliveryStatus, WebhookOutcome, NotificationDelivery}
use growth_track.Persistence.Deliveries.{claimed_at, sent_at, reported_at, is_claimable}
use growth_track.Notifications.Dispatch.{status_after_failed_attempt}
use growth_track.Notifications.Webhook.{status_rank, candidate_status}

-- What the status says about the number of attempts, with the budget `1 + budget` of them.
abbrev pub Fits : ℕ → DeliveryStatus → ℕ → Type 0
Fits budget DeliveryStatus.queued n = n ≤ budget
Fits budget DeliveryStatus.sending n = n ≤ 1 + budget
Fits budget DeliveryStatus.delivered n = n ≤ 1 + budget
Fits budget DeliveryStatus.retrying n = n ≤ 1 + budget
Fits budget DeliveryStatus.failed n = n ≡ 1 + budget
Fits budget DeliveryStatus.failed_retryable n = (1 ≤ n) × (n ≤ budget)

-- A row that carries a provider SID has been sent at least once.
abbrev pub Attempted : Option String → ℕ → Type 0
Attempted none n = Unit {0}
Attempted (some sid) n = 1 ≤ n

abbrev pub IsConsistent : ℕ → NotificationDelivery → Type 0
IsConsistent budget r =
    Fits budget r.status r.attempt_count × Attempted r.provider_message_sid r.attempt_count

-- A claim is followed by one attempt: the answer of the provider, or a failure.
pub accepted-IsConsistent :
    (budget : ℕ) (r : NotificationDelivery) (sid : String) (t u : ℕ)
    → IsConsistent budget r
    → is_claimable r.status ≡ true
    → IsConsistent budget (sent_at DeliveryStatus.sending (some sid) none u (claimed_at t r))
accepted-IsConsistent budget r sid t u h c = ground arith

pub failed-IsConsistent :
    (budget : ℕ) (r : NotificationDelivery) (reason : String) (t u : ℕ)
    → IsConsistent budget r
    → is_claimable r.status ≡ true
    → IsConsistent budget (
        sent_at
          (status_after_failed_attempt (r.attempt_count + 1) budget)
          none
          (some reason)
          u
          (claimed_at t r))
unfolding status_after_failed_attempt
failed-IsConsistent budget r reason t u h c = ground arith

-- A callback that moves the row up in rank keeps the invariant.
pub reported-IsConsistent :
    (budget : ℕ) (r : NotificationDelivery) (outcome : WebhookOutcome) (sid : String)
    (reason : Option String) (t : ℕ)
    → IsConsistent budget r
    → r.provider_message_sid ≡ some sid
    → status_rank r.status < status_rank (candidate_status outcome r.attempt_count budget)
    → IsConsistent budget (reported_at (candidate_status outcome r.attempt_count budget) reason t r)
unfolding status_rank candidate_status
reported-IsConsistent budget r outcome sid reason t h s lt = ground arith
