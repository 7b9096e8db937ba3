-- ===== src/Notifications/Webhook.antt =====
-- DeliveryStatusWebhookService and NotificationStatusService (domain/notifications.py).
pub mod Laws
pub mod Sequence
pub mod OnlyRow
use growth_track.Prelude.{ℕ, String, Option, none, some, leb, if◌then◌else◌}
use growth_track.Models.{
  DeliveryStatus, WebhookOutcome, NotificationDelivery, NotificationStatusSummary,
}
use growth_track.Session.{Session, return, ◌>>=◌, ◌>>◌, Env}
use growth_track.Persistence.Deliveries
use growth_track.Notifications.Dispatch.{status_after_failed_attempt}

pub data WebhookApplyResult : Type 0 where
  applied superseded rejected_non_monotonic : WebhookApplyResult

-- _STATUS_RANK.
unfoldable pub status_rank : DeliveryStatus → ℕ
status_rank DeliveryStatus.queued = 0
status_rank DeliveryStatus.sending = 1
status_rank DeliveryStatus.delivered = 2
status_rank DeliveryStatus.retrying = 2
status_rank DeliveryStatus.failed = 2
status_rank DeliveryStatus.failed_retryable = 2

unfoldable pub candidate_status : WebhookOutcome → ℕ → ℕ → DeliveryStatus
unfolding status_after_failed_attempt
candidate_status WebhookOutcome.delivered attempt_count max_retry_attempts =
    DeliveryStatus.delivered
candidate_status WebhookOutcome.failure attempt_count max_retry_attempts =
    status_after_failed_attempt attempt_count max_retry_attempts

module _ (env : Env) (max_retry_attempts : ℕ) where
  unfoldable pub move_to :
      NotificationDelivery → DeliveryStatus → Option String → Session WebhookApplyResult
  unfolding status_rank Deliveries.update_status_from_webhook
  move_to row candidate failure_reason =
      if leb (status_rank candidate) (status_rank row.status)
      then return WebhookApplyResult.rejected_non_monotonic
      else (do
        Deliveries.update_status_from_webhook env row.id candidate failure_reason
        return WebhookApplyResult.applied)

  unfoldable pub apply_to :
      Option NotificationDelivery → WebhookOutcome → Option String → Session WebhookApplyResult
  unfolding candidate_status move_to
  apply_to none outcome failure_reason = return WebhookApplyResult.superseded
  apply_to (some row) outcome failure_reason =
      move_to row (candidate_status outcome row.attempt_count max_retry_attempts) failure_reason

  unfoldable pub apply_status_update :
      String → WebhookOutcome → Option String → Session WebhookApplyResult
  unfolding apply_to Deliveries.get_by_provider_message_sid
  apply_status_update provider_message_sid outcome failure_reason = do
    row ← Deliveries.get_by_provider_message_sid provider_message_sid
    apply_to row outcome failure_reason

unfoldable pub latest_notification_status : Session (Option NotificationStatusSummary)
unfolding Deliveries.most_recent_status_summary
latest_notification_status = Deliveries.most_recent_status_summary
