-- ===== src/Persistence/Deliveries.antt =====
-- SqlAlchemyNotificationDeliveryRepository (adapters/persistence/notifications.py), with the two
-- partial unique indexes of `notification_deliveries`.
use growth_track.Prelude.{
  ℕ, ◌+◌, ◌*◌, String, Bool, true, false, ◌&&◌, ◌||◌, Option, none, some, List, [], ◌∷◌, ◌==◌, ltb,
  leb, max, rows_where, set_where, any, if◌then◌else◌,
}
use growth_track.Models.{
  Notification, NotificationDelivery, NotificationType, DeliveryStatus, NotificationStatusSummary,
}
use growth_track.Session.{
  Session, Env, Exc, query, write, external, return, raise, rollback, ◌>>=◌, ◌>>◌,
}
use growth_track.Persistence.Users.{text_is}

-- Two dates that are both present and equal: NULL is distinct from NULL.
abbrev pub same_day : Option ℕ → Option ℕ → Bool
same_day none _ = false
same_day (some d) none = false
same_day (some d) (some e) = d == e

-- Whether the indexes ix_notification_deliveries_manual_uq and ..._scheduled_uq forbid both rows.
abbrev pub clashes_as :
    NotificationType → NotificationType → NotificationDelivery → NotificationDelivery → Bool
clashes_as NotificationType.manual NotificationType.manual r s =
    r.notification_id == s.notification_id && r.recipient_user_id == s.recipient_user_id
clashes_as NotificationType.manual NotificationType.scheduled r s = false
clashes_as NotificationType.scheduled NotificationType.manual r s = false
clashes_as NotificationType.scheduled NotificationType.scheduled r s =
    r.recipient_user_id == s.recipient_user_id && same_day r.operational_day s.operational_day

abbrev pub clashes : NotificationDelivery → NotificationDelivery → Bool
clashes r s = clashes_as r.notification_type s.notification_type r s

-- The INSERTs of one flush; `none` is an IntegrityError.
unfoldable pub insert_rows :
    List NotificationDelivery → List NotificationDelivery → Option (List NotificationDelivery)
insert_rows [] table = some table
insert_rows (row ∷ rows) table =
    let rest = insert_rows rows (row ∷ table) in if any (clashes row) table then none else rest

unfoldable pub flush_rows : Option (List NotificationDelivery) → Session (Unit {0})
flush_rows none = rollback >> raise Exc.integrity_error
flush_rows (some table) = write (λ d. record d { notification_deliveries = table })

unfoldable pub bulk_create : List NotificationDelivery → Session (Unit {0})
unfolding insert_rows flush_rows
bulk_create rows = do
  table ← query (λ d. insert_rows rows d.notification_deliveries)
  flush_rows table

-- `status in (queued, failed_retryable)`.
abbrev pub is_claimable : DeliveryStatus → Bool
is_claimable DeliveryStatus.queued = true
is_claimable DeliveryStatus.failed_retryable = true
is_claimable _ = false

abbrev pub is_failed_retryable : DeliveryStatus → Bool
is_failed_retryable DeliveryStatus.failed_retryable = true
is_failed_retryable _ = false

abbrev pub may_claim : ℕ → NotificationDelivery → Bool
may_claim delivery_id r = r.id == delivery_id && is_claimable r.status

abbrev pub claimed_at : ℕ → NotificationDelivery → NotificationDelivery
claimed_at now r = record r { status = DeliveryStatus.sending; updated_at = now }

abbrev pub sent_at :
    DeliveryStatus → Option String → Option String → ℕ → NotificationDelivery → NotificationDelivery
sent_at status sid reason now r = record r {
  status = status;
  provider_message_sid = sid;
  failure_reason = reason;
  attempt_count = r.attempt_count + 1;
  updated_at = now;
}

abbrev pub reported_at :
    DeliveryStatus → Option String → ℕ → NotificationDelivery → NotificationDelivery
reported_at status reason now r = record r {
  status = status;
  failure_reason = reason;
  updated_at = now;
}

module _ (env : Env) where
  unfoldable pub claim_for_dispatch : ℕ → Session Bool
  claim_for_dispatch delivery_id = do
    now ← external env.now
    matched ← query (λ d. any (may_claim delivery_id) d.notification_deliveries)
    write (λ d. record d {
      notification_deliveries =
          set_where (may_claim delivery_id) (claimed_at now) d.notification_deliveries;
    })
    return matched

  unfoldable pub update_after_send :
      ℕ → DeliveryStatus → Option String → Option String → Session (Unit {0})
  update_after_send delivery_id status provider_message_sid failure_reason = do
    now ← external env.now
    write (λ d. record d {
      notification_deliveries =
          set_where (λ r. r.id == delivery_id)
            (sent_at status provider_message_sid failure_reason now) d.notification_deliveries;
    })

  unfoldable pub update_status_from_webhook :
      ℕ → DeliveryStatus → Option String → Session (Unit {0})
  update_status_from_webhook delivery_id status failure_reason = do
    now ← external env.now
    write (λ d. record d {
      notification_deliveries =
          set_where (λ r. r.id == delivery_id) (reported_at status failure_reason now)
            d.notification_deliveries;
    })

-- None, also if several rows carry the SID.
abbrev pub only_row : List NotificationDelivery → Option NotificationDelivery
only_row [] = none
only_row (r ∷ []) = some r
only_row (r ∷ s ∷ rest) = none

unfoldable pub get_by_provider_message_sid : String → Session (Option NotificationDelivery)
get_by_provider_message_sid sid =
    query (λ d.
      only_row (rows_where (λ r. text_is r.provider_message_sid sid) d.notification_deliveries))

-- notification_retry_backoff_minutes_1, _2 and _3 (config.py).
pub record Backoff : Type 0 where
  pub minutes_1 : ℕ
  pub minutes_2 : ℕ
  pub minutes_3 : ℕ

-- `updated_at <= now - timedelta(minutes=minutes)`, in microseconds.
abbrev pub backed_off : ℕ → ℕ → NotificationDelivery → Bool
backed_off now minutes r = leb (r.updated_at + minutes * 60000000) now

unfoldable pub is_retry_eligible : Backoff → ℕ → NotificationDelivery → Bool
is_retry_eligible b now r =
    is_failed_retryable r.status
    && ((r.attempt_count == 1 && backed_off now b.minutes_1 r)
        || (r.attempt_count == 2 && backed_off now b.minutes_2 r)
        || (r.attempt_count == 3 && backed_off now b.minutes_3 r))

unfoldable pub list_retry_eligible : Backoff → ℕ → Session (List NotificationDelivery)
unfolding is_retry_eligible
list_retry_eligible b now =
    query (λ d. rows_where (is_retry_eligible b now) d.notification_deliveries)

unfoldable pub exists_for_operational_day : ℕ → Session Bool
exists_for_operational_day operational_day =
    query
      (λ d. any (λ r. same_day r.operational_day (some operational_day)) d.notification_deliveries)

-- _STATUS_SEVERITY.
unfoldable pub status_severity : DeliveryStatus → ℕ
status_severity DeliveryStatus.failed = 4
status_severity DeliveryStatus.failed_retryable = 4
status_severity DeliveryStatus.retrying = 3
status_severity DeliveryStatus.queued = 2
status_severity DeliveryStatus.sending = 2
status_severity DeliveryStatus.delivered = 1

-- ORDER BY created_at DESC LIMIT 1.
unfoldable pub latest_notification : List Notification → Option Notification
latest_notification [] = none
latest_notification (n ∷ ns) = elim (latest_notification ns) [
  | none ↦ some n
  | some m ↦ some (if ltb n.created_at m.created_at then m else n)
]

-- The order of the pairs (_STATUS_SEVERITY[status], updated_at).
abbrev pub outranks : NotificationDelivery → NotificationDelivery → Bool
outranks r s =
    ltb (status_severity s.status) (status_severity r.status)
    || (status_severity s.status == status_severity r.status && ltb s.updated_at r.updated_at)

-- `max(rows, key=...)` and `max(row.updated_at for row in rows)`, from a first row.
unfoldable pub worst_row : NotificationDelivery → List NotificationDelivery → NotificationDelivery
worst_row w [] = w
worst_row w (r ∷ rows) = worst_row (if outranks r w then r else w) rows

unfoldable pub latest_update : ℕ → List NotificationDelivery → ℕ
latest_update t [] = t
latest_update t (r ∷ rows) = latest_update (max t r.updated_at) rows

unfoldable pub summarise : List NotificationDelivery → Option NotificationStatusSummary
unfolding worst_row latest_update status_severity
summarise [] = none
summarise (r ∷ rows) =
    some
      (record { status = (worst_row r rows).status; updated_at = latest_update r.updated_at rows })

unfoldable pub summary_of : Option Notification → Session (Option NotificationStatusSummary)
unfolding summarise
summary_of none = return none
summary_of (some n) =
    query (λ d. summarise (rows_where (λ r. r.notification_id == n.id) d.notification_deliveries))

unfoldable pub most_recent_status_summary : Session (Option NotificationStatusSummary)
unfolding latest_notification summary_of
most_recent_status_summary = do
  latest ← query (λ d. latest_notification d.notifications)
  summary_of latest
