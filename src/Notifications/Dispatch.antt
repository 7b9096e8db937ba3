-- ===== src/Notifications/Dispatch.antt =====
-- The retry budget and dispatch_deliveries (domain/notifications.py).
pub mod Laws
pub mod Identity
pub mod Budget
use growth_track.Prelude.{
  ℕ, ◌+◌, String, Bool, true, false, Option, none, some, List, [], ◌∷◌, ltb, ◌==◌, if◌then◌else◌,
  dict_get,
}
use growth_track.Models.{User, ContentVariables, DeliveryStatus, NotificationDelivery}
use growth_track.Session.{
  Session, return, external, ◌>>=◌, ◌>>◌, send_template_message, SendReply, Env, accepted, rejected,
}
use growth_track.Persistence.Deliveries
use growth_track.Notifications.Resolution.{user_id_of}

unfoldable pub status_after_failed_attempt : ℕ → ℕ → DeliveryStatus
status_after_failed_attempt attempt_count_after_increment max_retry_attempts =
    if ltb attempt_count_after_increment (1 + max_retry_attempts)
    then DeliveryStatus.failed_retryable
    else DeliveryStatus.failed

pub record DeliveryOutcome : Type 0 where
  pub recipient_user_id : ℕ
  pub status : DeliveryStatus
  pub failure_reason : Option String

-- `content_variables_by_recipient`, a dict.
abbrev pub VariablesByRecipient : Type 0
VariablesByRecipient = List (ℕ × ContentVariables)

abbrev pub variables_of : ℕ → VariablesByRecipient → Option ContentVariables
variables_of k [] = none
variables_of k ((j, v) ∷ rest) = if j == k then some v else variables_of k rest

abbrev pub cons_some : Option DeliveryOutcome → List DeliveryOutcome → List DeliveryOutcome
cons_some none outcomes = outcomes
cons_some (some o) outcomes = o ∷ outcomes

module _ (env : Env) (content_variables_by_recipient : VariablesByRecipient)
    (template_content_sid : String) (recipients : List User) (max_retry_attempts : ℕ) where
  -- `_fail`
  unfoldable pub fail : NotificationDelivery → String → Session DeliveryOutcome
  unfolding Deliveries.update_after_send status_after_failed_attempt
  fail row reason = do
    let status = status_after_failed_attempt (row.attempt_count + 1) max_retry_attempts
    Deliveries.update_after_send env row.id status none (some reason)
    return (record {
      recipient_user_id = row.recipient_user_id;
      status = status;
      failure_reason = some reason;
    })

  unfoldable pub record_reply : NotificationDelivery → SendReply → Session DeliveryOutcome
  unfolding fail
  record_reply row (rejected message) = fail row message
  record_reply row (accepted provider_message_sid) = do
    Deliveries.update_after_send env row.id DeliveryStatus.sending (some provider_message_sid) none
    return (record {
      recipient_user_id = row.recipient_user_id;
      status = DeliveryStatus.sending;
      failure_reason = none;
    })

  -- The `try` block: a missing key of the dict is an exception like any other.
  unfoldable pub send :
      NotificationDelivery → User → Option ContentVariables → Session DeliveryOutcome
  unfolding record_reply send_template_message
  send row recipient none = do
    text ← external (λ _. env.key_error_text row.recipient_user_id)
    fail row text
  send row recipient (some variables) = do
    reply ← send_template_message env (record {
      to_number = recipient.mobile;
      content_sid = template_content_sid;
      content_variables = variables;
    })
    record_reply row reply

  unfoldable pub deliver : NotificationDelivery → Option User → Session DeliveryOutcome
  unfolding send
  deliver row none = fail row "recipient no longer exists"
  deliver row (some recipient) =
      send row recipient (variables_of row.recipient_user_id content_variables_by_recipient)

  -- One round of the loop, once the claim has been tried.
  unfoldable pub after_claim : NotificationDelivery → Bool → Session (Option DeliveryOutcome)
  unfolding deliver
  after_claim row false = return none
  after_claim row true = do
    outcome ← deliver row (dict_get user_id_of row.recipient_user_id recipients)
    return (some outcome)

  unfoldable pub dispatch_row : NotificationDelivery → Session (Option DeliveryOutcome)
  unfolding after_claim Deliveries.claim_for_dispatch
  dispatch_row row = do claimed ← Deliveries.claim_for_dispatch env row.id; after_claim row claimed

  unfoldable pub dispatch_deliveries : List NotificationDelivery → Session (List DeliveryOutcome)
  unfolding dispatch_row
  dispatch_deliveries [] = return []
  dispatch_deliveries (row ∷ rows) = do
    outcome ← dispatch_row row
    outcomes ← dispatch_deliveries rows
    return (cons_some outcome outcomes)
