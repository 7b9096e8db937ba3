-- ===== src/Api/Webhooks.antt =====
-- /webhooks/twilio/status (api/webhooks/routes.py, adapters/whatsapp_twilio/webhook_verifier.py).
use growth_track.Models.{WebhookOutcome}
use growth_track.Session.{Session, return, ◌>>◌, commit, Env}
use growth_track.Api.Replies.{Reply, done, refused, refuse_listed, answering}
use growth_track.Notifications.Webhook.{apply_status_update}
use growth_track.Prelude.{
  ℕ, String, Bool, true, false, ◌||◌, Option, none, some, List, [], ◌∷◌, str_eq, if◌then◌else◌,
  is_empty,
}

-- The form of a request, a dict.
abbrev pub Params : Type 0
Params = List (String × String)

abbrev pub param : String → Params → Option String
param key [] = none
param key ((name, value) ∷ params) =
    let rest = param key params in if str_eq name key then some value else rest

-- `params.get(key, "")`.
abbrev pub text_or_empty : Option String → String
text_or_empty none = ""
text_or_empty (some s) = s

-- `params.get("ErrorCode") or None`.
abbrev pub or_none : Option String → Option String
or_none none = none
or_none (some s) = if is_empty s then none else some s

-- _DELIVERED_STATUSES and _FAILURE_STATUSES.
unfoldable pub categorize_message_status : String → Option WebhookOutcome
categorize_message_status twilio_status =
    if str_eq twilio_status "delivered" || str_eq twilio_status "read"
    then some WebhookOutcome.delivered
    else (if str_eq twilio_status "failed" || str_eq twilio_status "undelivered"
        then some WebhookOutcome.failure
        else none)

module _ (env : Env) (max_retry_attempts : ℕ) where
  abbrev pub apply_if_final : Params → Option WebhookOutcome → Session (Reply (Unit {0}))
  apply_if_final params none = return (done tt)
  apply_if_final params (some outcome) =
      answering (λ e. refuse_listed none) (λ result. commit >> return (done tt))
        (apply_status_update env max_retry_attempts (text_or_empty (param "MessageSid" params))
          outcome (or_none (param "ErrorCode" params)))

  abbrev pub if_verified : Bool → Session (Reply (Unit {0})) → Session (Reply (Unit {0}))
  if_verified false m = return (refused 403 "")
  if_verified true m = m

  -- `verified` is the answer of Twilio's validator for the form and the signature.
  unfoldable pub twilio_status_webhook :
      (Params → String → Bool) → Params → String → Session (Reply (Unit {0}))
  unfolding categorize_message_status
  twilio_status_webhook verified params signature = if_verified (verified params signature) (
      apply_if_final params
        (categorize_message_status (text_or_empty (param "MessageStatus" params))))
