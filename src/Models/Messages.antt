-- ===== src/Models/Messages.antt =====
-- Templates, notifications and their deliveries (domain/models.py). `str(index)`, the key of a
-- content variable, is kept as the number itself.
use growth_track.Prelude.{ℕ, String, Option, List}

pub data NotificationType : Type 0 where
  manual scheduled : NotificationType

pub data DeliveryStatus : Type 0 where
  queued sending delivered retrying failed failed_retryable : DeliveryStatus

pub data TargetType : Type 0 where
  user team recipient_list : TargetType

pub data WebhookOutcome : Type 0 where
  delivered failure : WebhookOutcome

pub record MessageTemplate : Type 0 where
  pub id : ℕ
  pub name : String
  pub twilio_content_sid : String
  pub variable_slots : List String
  pub body_preview_template : String
  pub created_at : ℕ

pub record Notification : Type 0 where
  pub id : ℕ
  pub notification_type : NotificationType
  pub template_id : ℕ
  pub created_at : ℕ
  pub created_by_user_id : Option ℕ

pub record NotificationTarget : Type 0 where
  pub id : ℕ
  pub notification_id : ℕ
  pub target_type : TargetType
  pub target_id : ℕ

abbrev pub ContentVariables : Type 0
ContentVariables = List (ℕ × String)

pub record NotificationDelivery : Type 0 where
  pub id : ℕ
  pub notification_id : ℕ
  pub notification_type : NotificationType
  pub recipient_user_id : ℕ
  pub operational_day : Option ℕ
  pub status : DeliveryStatus
  pub attempt_count : ℕ
  pub provider_message_sid : Option String
  pub failure_reason : Option String
  pub created_at : ℕ
  pub updated_at : ℕ
  pub content_variables : ContentVariables

pub record NotificationStatusSummary : Type 0 where
  pub status : DeliveryStatus
  pub updated_at : ℕ
