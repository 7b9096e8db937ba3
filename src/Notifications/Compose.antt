-- ===== src/Notifications/Compose.antt =====
-- ManualNotificationService.compose_and_send (domain/notifications.py).
pub mod Laws
use growth_track.Prelude.{
  ℕ, ◌+◌, String, Bool, ◌&&◌, not, Option, none, some, List, [], ◌∷◌, ◌++◌, map, str_eq, ◌==◌,
  if◌then◌else◌, any, all, is_empty, strip,
}
use growth_track.Models.{
  ContentVariables, NotificationType, DeliveryStatus, TargetType, MessageTemplate,
  NotificationTarget, NotificationDelivery, Detail,
}
use growth_track.Session.{Exc, Session, return, raise, external, ◌>>=◌, ◌>>◌, raise_if, Env}
use growth_track.Persistence.Users
use growth_track.Persistence.Templates
use growth_track.Persistence.Notifications
use growth_track.Persistence.Deliveries
use growth_track.Persistence.AuditLog
use growth_track.Notifications.Resolution.{ResolvedRecipients, resolve}
use growth_track.Notifications.Dispatch.{DeliveryOutcome, VariablesByRecipient, dispatch_deliveries}
use growth_track.Notifications.TemplateDirectory.{has_text}

pub record ComposeResult : Type 0 where
  pub notification_id : ℕ
  pub outcomes : List DeliveryOutcome

-- `variable_values`, a dict.
abbrev pub VariableValues : Type 0
VariableValues = List (String × String)

abbrev pub value_of : String → VariableValues → Option String
value_of slot [] = none
value_of slot ((name, value) ∷ rest) = if str_eq name slot then some value else value_of slot rest

abbrev pub name_of : String × String → String
name_of (name, value) = name

-- `set(variable_values.keys()) != set(template.variable_slots)`, negated.
abbrev pub fits_slots : VariableValues → List String → Bool
fits_slots values slots =
    all (λ v. has_text (name_of v) slots) values
    && all (λ slot. has_text slot (map name_of values)) slots

unfoldable pub valid_values : VariableValues → List String → Bool
unfolding strip
valid_values values slots =
    fits_slots values slots && not (any (λ (v : String × String). is_empty (strip v.1)) values)

abbrev pub cons_value : ℕ → Option String → Option ContentVariables → Option ContentVariables
cons_value index none rest = none
cons_value index (some value) none = none
cons_value index (some value) (some rest) = some ((index, value) ∷ rest)

-- `{str(index): variable_values[slot] for index, slot in enumerate(slots, start=index)}`; `none`
-- is a KeyError.
unfoldable pub positional : ℕ → List String → VariableValues → Option ContentVariables
positional index [] values = some []
positional index (slot ∷ slots) values =
    cons_value index (value_of slot values) (positional (index + 1) slots values)

abbrev pub require_variables : Option ContentVariables → Session ContentVariables
require_variables none = raise Exc.key_error
require_variables (some variables) = return variables

abbrev pub require_template : Option MessageTemplate → Session MessageTemplate
require_template none = raise Exc.template_not_found
require_template (some template) = return template

-- The same variables for every recipient.
abbrev pub for_each : List ℕ → ContentVariables → VariablesByRecipient
for_each ids variables = map (λ user_id. (user_id, variables)) ids

module _ (env : Env) where
  unfoldable pub make_targets : ℕ → TargetType → List ℕ → Session (List NotificationTarget)
  make_targets notification_id target_type [] = return []
  make_targets notification_id target_type (target_id ∷ ids) = do
    id ← external env.uuid4
    rest ← make_targets notification_id target_type ids
    return (
        record {
          id = id;
          notification_id = notification_id;
          target_type = target_type;
          target_id = target_id;
        }
        ∷ rest)

  unfoldable pub make_rows : ℕ → ℕ → ContentVariables → List ℕ → Session (List NotificationDelivery)
  make_rows notification_id now content_variables [] = return []
  make_rows notification_id now content_variables (recipient_user_id ∷ ids) = do
    id ← external env.uuid4
    rest ← make_rows notification_id now content_variables ids
    return (
        record {
          id = id;
          notification_id = notification_id;
          notification_type = NotificationType.manual;
          recipient_user_id = recipient_user_id;
          operational_day = none;
          status = DeliveryStatus.queued;
          attempt_count = 0;
          provider_message_sid = none;
          failure_reason = none;
          created_at = now;
          updated_at = now;
          content_variables = content_variables;
        }
        ∷ rest)

  -- Writes the notification with its raw selections, and the audit entry.
  unfoldable pub record_notification :
      ℕ → List ℕ → List ℕ → List ℕ → ℕ → ℕ → ResolvedRecipients → Session ℕ
  unfolding make_targets Notifications.add AuditLog.add
  record_notification template_id user_ids team_ids recipient_list_ids actor_user_id now resolved =
      do
        notification_id ← external env.uuid4
        user_targets ← make_targets notification_id TargetType.user user_ids
        team_targets ← make_targets notification_id TargetType.team team_ids
        list_targets ← make_targets notification_id TargetType.recipient_list recipient_list_ids
        Notifications.add
            (record {
              id = notification_id;
              notification_type = NotificationType.manual;
              template_id = template_id;
              created_at = now;
              created_by_user_id = some actor_user_id;
            })
            (user_targets ++ (team_targets ++ list_targets))
        entry_id ← external env.uuid4
        AuditLog.add (record {
          id = entry_id;
          actor_user_id = some actor_user_id;
          action = "notification.sent";
          entity_type = some "Notification";
          entity_id = some notification_id;
          details = some (
              ("template_id", Detail.uuid template_id)
              ∷ ("recipient_count", Detail.number resolved.unique_count)
              ∷ []);
          created_at = now;
        })
        return notification_id

  -- Creates the delivery rows and sends them.
  unfoldable pub send_rows :
      ℕ → ℕ → MessageTemplate → VariableValues → List ℕ → ℕ → Session (List DeliveryOutcome)
  unfolding positional make_rows Deliveries.bulk_create Users.get_many_by_ids
  send_rows notification_id now template variable_values recipient_user_ids max_retry_attempts = do
    content_variables ← require_variables (positional 1 template.variable_slots variable_values)
    delivery_rows ← make_rows notification_id now content_variables recipient_user_ids
    Deliveries.bulk_create delivery_rows
    recipients ← Users.get_many_by_ids recipient_user_ids
    dispatch_deliveries env (for_each recipient_user_ids content_variables)
        template.twilio_content_sid recipients max_retry_attempts delivery_rows

  unfoldable pub compose_and_send :
      ℕ → ℕ → VariableValues → List ℕ → List ℕ → List ℕ → ℕ → Session ComposeResult
  unfolding Templates.get_by_id valid_values
  compose_and_send max_retry_attempts template_id variable_values user_ids team_ids
        recipient_list_ids actor_user_id =
      do
        found ← Templates.get_by_id template_id
        template ← require_template found
        raise_if (not (valid_values variable_values template.variable_slots))
            Exc.invalid_variable_values
        resolved ← resolve user_ids team_ids recipient_list_ids
        raise_if (resolved.unique_count == 0) Exc.no_recipients_selected
        now ← external env.now
        notification_id ←
            record_notification template_id user_ids team_ids recipient_list_ids actor_user_id now
              resolved
        outcomes ←
            send_rows notification_id now template variable_values resolved.recipient_user_ids
              max_retry_attempts
        return (record { notification_id = notification_id; outcomes = outcomes })
