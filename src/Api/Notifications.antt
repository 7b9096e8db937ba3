-- ===== src/Api/Notifications.antt =====
-- /message-templates and /notifications (api/notifications/routes.py).
use growth_track.Models.{MessageTemplate}
use growth_track.Session.{Exc, Session, return, ◌>>=◌, ◌>>◌, commit, Env}
use growth_track.Api.Replies.{
  Reply, done, HttpError, rollback_and_refuse, refuse_listed, commit_or, answering, not_found,
}
use growth_track.Persistence.Templates
use growth_track.Notifications.TemplateDirectory as TemplateDirectory
use growth_track.Notifications.Resolution.{resolve}
use growth_track.Notifications.Compose as Compose
use growth_track.Notifications.Compose.{VariableValues, ComposeResult}
use growth_track.Prelude.{ℕ, String, Bool, Option, none, some, List, map}

pub record MessageTemplateResponse : Type 0 where
  pub id : ℕ
  pub name : String
  pub twilio_content_sid : String
  pub variable_slots : List String
  pub body_preview_template : String

abbrev pub to_message_template_response : MessageTemplate → MessageTemplateResponse
to_message_template_response template = record {
  id = template.id;
  name = template.name;
  twilio_content_sid = template.twilio_content_sid;
  variable_slots = template.variable_slots;
  body_preview_template = template.body_preview_template;
}

abbrev pub template_name_taken : HttpError
template_name_taken = (409, "template_name_taken")

abbrev pub create_errors : Exc → Option HttpError
create_errors Exc.template_name_taken = some template_name_taken
create_errors Exc.invalid_template_fields = some (422, "invalid_template_fields")
create_errors e = none

abbrev pub update_errors : Exc → Option HttpError
update_errors Exc.template_not_found = some not_found
update_errors e = create_errors e

abbrev pub compose_errors : Exc → Option HttpError
compose_errors Exc.template_not_found = some not_found
compose_errors Exc.invalid_variable_values = some (422, "invalid_variable_values")
compose_errors Exc.no_recipients_selected = some (422, "no_recipients_selected")
compose_errors e = none

unfoldable pub list_message_templates : Session (Reply (List MessageTemplateResponse))
unfolding Templates.list_active
list_message_templates = do
  templates ← Templates.list_active
  return (done (map to_message_template_response templates))

unfoldable pub resolve_recipients : List ℕ → List ℕ → List ℕ → Session (Reply (ℕ × ℕ × ℕ × ℕ))
resolve_recipients user_ids team_ids recipient_list_ids = do
  resolved ← resolve user_ids team_ids recipient_list_ids
  return (
      done (
        resolved.selected_count, resolved.unique_count, resolved.overlap_count,
        resolved.ineligible_count,
      ))

module _ (env : Env) (races : ℕ → Bool) where
  unfoldable pub create_message_template :
      String → String → List String → String → ℕ → Session (Reply MessageTemplateResponse)
  create_message_template name twilio_content_sid variable_slots body_preview_template
        current_user_id =
      answering (λ e. refuse_listed (create_errors e))
        (λ t. commit_or races template_name_taken (return (done (to_message_template_response t))))
        (TemplateDirectory.create_template env name twilio_content_sid variable_slots
          body_preview_template current_user_id)

  -- The UPDATE may run into the unique index before the commit.
  abbrev pub update_failed : Exc → Session (Reply MessageTemplateResponse)
  update_failed Exc.integrity_error = rollback_and_refuse template_name_taken
  update_failed e = refuse_listed (update_errors e)

  unfoldable pub update_message_template :
      ℕ → String → String → List String → String → ℕ → Session (Reply MessageTemplateResponse)
  update_message_template template_id name twilio_content_sid variable_slots body_preview_template
        current_user_id =
      answering update_failed
        (λ t. commit_or races template_name_taken (return (done (to_message_template_response t))))
        (TemplateDirectory.update_template env template_id name twilio_content_sid variable_slots
          body_preview_template current_user_id)

  unfoldable pub compose_and_send_notification :
      ℕ → ℕ → VariableValues → List ℕ → List ℕ → List ℕ → ℕ → Session (Reply ComposeResult)
  compose_and_send_notification max_retry_attempts template_id variable_values user_ids team_ids
        recipient_list_ids current_user_id =
      answering (λ e. refuse_listed (compose_errors e)) (λ result. commit >> return (done result))
        (Compose.compose_and_send env max_retry_attempts template_id variable_values user_ids
          team_ids recipient_list_ids current_user_id)
